-- ===== src/Base/Rows.antt =====
-- Rows of a table: what a condition still picks after rows were added, changed or removed.
use mathlib.Core.Path.{◌≡◌, refl, sym, ap, ◌∙◌, subst}
use mathlib.Core.Logic.{◌≢◌, ◌⊎◌, inl, inr}
use mathlib.Core.Bool.{Bool, true, false, ◌||◌}
use mathlib.Core.List.{List, [], ◌∷◌, ◌++◌}
use mathlib.Core.Option.{none, some}
use native.Mathlib.Omega.{arith}
use mesh_cart.Base.Tests.{if◌then◌else◌, Bool-cases}
use mesh_cart.Base.Int.{ℤ, leb_ℤ}
use mesh_cart.Base.Lists.{find, any, select, update_where, count_where, All, insert_by, sort_by}

module _ {ℓ} {A : Type ℓ} where
  pub any-append : (p : A → Bool) (xs ys : List A) → any p (xs ++ ys) ≡ (any p xs || any p ys)
  any-append p [] ys = refl
  any-append p (x ∷ xs) ys = ground (arith, any-append p xs ys)

  -- An update that keeps what the condition reads keeps its answer.
  pub any-update_where :
      (q p : A → Bool) (f : A → A)
      → ((x : A) → q (f x) ≡ q x)
      → (xs : List A) → any q (update_where p f xs) ≡ any q xs
  any-update_where q p f k [] = refl
  any-update_where q p f k (x ∷ xs) = ground (arith, k x, any-update_where q p f k xs)

  pub find-append :
      (p : A → Bool) (xs ys : List A) (a : A) → find p xs ≡ some a → find p (xs ++ ys) ≡ some a
  find-append p [] ys a e = cc
  find-append p (x ∷ xs) ys a e = ground (arith, find-append p xs ys a)

  pub find-none-any : (p : A → Bool) (xs : List A) → find p xs ≡ none → any p xs ≡ false
  find-none-any p [] e = refl
  find-none-any p (x ∷ xs) e = ground (arith, find-none-any p xs)

  pub find-some-any : (p : A → Bool) (xs : List A) (a : A) → find p xs ≡ some a → any p xs ≡ true
  find-some-any p [] a e = cc
  find-some-any p (x ∷ xs) a e = ground (arith, find-some-any p xs a)

  -- An update of other rows does not touch the row that `q` finds.
  pub find-update_other :
      (q p : A → Bool) (f : A → A)
      → ((x : A) → q (f x) ≡ q x)
      → (xs : List A) (a : A) → find q xs ≡ some a
      → p a ≡ false
      → find q (update_where p f xs) ≡ some a
  find-update_other q p f k [] a e h = cc
  find-update_other q p f k (x ∷ xs) a e h = ground (arith, k x, find-update_other q p f k xs a)

module _ {A : Type 0} where
  -- A row of the table, by its place.
  abbrev pub In : A → List A → Type 0
  In a [] = ⊥
  In a (x ∷ xs) = (a ≡ x) ⊎ In a xs

  pub In-select : (p : A → Bool) (xs : List A) (a : A) → In a (select p xs) → In a xs × (p a ≡ true)
  In-select p [] a i = absurd i
  In-select p (x ∷ xs) a i = elim (Bool-cases (p x)) [
    | inl e ↦ elim (keep e i) [
      | inl h ↦ (inl h, ap p h ∙ e)
      | inr h ↦ let (j, q) = In-select p xs a h in (inr j, q)
    ]
    | inr e ↦ let (j, q) = In-select p xs a (skip e i) in (inr j, q)
  ]
    where
      keep :
          p x ≡ true
          → In a (if p x then x ∷ select p xs else select p xs)
          → (a ≡ x) ⊎ In a (select p xs)
      keep e i = rw e at i

      skip : p x ≡ false → In a (if p x then x ∷ select p xs else select p xs) → In a (select p xs)
      skip e i = rw e at i

  pub any-false-In : (p : A → Bool) (xs : List A) (a : A) → any p xs ≡ false → In a xs → p a ≡ false
  any-false-In p [] a h i = absurd i
  any-false-In p (x ∷ xs) a h (inl e) = ground arith
  any-false-In p (x ∷ xs) a h (inr i) = any-false-In p xs a (ground arith) i

  pub count_where-any :
      (p q : A → Bool)
      → ((x : A) → p x ≡ true → q x ≡ true)
      → (xs : List A) → count_where p xs ≢ 0
      → any q xs ≡ true
  count_where-any p q k [] h = absurd (h refl)
  count_where-any p q k (x ∷ xs) h = ground (arith, k x, count_where-any p q k xs)

module _ {ℓ} {A : Type ℓ} where
  pub update_where-none :
      (p : A → Bool) (f : A → A) (xs : List A) → any p xs ≡ false → update_where p f xs ≡ xs
  update_where-none p f [] h = refl
  update_where-none p f (x ∷ xs) h = ground (arith, update_where-none p f xs)

  pub any-false-imp :
      (p q : A → Bool)
      → ((x : A) → p x ≡ true → q x ≡ true)
      → (xs : List A) → any q xs ≡ false
      → any p xs ≡ false
  any-false-imp p q k [] h = refl
  any-false-imp p q k (x ∷ xs) h = ground (arith, k x, any-false-imp p q k xs)

module _ {A : Type 0} where
  pub In-find : (p : A → Bool) (xs : List A) (a : A) → find p xs ≡ some a → In a xs
  In-find p [] a e = cc
  In-find p (x ∷ xs) a e = elim (Bool-cases (p x)) [
    | inl hit ↦ inl (ground arith)
    | inr miss ↦ inr (In-find p xs a (ground arith))
  ]

  pub any-select :
      (q p : A → Bool) (xs : List A)
      → ((x : A) → q x ≡ true → p x ≡ true)
      → any q (select p xs) ≡ any q xs
  any-select q p [] k = refl
  any-select q p (x ∷ xs) k = ground (arith, k x, any-select q p xs k)

  pub any-false-select :
      (q p : A → Bool) (xs : List A) → any q xs ≡ false → any q (select p xs) ≡ false
  any-false-select q p [] h = refl
  any-false-select q p (x ∷ xs) h = ground (arith, any-false-select q p xs)

module _ {A : Type 0} where
  pub find-append_new :
      (p : A → Bool) (xs : List A) (a : A)
      → any p xs ≡ false
      → p a ≡ true
      → find p (xs ++ a ∷ []) ≡ some a
  find-append_new p [] a h k = ground arith
  find-append_new p (x ∷ xs) a h k = ground (arith, find-append_new p xs a)

  pub find-append_other :
      (p : A → Bool) (xs : List A) (a : A) → p a ≡ false → find p (xs ++ a ∷ []) ≡ find p xs
  find-append_other p [] a k = ground arith
  find-append_other p (x ∷ xs) a k = ground (arith, find-append_other p xs a k)

  pub select-all : (p : A → Bool) (xs : List A) → ((x : A) → p x ≡ true) → select p xs ≡ xs
  select-all p [] k = refl
  select-all p (x ∷ xs) k = ground (arith, k x, select-all p xs k)

  pub In-insert_by :
      (key : A → ℤ) (x : A) (ys : List A) (a : A) → (a ≡ x) ⊎ In a ys → In a (insert_by key x ys)
  In-insert_by key x [] a (inl e) = inl e
  In-insert_by key x [] a (inr i) = absurd i
  In-insert_by key x (y ∷ ys) a i = place (leb_ℤ (key x) (key y)) (In-insert_by key x ys a) i
    where
      place :
          (b : Bool)
          → ((a ≡ x) ⊎ In a ys → In a (insert_by key x ys))
          → (a ≡ x) ⊎ In a (y ∷ ys)
          → In a (if b then x ∷ y ∷ ys else y ∷ insert_by key x ys)
      place true k i = i
      place false k (inl e) = inr (k (inl e))
      place false k (inr (inl e)) = inl e
      place false k (inr (inr i)) = inr (k (inr i))

  -- Sorting loses no row.
  pub In-sort_by : (key : A → ℤ) (xs : List A) (a : A) → In a xs → In a (sort_by key xs)
  In-sort_by key [] a i = i
  In-sort_by key (x ∷ xs) a (inl e) = In-insert_by key x (sort_by key xs) a (inl e)
  In-sort_by key (x ∷ xs) a (inr i) =
      In-insert_by key x (sort_by key xs) a (inr (In-sort_by key xs a i))

  pub All-In {ℓ} : {P : A → Type ℓ} (xs : List A) → ((a : A) → In a xs → P a) → All P xs
  All-In [] k = tt
  All-In (x ∷ xs) k = (k x (inl refl), All-In xs λ a i. k a (inr i))

module _ {A : Type 0} where
  pub update_where-count :
      (p : A → Bool) (f : A → A) (xs : List A) → count_where p xs ≡ 0 → update_where p f xs ≡ xs
  update_where-count p f [] h = refl
  update_where-count p f (x ∷ xs) h = ground (arith, update_where-count p f xs)

module _ {A : Type 0} where
  -- An update of rows that `q` does not pick keeps what it picks.
  pub any-update_rest :
      (q p : A → Bool) (f : A → A) (xs : List A)
      → All (λ x. p x ≡ true → q x ≡ false) xs
      → any q xs ≡ true
      → any q (update_where p f xs) ≡ true
  any-update_rest q p f [] a h = h
  any-update_rest q p f (x ∷ xs) a h = elim (Bool-cases (p x)) [
    | inr off ↦ ground (arith, any-update_rest q p f xs a.1)
    | inl on ↦ ground (arith, any-update_rest q p f xs a.1, a.0 on)
  ]

  -- The row that was found is changed.
  pub any-update_found :
      (q p : A → Bool) (f : A → A) (xs : List A) (a : A)
      → find p xs ≡ some a
      → q (f a) ≡ true
      → any q (update_where p f xs) ≡ true
  any-update_found q p f [] a e h = cc
  any-update_found q p f (x ∷ xs) a e h = ground (arith, any-update_found q p f xs a)

  pub any-find :
      (q p : A → Bool) (xs : List A) (a : A) → find p xs ≡ some a → q a ≡ true → any q xs ≡ true
  any-find q p [] a e h = cc
  any-find q p (x ∷ xs) a e h = ground (arith, any-find q p xs a)

  pub any-append_left : (q : A → Bool) (xs ys : List A) → any q xs ≡ true → any q (xs ++ ys) ≡ true
  any-append_left q xs ys h = ground (arith, any-append q xs ys)

  pub any-append_new :
      (q : A → Bool) (xs : List A) (a : A) → q a ≡ true → any q (xs ++ a ∷ []) ≡ true
  any-append_new q [] a h = ground arith
  any-append_new q (x ∷ xs) a h = ground (arith, any-append_new q xs a)

  pub find-true : (p : A → Bool) (xs : List A) (a : A) → find p xs ≡ some a → p a ≡ true
  find-true p [] a e = cc
  find-true p (x ∷ xs) a e = ground (arith, find-true p xs a)

module _ {A : Type 0} where
  pub All-member {κ} : (P : A → Type κ) (xs : List A) (a : A) → All P xs → In a xs → P a
  All-member P [] a h i = absurd i
  All-member P (x ∷ xs) a h (inl e) = subst P (sym e) h.0
  All-member P (x ∷ xs) a h (inr i) = All-member P xs a h.1 i

  pub any-member : (p : A → Bool) (xs : List A) (a : A) → In a xs → p a ≡ true → any p xs ≡ true
  any-member p [] a i h = absurd i
  any-member p (x ∷ xs) a (inl e) h = ground (arith, subst (λ y. p y ≡ true) e h)
  any-member p (x ∷ xs) a (inr i) h = ground (arith, any-member p xs a i h)
