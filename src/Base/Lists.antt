-- ===== src/Base/Lists.antt =====
-- Lists measured by native numbers, membership of integer keys, and a predicate on all members.
use Prim.Native.Nat.{ℕ, zero, suc}
use mathlib.Core.Path.{◌≡◌, refl}
use mathlib.Core.Bool.{Bool, true, false, ◌||◌}
use mathlib.Core.List.{List, [], ◌∷◌, ◌++◌}
use mathlib.Core.Option.{Option, none, some}
use native.Mathlib.Omega.{arith}
use mesh_cart.Base.Tests.{if◌then◌else◌}
use mesh_cart.Base.Int.{ℤ, eq_ℤ, leb_ℤ}

module _ {ℓ} {A : Type ℓ} where
  abbrev pub length : List A → ℕ
  length [] = 0
  length (x ∷ xs) = suc (length xs)

  abbrev pub is_empty : List A → Bool
  is_empty [] = true
  is_empty (x ∷ xs) = false

  abbrev pub find : (A → Bool) → List A → Option A
  find p [] = none
  find p (x ∷ xs) = if p x then some x else find p xs

  abbrev pub select : (A → Bool) → List A → List A
  select p [] = []
  select p (x ∷ xs) = if p x then x ∷ select p xs else select p xs

  -- `UPDATE … SET f WHERE p`.
  abbrev pub update_where : (A → Bool) → (A → A) → List A → List A
  update_where p f [] = []
  update_where p f (x ∷ xs) = (if p x then f x else x) ∷ update_where p f xs

  abbrev pub any : (A → Bool) → List A → Bool
  any p [] = false
  any p (x ∷ xs) = p x || any p xs

  -- How many rows a statement's condition picks.
  abbrev pub count_where : (A → Bool) → List A → ℕ
  count_where p [] = 0
  count_where p (x ∷ xs) = if p x then suc (count_where p xs) else count_where p xs

  -- Stable insertion sort by an integer key.
  abbrev pub insert_by : (A → ℤ) → A → List A → List A
  insert_by key x [] = x ∷ []
  insert_by key x (y ∷ ys) = if leb_ℤ (key x) (key y) then x ∷ y ∷ ys else y ∷ insert_by key x ys

  abbrev pub sort_by : (A → ℤ) → List A → List A
  sort_by key [] = []
  sort_by key (x ∷ xs) = insert_by key x (sort_by key xs)

  abbrev pub take : ℕ → List A → List A
  take zero xs = []
  take (suc n) [] = []
  take (suc n) (x ∷ xs) = x ∷ take n xs

  abbrev pub drop : ℕ → List A → List A
  drop zero xs = xs
  drop (suc n) [] = []
  drop (suc n) (x ∷ xs) = drop n xs

abbrev pub All {ℓ κ} : {A : Type ℓ} → (A → Type κ) → List A → Type κ
All P [] = Unit
All P (x ∷ xs) = P x × All P xs

pub All-append {ℓ κ} :
    {A : Type ℓ} (P : A → Type κ) (xs ys : List A) → All P xs → All P ys → All P (xs ++ ys)
All-append P [] ys h k = k
All-append P (x ∷ xs) ys h k = (h.0, All-append P xs ys h.1 k)

pub All-update_where {ℓ κ} :
    {A : Type ℓ} (P : A → Type κ) (p : A → Bool) (f : A → A)
    → ((x : A) → p x ≡ true → P x → P (f x))
    → (xs : List A) → All P xs
    → All P (update_where p f xs)
All-update_where P p f k [] h = h
All-update_where {A} P p f k (x ∷ xs) h = (each (p x) refl, All-update_where P p f k xs h.1)
  where
    each : (b : Bool) → p x ≡ b → P (if b then f x else x)
    each true e = k x e h.0
    each false e = h.0

pub All-select {ℓ κ} :
    {A : Type ℓ} (P : A → Type κ) (p : A → Bool) (xs : List A) → All P xs → All P (select p xs)
All-select P p [] h = h
All-select {A} P p (x ∷ xs) h = each (p x) (All-select P p xs h.1)
  where
    each : (b : Bool) → All P (select p xs) → All P (if b then x ∷ select p xs else select p xs)
    each true k = (h.0, k)
    each false k = k

pub All-find {ℓ κ} :
    {A : Type ℓ} (P : A → Type κ) (p : A → Bool) (xs : List A) (a : A)
    → All P xs
    → find p xs ≡ some a
    → P a × (p a ≡ true)
All-find P p [] a h e = cc
All-find P p (x ∷ xs) a h e = ground (arith, All-find P p xs a h.1)

-- `key IN ?`
abbrev pub mem_ℤ : ℤ → List ℤ → Bool
mem_ℤ k [] = false
mem_ℤ k (x ∷ xs) = eq_ℤ k x || mem_ℤ k xs

pub All-imp {ℓ κ ι} :
    {A : Type ℓ} (P : A → Type κ) (Q : A → Type ι)
    → ((x : A) → P x → Q x)
    → (xs : List A) → All P xs
    → All Q xs
All-imp P Q k [] h = tt
All-imp P Q k (x ∷ xs) h = (k x h.0, All-imp P Q k xs h.1)

pub All-imp₂ {ℓ κ ι μ} :
    {A : Type ℓ} (P : A → Type κ) (Q : A → Type ι) (R : A → Type μ)
    → ((x : A) → P x → Q x → R x)
    → (xs : List A) → All P xs
    → All Q xs
    → All R xs
All-imp₂ P Q R k [] h j = tt
All-imp₂ P Q R k (x ∷ xs) h j = (k x h.0 j.0, All-imp₂ P Q R k xs h.1 j.1)

-- Stable insertion sort by an order.
abbrev pub insert_with {ℓ} : {A : Type ℓ} → (A → A → Bool) → A → List A → List A
insert_with le x [] = x ∷ []
insert_with le x (y ∷ ys) = if le x y then x ∷ y ∷ ys else y ∷ insert_with le x ys

abbrev pub sort_with {ℓ} : {A : Type ℓ} → (A → A → Bool) → List A → List A
sort_with le [] = []
sort_with le (x ∷ xs) = insert_with le x (sort_with le xs)
