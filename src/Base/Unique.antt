-- ===== src/Base/Unique.antt =====
-- Rows with a unique integer key: adding a row with a new key, changing rows and leaving their keys,
-- and the row that a condition on its key finds.
use mathlib.Core.Path.{◌≡◌, refl, sym, ap, ◌∙◌, subst}
use mathlib.Core.Logic.{inl, inr}
use mathlib.Core.Bool.{Bool, true, false, ◌&&◌}
use mathlib.Core.List.{List, [], ◌∷◌, ◌++◌}
use mathlib.Core.Option.{none, some}
use native.Mathlib.Omega.{arith}
use mesh_cart.Base.Tests.{if◌then◌else◌, Bool-cases}
use mesh_cart.Base.Int.{ℤ, eq_ℤ, eq_ℤ→eq, eq_ℤ-comm}
use mesh_cart.Base.Lists.{find, any, update_where, All}
use mesh_cart.Base.Rows.{In, any-append, any-update_where, any-false-In}

module _ {A : Type 0} (key : A → ℤ) where
  abbrev pub has_key : ℤ → A → Bool
  has_key k x = eq_ℤ (key x) k

  abbrev pub UniqueBy : List A → Type 0
  UniqueBy [] = Unit
  UniqueBy (x ∷ xs) = (any (has_key (key x)) xs ≡ false) × UniqueBy xs

  pub UniqueBy-append :
      (xs : List A) (a : A)
      → any (has_key (key a)) xs ≡ false
      → UniqueBy xs
      → UniqueBy (xs ++ a ∷ [])
  UniqueBy-append [] a h u = (refl, tt)
  UniqueBy-append (x ∷ xs) a h u = (
    ground (arith, any-append (has_key (key x)) xs (a ∷ []), eq_ℤ-comm (key x) (key a)),
    UniqueBy-append xs a (ground arith) u.1,
  )

  pub UniqueBy-update :
      (p : A → Bool) (f : A → A)
      → ((x : A) → key (f x) ≡ key x)
      → (xs : List A) → UniqueBy xs
      → UniqueBy (update_where p f xs)
  UniqueBy-update p f keeps [] u = tt
  UniqueBy-update p f keeps (x ∷ xs) u = (same ∙ u.0, UniqueBy-update p f keeps xs u.1)
    where
      others : any (has_key (key x)) (update_where p f xs) ≡ any (has_key (key x)) xs
      others = any-update_where (has_key (key x)) p f (λ y. ap (λ j. eq_ℤ j (key x)) (keeps y)) xs

      same :
          any (has_key (key (if p x then f x else x))) (update_where p f xs)
          ≡ any (has_key (key x)) xs
      same = elim (Bool-cases (p x)) [ inl on ↦ rw (on, keeps x) others | inr off ↦ rw off others ]

  nowhere :
      (k : ℤ) (q : A → Bool) (ys : List A)
      → any (has_key k) ys ≡ false
      → find (λ y. has_key k y && q y) ys ≡ none
  nowhere k q [] h = refl
  nowhere k q (y ∷ ys) h = ground (arith, nowhere k q ys)

  apart :
      (k : ℤ) (o : A) (ys : List A)
      → any (has_key k) ys ≡ false
      → All (λ x. has_key k x ≡ true → x ≡ o) ys
  apart k o [] h = tt
  apart k o (y ∷ ys) h = ((λ on. absurd (ground arith)), apart k o ys (ground arith))

  -- The row that a condition on its key, and more, finds is the only one with that key.
  pub unique_found :
      (k : ℤ) (q : A → Bool) (xs : List A) (o : A)
      → UniqueBy xs
      → find (λ y. has_key k y && q y) xs ≡ some o
      → All (λ x. has_key k x ≡ true → x ≡ o) xs
  unique_found k q [] o u e = tt
  unique_found k q (x ∷ xs) o u e = elim (Bool-cases (has_key k x)) [
    | inr off ↦ ((λ on. cc), unique_found k q xs o u.1 (ground arith))
    | inl on ↦
        let none_more : any (has_key k) xs ≡ false =
          subst (λ j. any (has_key j) xs ≡ false) (eq_ℤ→eq (key x) k on) u.0 in
        ((λ _. first (nowhere k q xs none_more)), apart k o xs none_more)
  ]
    where
      first : find (λ y. has_key k y && q y) xs ≡ none → x ≡ o
      first n = ground arith

  -- Two rows with the same key are one.
  pub unique_In :
      (xs : List A) (a b : A)
      → UniqueBy xs
      → In a xs
      → In b xs
      → eq_ℤ (key a) (key b) ≡ true
      → a ≡ b
  unique_In [] a b u i j h = absurd i
  unique_In (x ∷ xs) a b u (inl e) (inl f) h = e ∙ sym f
  unique_In (x ∷ xs) a b u (inr i) (inr j) h = unique_In xs a b u.1 i j h
  unique_In (x ∷ xs) a b u (inl e) (inr j) h =
      let off = any-false-In (has_key (key x)) xs b u.0 j in
      let on : eq_ℤ (key b) (key x) ≡ true =
        subst (λ y. eq_ℤ (key b) (key y) ≡ true) e (eq_ℤ-comm (key b) (key a) ∙ h) in
      absurd (ground (arith, on, off))
  unique_In (x ∷ xs) a b u (inr i) (inl f) h =
      let off = any-false-In (has_key (key x)) xs a u.0 i in
      let on : eq_ℤ (key a) (key x) ≡ true = subst (λ y. eq_ℤ (key a) (key y) ≡ true) f h in
      absurd (ground (arith, on, off))
