-- ===== src/Base/TextMaps.antt =====
-- A Go map with strings as keys, as the function that looks a key up.
use mathlib.Core.Path.{◌≡◌, refl, sym, ◌∙◌}
use mathlib.Core.Logic.{◌⊎◌, inl, inr}
use mathlib.Core.Bool.{true, false}
use mathlib.Core.Option.{Option, none, some}
use Prim.Native.String.{String}
use native.Mathlib.Omega.{arith}
use mesh_cart.Base.Tests.{if◌then◌else◌, Bool-cases}
use mesh_cart.Base.Text.{str_eq, str_eq_iff}

pub str_eq_refl : (a : String) → str_eq a a ≡ true
str_eq_refl a = (str_eq_iff a a).1 refl

-- Two texts are the same, or the test tells them apart.
pub Text-cases : (a b : String) → (a ≡ b) ⊎ (str_eq a b ≡ false)
Text-cases a b = elim (Bool-cases (str_eq a b)) [
  | inl on ↦ inl ((str_eq_iff a b).0 on)
  | inr off ↦ inr off
]

module _ {V : Type 0} where
  unfoldable pub put_key : String → V → (String → Option V) → String → Option V
  put_key k v m j = if str_eq j k then some v else m j

  unfoldable pub delete_key : String → (String → Option V) → String → Option V
  delete_key k m j = if str_eq j k then none else m j

  pub put_key-same : (k : String) (v : V) (m : String → Option V) → put_key k v m k ≡ some v
  unfolding put_key
  put_key-same k v m = rw (str_eq_refl k)

  pub put_key-other :
      (k : String) (v : V) (m : String → Option V) (j : String)
      → str_eq j k ≡ false
      → put_key k v m j ≡ m j
  unfolding put_key
  put_key-other k v m j off = rw off

  pub delete_key-same : (k : String) (m : String → Option V) → delete_key k m k ≡ none
  unfolding delete_key
  delete_key-same k m = rw (str_eq_refl k)

  pub delete_key-other :
      (k : String) (m : String → Option V) (j : String)
      → str_eq j k ≡ false
      → delete_key k m j ≡ m j
  unfolding delete_key
  delete_key-other k m j off = rw off

  -- Where an entry comes from.
  pub put_key-cases :
      (k : String) (v : V) (m : String → Option V) (j : String) (o : Option V)
      → put_key k v m j ≡ o
      → ((j ≡ k) × (some v ≡ o)) ⊎ ((str_eq j k ≡ false) × (m j ≡ o))
  unfolding put_key
  put_key-cases k v m j o e = elim (Bool-cases (str_eq j k)) [
    | inl on ↦ inl ((str_eq_iff j k).0 on, sym (put_key-on on) ∙ e)
    | inr off ↦ inr (off, sym (put_key-other k v m j off) ∙ e)
  ]
    where
      put_key-on : str_eq j k ≡ true → put_key k v m j ≡ some v
      put_key-on on = rw on

  pub delete_key-some :
      (k : String) (m : String → Option V) (j : String) (v : V)
      → delete_key k m j ≡ some v
      → (str_eq j k ≡ false) × (m j ≡ some v)
  unfolding delete_key
  delete_key-some k m j v e = elim (Bool-cases (str_eq j k)) [
    | inl on ↦ absurd (ground arith)
    | inr off ↦ (off, ground arith)
  ]
