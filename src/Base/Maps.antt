-- ===== src/Base/Maps.antt =====
-- A Go map with integer keys, as its entries; an assignment replaces the entry of its key. Go leaves
-- the order of a range over a map open: here it is the order in which the keys came.
use mathlib.Core.List.{List, [], ◌∷◌}
use mathlib.Core.Option.{Option, none, some}
use mesh_cart.Base.Tests.{if◌then◌else◌}
use mesh_cart.Base.Int.{ℤ, eq_ℤ}

abbrev pub Map {ℓ} : Type ℓ → Type ℓ
Map V = List (ℤ × V)

module _ {ℓ} {V : Type ℓ} where
  abbrev pub get : ℤ → List (ℤ × V) → Option V
  get k [] = none
  get k (e ∷ es) = if eq_ℤ e.0 k then some e.1 else get k es

  abbrev pub put : ℤ → V → List (ℤ × V) → List (ℤ × V)
  put k v [] = (k, v) ∷ []
  put k v (e ∷ es) = if eq_ℤ e.0 k then (k, v) ∷ es else e ∷ put k v es
