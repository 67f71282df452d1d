-- ===== src/Sql.antt =====
-- The database session that the repositories run on: statements, transactions and generated ids.
-- A statement runs on the rows, unless the environment makes it fail: the faults to come are a
-- list that the statements use up, one each, and an empty list is an environment with no fault.
pub mod Hoare
use mesh_cart.Base.{ℕ, suc, Bool, true, false, Option, none, some, List, [], ◌∷◌, if◌then◌else◌}
use mesh_cart.Base.Int.{ℤ}

-- The errors of a driver, as far as the source tells them apart: gorm's missing row; a duplicate key; an expired or a
-- cancelled context; a lock wait timeout or a deadlock; any other.
pub data Fault : Type 0 where
  record_not_found duplicate_key deadline_exceeded canceled lock_timeout other : Fault

pub data Result (E A : Type 0) : Type 0 where
  ok : A → Result E A
  err : E → Result E A

abbrev pub is_err : {E A : Type 0} → Result E A → Bool
is_err (ok a) = false
is_err (err e) = true

pub record World (Db : Type 0) : Type 0 where
  pub db : Db
  pub faults : List (Option Fault)
  -- the ids that a generator gives out, and how many it has given
  pub ids : ℕ → ℤ
  pub drawn : ℕ

abbrev pub Query : Type 0 → Type 0 → Type 0 → Type 0
Query Db E A = World Db → Result E A × World Db

-- A world with no fault to come.
abbrev pub quiet : {Db : Type 0} → Db → (ℕ → ℤ) → ℕ → World Db
quiet d ids drawn = record { db = d; faults = []; ids = ids; drawn = drawn }

module _ {Db E : Type 0} where
  module _ {A : Type 0} where
    unfoldable pub pure : A → Query Db E A
    pure a w = (ok a, w)

    unfoldable pub raise : E → Query Db E A
    raise e w = (err e, w)

    unfoldable pub lift : Result E A → Query Db E A
    lift r w = (r, w)

    unfoldable pub or_raise : Option A → E → Query Db E A
    or_raise none e w = (err e, w)
    or_raise (some a) e w = (ok a, w)

  unfoldable pub raise_if : Bool → E → Query Db E Unit
  raise_if c e w = (if c then err e else ok tt, w)

  -- The generator's next id.
  unfoldable pub next_id : Query Db E ℤ
  next_id w = (ok (w.ids w.drawn), record w { drawn = suc w.drawn })

module _ {Db E A B : Type 0} where
  infixl 5 ◌>>=◌ ◌>>◌
  -- Opening this opens the ways to build a query, too.
  unfoldable pub ◌>>=◌ : Query Db E A → (A → Query Db E B) → Query Db E B
  unfolding pure raise lift or_raise raise_if next_id
  ◌>>=◌ m f w = let (r, w') = m w in elim r [ ok a ↦ f a w' | err e ↦ (err e, w') ]

  abbrev pub ◌>>◌ : Query Db E A → Query Db E B → Query Db E B
  m >> k = m >>= λ _. k

abbrev pub next_fault : List (Option Fault) → Option Fault
next_fault [] = none
next_fault (f ∷ fs) = f

abbrev pub later_faults : List (Option Fault) → List (Option Fault)
later_faults [] = []
later_faults (f ∷ fs) = fs

-- One SQL statement.
unfoldable pub statement : {Db A : Type 0} → (Db → Result Fault A × Db) → Query Db Fault A
statement run w =
    let w' = record w { faults = later_faults w.faults } in
    elim (next_fault w.faults) [
      | some f ↦ (err f, w')
      | none ↦ ((run w.db).0, record w' { db = (run w.db).1 })
    ]

unfoldable pub read : {Db A : Type 0} → (Db → A) → Query Db Fault A
unfolding statement
read f = statement λ d. (ok (f d), d)

unfoldable pub write : {Db : Type 0} → (Db → Db) → Query Db Fault Unit
unfolding statement
write f = statement λ d. (ok tt, f d)

-- gorm's `Take`: the first row, or an error.
abbrev row_or_fault : {Db A : Type 0} → Option A → Db → Result Fault A × Db
row_or_fault none d = (err record_not_found, d)
row_or_fault (some a) d = (ok a, d)

unfoldable pub take_row : {Db A : Type 0} → (Db → Option A) → Query Db Fault A
unfolding statement
take_row f = statement λ d. row_or_fault (f d) d

-- What the code makes of a driver's error.
unfoldable pub map_err : {Db E F A : Type 0} → (E → F) → Query Db E A → Query Db F A
map_err h m w = let (r, w') = m w in elim r [ ok a ↦ (ok a, w') | err e ↦ (err (h e), w') ]

-- The error as a value, for code that goes on with it.
unfoldable pub attempt : {Db E F A : Type 0} → Query Db E A → Query Db F (Result E A)
attempt m w = let (r, w') = m w in (ok r, w')

-- BEGIN and COMMIT: statements that may fail as any other.
abbrev control : {Db : Type 0} → Query Db Fault Unit
control = statement λ d. (ok tt, d)

-- gorm's `Transaction`: an error of BEGIN, of the body or of COMMIT brings the rows back. That a
-- COMMIT whose reply is lost may have been applied is not modelled.
unfoldable pub transaction : {Db E A : Type 0} → (Fault → E) → Query Db E A → Query Db E A
unfolding statement map_err ◌>>=◌
transaction inj body w =
    let (r, w') = (do map_err inj control; a ← body; map_err inj control; pure a) w in
    elim r [ ok a ↦ (ok a, w') | err e ↦ (err e, record w' { db = w.db }) ]
