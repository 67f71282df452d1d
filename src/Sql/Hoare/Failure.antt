-- ===== src/Sql/Hoare/Failure.antt =====
-- Queries that leave the rows as they were where they fail.
use mesh_cart.Base.{ℕ, Bool, true, false, Option, none, some, ◌≡◌, refl, if◌then◌else◌}
use mesh_cart.Base.Int.{ℤ}
use mesh_cart.Sql.{
  Fault, Result, ok, err, World, Query, pure, raise, ◌>>=◌, statement, next_fault, later_faults,
  map_err, read, transaction, next_id,
}
use mesh_cart.Sql.Hoare.Success.{OnOk, Ensures}
use mesh_cart.Sql.Hoare.Always.{transaction_atomic}

abbrev pub OnErr : {Db E A : Type 0} → (Db → Type 0) → Result E A × World Db → Type 0
OnErr Q (ok a, w) = Unit
OnErr Q (err e, w) = Q w.db

pub record Undone {Db E A : Type 0} (m : Query Db E A) : Type 0 where
  pub at : (w : World Db) → OnErr (λ d. d ≡ w.db) (m w)

module _ {Db E A : Type 0} where
  pub Undone-raise : (e : E) → Undone {Db = Db} {E = E} {A = A} (raise e)
  unfolding raise
  Undone-raise e = record { at = λ w. refl }

  pub Undone-if :
      (c : Bool) {m n : Query Db E A}
      → (c ≡ true → Undone m)
      → (c ≡ false → Undone n)
      → Undone (if c then m else n)
  Undone-if true km kn = km refl
  Undone-if false km kn = kn refl

  pub Undone-map_err : {F : Type 0} (h : E → F) {m : Query Db E A} → Undone m → Undone (map_err h m)
  unfolding map_err
  Undone-map_err {F} h {m} k = record { at = λ w. run w (m w) (k.at w) }
    where
      run :
          (w : World Db) (r : Result E A × World Db)
          → OnErr (λ d. d ≡ w.db) r
          → OnErr {E = F} {A = A}
              (λ d. d ≡ w.db)
              (elim r.0 [ ok a ↦ (ok a, r.1) | err e ↦ (err (h e), r.1) ])
      run w (ok a, w') q = tt
      run w (err e, w') q = q

  -- What follows does not fail.
  pub Undone-then :
      {B : Type 0} {m : Query Db E A} (f : A → B) → Undone m → Undone (m >>= λ a. pure (f a))
  unfolding ◌>>=◌
  Undone-then {B} {m} f k = record { at = λ w. run w (m w) (k.at w) }
    where
      run :
          (w : World Db) (r : Result E A × World Db)
          → OnErr (λ d. d ≡ w.db) r
          → OnErr {E = E} {A = B}
              (λ d. d ≡ w.db)
              (elim r.0 [ ok a ↦ pure (f a) r.1 | err e ↦ (err e, r.1) ])
      run w (ok a, w') q = tt
      run w (err e, w') q = q

  -- What follows fails only where the first part has left the rows as they were.
  pub Undone-check :
      {B : Type 0} {m : Query Db E A} (f : A → Query Db E B) (Q : Db → A → Db → Type 0)
      → Undone m
      → ((before : Db) → Ensures (λ d. d ≡ before) m (Q before))
      → ((before : Db) (a : A) (w : World Db) → Q before a w.db → OnErr (λ d. d ≡ before) (f a w))
      → Undone (m >>= f)
  unfolding ◌>>=◌
  Undone-check {B} {m} f Q k ensures checks = record {
    at = λ w. run w (m w) ((ensures w.db).at w refl) (k.at w);
  }
    where
      run :
          (w : World Db) (r : Result E A × World Db)
          → OnOk (Q w.db) r
          → OnErr (λ d. d ≡ w.db) r
          → OnErr {E = E} {A = B}
              (λ d. d ≡ w.db)
              (elim r.0 [ ok a ↦ f a r.1 | err e ↦ (err e, r.1) ])
      run w (ok a, w') q u = checks w.db a w' q
      run w (err e, w') q u = u

  pub Undone-next_id : {f : ℤ → Query Db E A} → ((id : ℤ) → Undone (f id)) → Undone (next_id >>= f)
  unfolding ◌>>=◌
  Undone-next_id {f} k = record {
    at = λ w. (k (w.ids w.drawn)).at (record w { drawn = ℕ.suc w.drawn });
  }

  pub Undone-transaction : (inj : Fault → E) (body : Query Db E A) → Undone (transaction inj body)
  Undone-transaction inj body = record {
    at = λ w. run w (transaction inj body w) λ e h. transaction_atomic inj body w e h;
  }
    where
      run :
          (w : World Db) (r : Result E A × World Db)
          → ((e : E) → r.0 ≡ err e → r.1.db ≡ w.db)
          → OnErr (λ d. d ≡ w.db) r
      run w (ok a, w') k = tt
      run w (err e, w') k = k e refl

-- A statement fails before it runs, or by itself.
pub Undone-statement :
    {Db A : Type 0} (run : Db → Result Fault A × Db)
    → ((d : Db) → (e : Fault) → (run d).0 ≡ err e → (run d).1 ≡ d)
    → Undone (statement run)
unfolding statement
Undone-statement {Db} {A} run k = record { at = λ w. answer w (next_fault w.faults) }
  where
    ran :
        (w : World Db) (w' : World Db) (r : Result Fault A × Db)
        → ((e : Fault) → r.0 ≡ err e → r.1 ≡ w.db)
        → OnErr (λ d. d ≡ w.db) (r.0, record w' { db = r.1 })
    ran w w' (ok a, d) h = tt
    ran w w' (err e, d) h = h e refl

    answer :
        (w : World Db) (o : Option Fault)
        → let w' = record w { faults = later_faults w.faults } in
          OnErr {E = Fault} {A = A}
            (λ d. d ≡ w.db)
            (elim o [
              | some f ↦ (err f, w')
              | none ↦ ((run w.db).0, record w' { db = (run w.db).1 })
            ])
    answer w (some f) = refl
    answer w none = ran w (record w { faults = later_faults w.faults }) (run w.db) (k w.db)

pub Undone-read : {Db A : Type 0} (f : Db → A) → Undone (read f)
unfolding read
Undone-read f = Undone-statement _ λ d e h. refl
