-- ===== src/Sql/Hoare/Always.antt =====
-- What every query keeps, whether it succeeds or not, and that a transaction that fails changes
-- nothing.
use mesh_cart.Base.{Bool, true, false, Option, none, some, ◌≡◌, refl, if◌then◌else◌, arith}
use mesh_cart.Sql.{
  Fault, Result, ok, err, World, Query, pure, raise, lift, ◌>>=◌, raise_if, or_raise, statement,
  next_fault, later_faults, map_err, attempt, row_or_fault, take_row, read, write, control,
  transaction, next_id,
}
use mesh_cart.Sql.Hoare.Success.{
  OnOk, Ensures, Ensures-bind, Ensures-map_err, Ensures-pure, Ensures-statement,
}

pub record Keeps {Db E A : Type 0} (P : Db → Type 0) (m : Query Db E A) : Type 0 where
  pub at : (w : World Db) → P w.db → P (m w).1.db

module _ {Db E : Type 0} {P : Db → Type 0} where
  pub Keeps-next_id : Keeps {E = E} P next_id
  unfolding next_id
  Keeps-next_id = record { at = λ w h. h }

module _ {Db A : Type 0} {P : Db → Type 0} where
  pub Keeps-statement :
      (run : Db → Result Fault A × Db) → ((d : Db) → P d → P (run d).1) → Keeps P (statement run)
  unfolding statement
  Keeps-statement run k = record { at = λ w h. answer w (next_fault w.faults) h }
    where
      answer :
          (w : World Db) (f : Option Fault)
          → P w.db
          → let w' = record w { faults = later_faults w.faults } in
            P
              (elim f as (λ _. Result Fault A × World Db) [
                | some g ↦ (err g, w')
                | none ↦ ((run w.db).0, record w' { db = (run w.db).1 })
              ]).1.db
      answer w (some g) h = h
      answer w none h = k w.db h

  pub Keeps-take_row : (f : Db → Option A) → Keeps P (take_row f)
  unfolding take_row
  Keeps-take_row f = Keeps-statement _ λ d h. found d (f d) h
    where
      found : (d : Db) (o : Option A) → P d → P (row_or_fault o d).1
      found d none h = h
      found d (some a) h = h

  pub Keeps-read : (f : Db → A) → Keeps P (read f)
  unfolding read
  Keeps-read f = Keeps-statement _ λ d h. h

module _ {Db : Type 0} {P : Db → Type 0} where
  pub Keeps-write : (f : Db → Db) → ((d : Db) → P d → P (f d)) → Keeps P (write f)
  unfolding write
  Keeps-write f k = Keeps-statement _ k

  Ensures-control : Ensures P control (λ _ d. P d)
  Ensures-control = Ensures-statement _ λ d h. h

module _ {Db E A : Type 0} {P : Db → Type 0} where
  pub Keeps-pure : (a : A) → Keeps {E = E} P (pure a)
  unfolding pure
  Keeps-pure a = record { at = λ w h. h }

  pub Keeps-raise : (e : E) → Keeps {A = A} P (raise e)
  unfolding raise
  Keeps-raise e = record { at = λ w h. h }

  pub Keeps-lift : (r : Result E A) → Keeps P (lift r)
  unfolding lift
  Keeps-lift r = record { at = λ w h. h }

  pub Keeps-bind :
      {B : Type 0} {m : Query Db E A} {f : A → Query Db E B}
      → Keeps P m
      → ((a : A) → Keeps P (f a))
      → Keeps P (m >>= f)
  unfolding ◌>>=◌
  Keeps-bind {B} {m} {f} km kf = record { at = λ w h. run (m w) (km.at w h) }
    where
      run :
          (r : Result E A × World Db)
          → P r.1.db
          → P
              (elim r.0 as (λ _. Result E B × World Db) [
                | ok a ↦ f a r.1
                | err e ↦ (err e, r.1)
              ]).1.db
      run (ok a, w) q = (kf a).at w q
      run (err e, w) q = q

  -- The rest may use that `r` is no error.
  pub Keeps-bind-lift :
      {B : Type 0} (r : Result E A) {f : A → Query Db E B}
      → ((a : A) → r ≡ ok a → Keeps P (f a))
      → Keeps P (lift r >>= f)
  unfolding ◌>>=◌
  Keeps-bind-lift (ok a) kf = kf a refl
  Keeps-bind-lift (err e) kf = record { at = λ w h. h }

  pub Keeps-bind-or_raise :
      {B : Type 0} (o : Option A) (e : E) {f : A → Query Db E B}
      → ((a : A) → o ≡ some a → Keeps P (f a))
      → Keeps P (or_raise o e >>= f)
  unfolding ◌>>=◌
  Keeps-bind-or_raise none e kf = record { at = λ w h. h }
  Keeps-bind-or_raise (some a) e kf = kf a refl

  pub Keeps-map_err :
      {F : Type 0} (h : E → F) {m : Query Db E A} → Keeps P m → Keeps P (map_err h m)
  unfolding map_err
  Keeps-map_err {F} h {m} k = record { at = λ w p. run (m w) (k.at w p) }
    where
      run :
          (r : Result E A × World Db)
          → P r.1.db
          → P
              (elim r.0 as (λ _. Result F A × World Db) [
                | ok a ↦ (ok a, r.1)
                | err e ↦ (err (h e), r.1)
              ]).1.db
      run (ok a, w) q = q
      run (err e, w) q = q

  pub Keeps-attempt : {F : Type 0} {m : Query Db E A} → Keeps P m → Keeps P (attempt {F = F} m)
  unfolding attempt
  Keeps-attempt k = record { at = λ w h. k.at w h }

  pub Keeps-or_raise : (o : Option A) (e : E) → Keeps P (or_raise o e)
  unfolding or_raise
  Keeps-or_raise none e = record { at = λ w h. h }
  Keeps-or_raise (some a) e = record { at = λ w h. h }

  pub Keeps-if :
      (c : Bool) {m n : Query Db E A} → Keeps P m → Keeps P n → Keeps P (if c then m else n)
  Keeps-if true km kn = km
  Keeps-if false km kn = kn

  -- The body may break `P` on the way, and where it fails.
  pub Keeps-transaction :
      (inj : Fault → E) {body : Query Db E A}
      → Ensures P body (λ _ d. P d)
      → Keeps P (transaction inj body)
  unfolding transaction
  Keeps-transaction inj {body} k = record { at = λ w h. run w h _ (whole.at w h) }
    where
      whole :
          Ensures P
            (map_err inj control >>= λ _. body >>= λ a. map_err inj control >>= λ _. pure a)
            (λ _ d. P d)
      whole =
          Ensures-bind (λ _ d. P d) (Ensures-map_err inj Ensures-control)
            λ _.
              Ensures-bind (λ _ d. P d) k
                λ a.
                  Ensures-bind (λ _ d. P d) (Ensures-map_err inj Ensures-control)
                    λ _. Ensures-pure a λ d h. h

      run :
          (w : World Db)
          → P w.db
          → (r : Result E A × World Db) → OnOk (λ _ d. P d) r
          → P
              (elim r.0 as (λ _. Result E A × World Db) [
                | ok a ↦ (ok a, r.1)
                | err e ↦ (err e, record r.1 { db = w.db })
              ]).1.db
      run w h (ok a, w') q = q
      run w h (err e, w') q = h

module _ {Db E : Type 0} {P : Db → Type 0} where
  pub Keeps-raise_if : (c : Bool) (e : E) → Keeps P (raise_if c e)
  unfolding raise_if
  Keeps-raise_if c e = record { at = λ w h. h }

-- A transaction that fails leaves the rows as they were.
pub transaction_atomic :
    {Db E A : Type 0} (inj : Fault → E) (body : Query Db E A) (w : World Db) (e : E)
    → (transaction inj body w).0 ≡ err e
    → (transaction inj body w).1.db ≡ w.db
unfolding transaction
transaction_atomic inj body w e h = ground arith

-- What is known of the result that `attempt` hands on.
pub Ensures-attempt :
    {Db E F A : Type 0} {P : Db → Type 0} (Q : Result E A → Db → Type 0) {m : Query Db E A}
    → Keeps P m
    → Ensures P m (λ a d. Q (ok a) d)
    → ((e : E) (d : Db) → P d → Q (err e) d)
    → Ensures {E = F} P (attempt m) Q
unfolding attempt
Ensures-attempt {Db} {E} {F} {A} {P} Q {m} keeps ensures failed = record {
  at = λ w p. run (m w) (keeps.at w p) (ensures.at w p);
}
  where
    run : (r : Result E A × World Db) → P r.1.db → OnOk (λ a d. Q (ok a) d) r → Q r.0 r.1.db
    run (ok a, w) p q = q
    run (err e, w) p q = failed e w.db p

pub Ensures-Keeps :
    {Db E A : Type 0} {P : Db → Type 0} {m : Query Db E A} → Keeps P m → Ensures P m (λ _. P)
Ensures-Keeps {Db} {E} {A} {P} {m} k = record { at = λ w h. run (m w) (k.at w h) }
  where
    run : (r : Result E A × World Db) → P r.1.db → OnOk (λ _. P) r
    run (ok a, w) p = p
    run (err e, w) p = tt
