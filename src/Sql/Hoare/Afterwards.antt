-- ===== src/Sql/Hoare/Afterwards.antt =====
-- What holds of the rows after a query, whether it succeeds or not.
use mathlib.Core.Path.{subst}
use mesh_cart.Base.{Bool, true, false, Option, none, some, ◌≡◌, refl, sym, if◌then◌else◌}
use mesh_cart.Sql.{
  Fault, Result, ok, err, World, Query, lift, ◌>>=◌, attempt, transaction, write, map_err,
  next_fault, later_faults,
}
use mesh_cart.Sql.Hoare.Success.{OnOk, Ensures, Ensures-transaction}
use mesh_cart.Sql.Hoare.Always.{Keeps, transaction_atomic}

-- What holds of the rows afterwards, whether the query succeeds or not.
pub record Leaves {Db E A : Type 0} (P : Db → Type 0) (m : Query Db E A) (Q : Db → Type 0)
    : Type 0 where
  pub at : (w : World Db) → P w.db → Q (m w).1.db

module _ {Db E A : Type 0} {P Q : Db → Type 0} where
  pub Leaves-Keeps :
      {m : Query Db E A}
      → (R : Db → Type 0) → ((d : Db) → P d → R d)
      → ((d : Db) → R d → Q d)
      → Keeps R m
      → Leaves P m Q
  Leaves-Keeps R pre post k = record { at = λ w p. post _ (k.at w (pre _ p)) }

  pub Leaves-if :
      (c : Bool) {m n : Query Db E A}
      → Leaves P m Q
      → Leaves P n Q
      → Leaves P (if c then m else n) Q
  Leaves-if true km kn = km
  Leaves-if false km kn = kn

  -- A query that changes nothing, and the rest, which may use its answer.
  pub Leaves-bind :
      {B : Type 0} {R : A → Db → Type 0} {m : Query Db E A} {f : A → Query Db E B}
      → Keeps P m
      → ((d : Db) → P d → Q d)
      → Ensures P m R
      → ((a : A) → Leaves (R a) (f a) Q)
      → Leaves P (m >>= f) Q
  unfolding ◌>>=◌
  Leaves-bind {B} {R} {m} {f} keeps post ensures rest = record {
    at = λ w p. run (m w) (post _ (keeps.at w p)) (ensures.at w p);
  }
    where
      run :
          (r : Result E A × World Db)
          → Q r.1.db
          → OnOk R r
          → Q
              (elim r.0 as (λ _. Result E B × World Db) [
                | ok a ↦ f a r.1
                | err e ↦ (err e, r.1)
              ]).1.db
      run (ok a, w) q h = (rest a).at w h
      run (err e, w) q h = q

  -- A result that is known before any statement runs.
  pub Leaves-bind-lift :
      {B : Type 0} (r : Result E A) {f : A → Query Db E B}
      → ((d : Db) → P d → Q d)
      → ((a : A) → r ≡ ok a → Leaves P (f a) Q)
      → Leaves P (lift r >>= f) Q
  unfolding ◌>>=◌
  Leaves-bind-lift (ok a) post rest = rest a refl
  Leaves-bind-lift (err e) post rest = record { at = λ w p. post w.db p }

  pub Leaves-given :
      {C : Type 0} {m : Query Db E A} → (C → Leaves P m Q) → Leaves (λ d. P d × C) m Q
  Leaves-given k = record { at = λ w (p, c). (k c).at w p }

module _ {Db E A : Type 0} {P Q : Db → Type 0} where
  -- A transaction that fails leaves what was there, and one that succeeds what its body ensures.
  pub Leaves-transaction :
      (inj : Fault → E) {body : Query Db E A}
      → ((d : Db) → P d → Q d)
      → Ensures P body (λ _. Q)
      → Leaves P (transaction inj body) Q
  Leaves-transaction inj {body} pre k = record {
    at = λ w p.
        run w.db (transaction inj body w) ((Ensures-transaction inj k).at w p)
          (transaction_atomic inj body w) (pre w.db p);
  }
    where
      run :
          (d : Db) (r : Result E A × World Db)
          → OnOk (λ _. Q) r
          → ((e : E) → r.0 ≡ err e → r.1.db ≡ d)
          → Q d
          → Q r.1.db
      run d (ok a, w) q same h = q
      run d (err e, w) q same h = subst Q (sym (same e refl)) h

  -- What is left is kept by the rest.
  pub Leaves-then :
      {B : Type 0} {m : Query Db E A} {f : A → Query Db E B}
      → Leaves P m Q
      → ((a : A) → Keeps Q (f a))
      → Leaves P (m >>= f) Q
  unfolding ◌>>=◌
  Leaves-then {B} {m} {f} left rest = record { at = λ w p. run (m w) (left.at w p) }
    where
      run :
          (r : Result E A × World Db)
          → Q r.1.db
          → Q
              (elim r.0 as (λ _. Result E B × World Db) [
                | ok a ↦ f a r.1
                | err e ↦ (err e, r.1)
              ]).1.db
      run (ok a, w) q = (rest a).at w q
      run (err e, w) q = q

  pub Leaves-attempt :
      {F : Type 0} {m : Query Db E A} → Leaves P m Q → Leaves P (attempt {F = F} m) Q
  unfolding attempt
  Leaves-attempt k = record { at = λ w p. k.at w p }

pub Keeps-Leaves : {Db E A : Type 0} {P : Db → Type 0} {m : Query Db E A} → Leaves P m P → Keeps P m
Keeps-Leaves k = record { at = λ w p. k.at w p }

module _ {Db : Type 0} {P Q : Db → Type 0} where
  -- A write that may fail.
  pub Leaves-write :
      (f : Db → Db) → ((d : Db) → P d → Q d) → ((d : Db) → P d → Q (f d)) → Leaves P (write f) Q
  unfolding write
  Leaves-write f stay done = record { at = λ w p. answer w (next_fault w.faults) p }
    where
      answer :
          (w : World Db) (g : Option Fault)
          → P w.db
          → let w' = record w { faults = later_faults w.faults } in
            Q
              (elim g as (λ _. Result Fault Unit × World Db) [
                | some e ↦ (err e, w')
                | none ↦ (ok tt, record w' { db = f w.db })
              ]).1.db
      answer w (some e) p = stay w.db p
      answer w none p = done w.db p

module _ {Db E A : Type 0} {P Q : Db → Type 0} where
  pub Leaves-map_err :
      {F : Type 0} (h : E → F) {m : Query Db E A} → Leaves P m Q → Leaves P (map_err h m) Q
  unfolding map_err
  Leaves-map_err {F} h {m} k = record { at = λ w p. run (m w) (k.at w p) }
    where
      run :
          (r : Result E A × World Db)
          → Q r.1.db
          → Q
              (elim r.0 as (λ _. Result F A × World Db) [
                | ok a ↦ (ok a, r.1)
                | err e ↦ (err (h e), r.1)
              ]).1.db
      run (ok a, w) q = q
      run (err e, w) q = q

  -- What is left in any case is enough for the rest.
  pub Leaves-seq :
      {B : Type 0} {R : Db → Type 0} {F : Type 0} {m : Query Db E A} {f : Result E A → Query Db F B}
      → Leaves P m R
      → ((r : Result E A) → Leaves R (f r) Q)
      → Leaves P (attempt m >>= f) Q
  unfolding ◌>>=◌ attempt
  Leaves-seq {R = R} {m = m} {f = f} left rest = record { at = λ w p. run (m w) (left.at w p) }
    where
      run : (r : Result E A × World Db) → R r.1.db → Q (f r.0 r.1).1.db
      run (a, w) h = (rest a).at w h
