-- ===== src/Sql/Hoare/Quiet.antt =====
-- Total correctness: what a query answers and leaves where the environment injects no fault.
use mathlib.Core.Path.{subst}
use mesh_cart.Base.{
  Bool, true, false, Option, none, some, List, [], ◌∷◌, ◌≡◌, refl, if◌then◌else◌, arith,
}
use mesh_cart.Sql.{
  Fault, Result, ok, err, World, Query, pure, ◌>>=◌, or_raise, statement, next_fault, later_faults,
  map_err, attempt, read, write, control, transaction,
}

-- The query has answered a value, and no fault is to come.
abbrev pub OnQuiet : {Db E A : Type 0} → (A → Db → Type 0) → Result E A × World Db → Type 0
OnQuiet Q (ok a, w) = Q a w.db × (w.faults ≡ [])
OnQuiet Q (err e, w) = ⊥

pub record Succeeds {Db E A : Type 0} (P : Db → Type 0) (m : Query Db E A) (Q : A → Db → Type 0)
    : Type 0 where
  pub at : (w : World Db) → w.faults ≡ [] → P w.db → OnQuiet Q (m w)

module _ {Db E A : Type 0} {P : Db → Type 0} where
  pub Succeeds-pure :
      {Q : A → Db → Type 0} (a : A) → ((d : Db) → P d → Q a d) → Succeeds {E = E} P (pure a) Q
  unfolding pure
  Succeeds-pure a k = record { at = λ w q h. (k w.db h, q) }

  pub Succeeds-weaken :
      {P' : Db → Type 0} {Q Q' : A → Db → Type 0} {m : Query Db E A}
      → ((d : Db) → P' d → P d)
      → ((a : A) (d : Db) → Q a d → Q' a d)
      → Succeeds P m Q
      → Succeeds P' m Q'
  Succeeds-weaken {P'} {Q} {Q'} {m} pre post k = record {
    at = λ w q h. run (m w) (k.at w q (pre w.db h));
  }
    where
      run : (r : Result E A × World Db) → OnQuiet Q r → OnQuiet Q' r
      run (ok a, w) (h, q) = (post a w.db h, q)
      run (err e, w) h = h

  pub Succeeds-given :
      {C : Type 0} {Q : A → Db → Type 0} {m : Query Db E A}
      → (C → Succeeds P m Q)
      → Succeeds (λ d. P d × C) m Q
  Succeeds-given k = record { at = λ w q (p, c). (k c).at w q p }

  pub Succeeds-bind :
      {B : Type 0} {R : B → Db → Type 0} (Q : A → Db → Type 0) {m : Query Db E A}
      {f : A → Query Db E B}
      → Succeeds P m Q
      → ((a : A) → Succeeds (Q a) (f a) R)
      → Succeeds P (m >>= f) R
  unfolding ◌>>=◌
  Succeeds-bind {B} {R} Q {m} {f} km kf = record { at = λ w q h. run (m w) (km.at w q h) }
    where
      run :
          (r : Result E A × World Db)
          → OnQuiet Q r
          → OnQuiet {E = E} R (elim r.0 [ ok a ↦ f a r.1 | err e ↦ (err e, r.1) ])
      run (ok a, w) (h, q) = (kf a).at w q h
      run (err e, w) h = h

  pub Succeeds-if :
      {Q : A → Db → Type 0} (c : Bool) {m n : Query Db E A}
      → (c ≡ true → Succeeds P m Q)
      → (c ≡ false → Succeeds P n Q)
      → Succeeds P (if c then m else n) Q
  Succeeds-if true km kn = km refl
  Succeeds-if false km kn = kn refl

  pub Succeeds-or_raise :
      {Q : A → Db → Type 0} (o : Option A) (e : E)
      → ((d : Db) → P d → (a : A) × (o ≡ some a) × Q a d)
      → Succeeds P (or_raise o e) Q
  unfolding or_raise
  Succeeds-or_raise {Q} none e k = record { at = λ w q h. absurd (missing (k w.db h)) }
    where
      missing : {C : A → Type 0} → (a : A) × (none ≡ some a) × C a → ⊥
      missing (a, no_way, c) = absurd (ground (arith, no_way))
  Succeeds-or_raise {Q} (some a) e k = record { at = λ w q h. (same w.db (k w.db h), q) }
    where
      same : (d : Db) → (b : A) × (some a ≡ some b) × Q b d → Q a d
      same d (b, e, h) = subst (λ x. Q x d) (ground (arith, e)) h

  pub Succeeds-map_err :
      {F : Type 0} {Q : A → Db → Type 0} (h : E → F) {m : Query Db E A}
      → Succeeds P m Q
      → Succeeds P (map_err h m) Q
  unfolding map_err
  Succeeds-map_err {F} {Q} h {m} k = record { at = λ w q p. run (m w) (k.at w q p) }
    where
      run :
          (r : Result E A × World Db)
          → OnQuiet Q r
          → OnQuiet {E = F} Q (elim r.0 [ ok a ↦ (ok a, r.1) | err e ↦ (err (h e), r.1) ])
      run (ok a, w) q = q
      run (err e, w) q = q

  pub Succeeds-attempt :
      {F : Type 0} (Q : Result E A → Db → Type 0) {m : Query Db E A}
      → Succeeds P m (λ a d. Q (ok a) d)
      → Succeeds {E = F} P (attempt m) Q
  unfolding attempt
  Succeeds-attempt {F} Q {m} k = record { at = λ w q p. run (m w) (k.at w q p) }
    where
      run :
          (r : Result E A × World Db)
          → OnQuiet (λ a d. Q (ok a) d) r
          → Q r.0 r.1.db × (r.1.faults ≡ [])
      run (ok a, w) h = h
      run (err e, w) h = absurd h

-- What a statement's run on the rows has to do.
abbrev pub OnQuietRows : {Db A : Type 0} → (A → Db → Type 0) → Result Fault A × Db → Type 0
OnQuietRows Q (ok a, d) = Q a d
OnQuietRows Q (err e, d) = ⊥

module _ {Db A : Type 0} {P : Db → Type 0} where
  pub Succeeds-statement :
      {Q : A → Db → Type 0} (run : Db → Result Fault A × Db)
      → ((d : Db) → P d → OnQuietRows Q (run d))
      → Succeeds P (statement run) Q
  unfolding statement
  Succeeds-statement {Q} run k = record { at = λ w q h. answer w w.faults q (k w.db h) }
    where
      ran :
          (w' : World Db)
          → w'.faults ≡ []
          → (r : Result Fault A × Db) → OnQuietRows Q r
          → OnQuiet Q (r.0, record w' { db = r.1 })
      ran w' q (ok a, d) h = (h, q)
      ran w' q (err e, d) h = h

      answer :
          (w : World Db) (fs : List (Option Fault))
          → fs ≡ []
          → OnQuietRows Q (run w.db)
          → let w' = record w { faults = later_faults fs } in
            OnQuiet {E = Fault} Q (elim (next_fault fs) [
              | some g ↦ (err g, w')
              | none ↦ ((run w.db).0, record w' { db = (run w.db).1 })
            ])
      answer w [] q h = ran (record w { faults = [] }) refl (run w.db) h
      answer w (f ∷ fs) q h = absurd (ground (arith, q))

  pub Succeeds-read :
      {Q : A → Db → Type 0} (f : Db → A) → ((d : Db) → P d → Q (f d) d) → Succeeds P (read f) Q
  unfolding read
  Succeeds-read f k = Succeeds-statement _ k

module _ {Db : Type 0} {P : Db → Type 0} where
  pub Succeeds-write :
      {Q : Unit {0} → Db → Type 0} (f : Db → Db)
      → ((d : Db) → P d → Q tt (f d))
      → Succeeds P (write f) Q
  unfolding write
  Succeeds-write f k = Succeeds-statement _ k

  Succeeds-control : Succeeds P control (λ _ d. P d)
  Succeeds-control = Succeeds-statement _ λ d h. h

pub Succeeds-transaction :
    {Db E A : Type 0} {P : Db → Type 0} {Q : A → Db → Type 0} (inj : Fault → E)
    {body : Query Db E A}
    → Succeeds P body Q
    → Succeeds P (transaction inj body) Q
unfolding transaction
Succeeds-transaction {Db} {E} {A} {P} {Q} inj {body} k = record {
  at = λ w q h. run w _ (whole.at w q h);
}
  where
    whole :
        Succeeds P
          (map_err inj control >>= λ _. body >>= λ a. map_err inj control >>= λ _. pure a)
          Q
    whole =
        Succeeds-bind (λ _ d. P d) (Succeeds-map_err inj Succeeds-control)
          λ _. Succeeds-bind Q k λ a.
            Succeeds-bind (λ _ d. Q a d) (Succeeds-map_err inj Succeeds-control)
              λ _. Succeeds-pure a λ d h. h

    run :
        (w : World Db) (r : Result E A × World Db)
        → OnQuiet Q r
        → OnQuiet {E = E} Q
            (elim r.0 [ ok a ↦ (ok a, r.1) | err e ↦ (err e, record r.1 { db = w.db }) ])
    run w (ok a, w') h = h
    run w (err e, w') h = h
