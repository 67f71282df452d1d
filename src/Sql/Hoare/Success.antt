-- ===== src/Sql/Hoare/Success.antt =====
-- What holds of the rows after a query that succeeds.
use mesh_cart.Base.{Bool, true, false, Option, none, some, ◌≡◌, refl, if◌then◌else◌}
use mesh_cart.Base.Int.{ℤ}
use mesh_cart.Sql.{
  Fault, Result, ok, err, World, Query, pure, raise, lift, ◌>>=◌, raise_if, or_raise, statement,
  next_fault, later_faults, map_err, row_or_fault, take_row, read, write, control, transaction,
  next_id,
}

abbrev pub OnOk : {Db E A : Type 0} → (A → Db → Type 0) → Result E A × World Db → Type 0
OnOk Q (ok a, w) = Q a w.db
OnOk Q (err e, w) = Unit

pub record Ensures {Db E A : Type 0} (P : Db → Type 0) (m : Query Db E A) (Q : A → Db → Type 0)
    : Type 0 where
  pub at : (w : World Db) → P w.db → OnOk Q (m w)

module _ {Db E A : Type 0} {P : Db → Type 0} where
  pub Ensures-pure :
      {Q : A → Db → Type 0} (a : A) → ((d : Db) → P d → Q a d) → Ensures {E = E} P (pure a) Q
  unfolding pure
  Ensures-pure a k = record { at = λ w h. k w.db h }

  pub Ensures-raise : {Q : A → Db → Type 0} (e : E) → Ensures P (raise e) Q
  unfolding raise
  Ensures-raise e = record { at = λ w h. tt }

  -- Strengthen what is assumed, weaken what is claimed.
  pub Ensures-weaken :
      {P' : Db → Type 0} {Q Q' : A → Db → Type 0} {m : Query Db E A}
      → ((d : Db) → P' d → P d)
      → ((a : A) (d : Db) → Q a d → Q' a d)
      → Ensures P m Q
      → Ensures P' m Q'
  Ensures-weaken {P'} {Q} {Q'} {m} pre post k = record {
    at = λ w h. run (m w) (k.at w (pre w.db h));
  }
    where
      run : (r : Result E A × World Db) → OnOk Q r → OnOk Q' r
      run (ok a, w) q = post a w.db q
      run (err e, w) q = tt

  -- A fact that is not about the rows.
  pub Ensures-given :
      {C : Type 0} {Q : A → Db → Type 0} {m : Query Db E A}
      → (C → Ensures P m Q)
      → Ensures (λ d. P d × C) m Q
  Ensures-given k = record { at = λ w (p, c). (k c).at w p }

  pub Ensures-bind :
      {B : Type 0} {R : B → Db → Type 0} (Q : A → Db → Type 0) {m : Query Db E A}
      {f : A → Query Db E B}
      → Ensures P m Q
      → ((a : A) → Ensures (Q a) (f a) R)
      → Ensures P (m >>= f) R
  unfolding ◌>>=◌
  Ensures-bind {B} {R} Q {m} {f} km kf = record { at = λ w h. run (m w) (km.at w h) }
    where
      run :
          (r : Result E A × World Db)
          → OnOk Q r
          → OnOk {E = E} R (elim r.0 [ ok a ↦ f a r.1 | err e ↦ (err e, r.1) ])
      run (ok a, w) q = (kf a).at w q
      run (err e, w) q = tt

  pub Ensures-if :
      {Q : A → Db → Type 0} (c : Bool) {m n : Query Db E A}
      → (c ≡ true → Ensures P m Q)
      → (c ≡ false → Ensures P n Q)
      → Ensures P (if c then m else n) Q
  Ensures-if true km kn = km refl
  Ensures-if false km kn = kn refl

  pub Ensures-or_raise :
      (o : Option A) (e : E) → Ensures P (or_raise o e) (λ a d. P d × (o ≡ some a))
  unfolding or_raise
  Ensures-or_raise none e = record { at = λ w h. tt }
  Ensures-or_raise (some a) e = record { at = λ w h. (h, refl) }

  pub Ensures-map_err :
      {F : Type 0} {Q : A → Db → Type 0} (h : E → F) {m : Query Db E A}
      → Ensures P m Q
      → Ensures P (map_err h m) Q
  unfolding map_err
  Ensures-map_err {F} {Q} h {m} k = record { at = λ w p. run (m w) (k.at w p) }
    where
      run :
          (r : Result E A × World Db)
          → OnOk Q r
          → OnOk {E = F} Q (elim r.0 [ ok a ↦ (ok a, r.1) | err e ↦ (err (h e), r.1) ])
      run (ok a, w) q = q
      run (err e, w) q = tt

module _ {Db E : Type 0} {P : Db → Type 0} where
  pub Ensures-raise_if : (c : Bool) (e : E) → Ensures P (raise_if c e) (λ _ d. P d × (c ≡ false))
  unfolding raise_if
  Ensures-raise_if true e = record { at = λ w h. tt }
  Ensures-raise_if false e = record { at = λ w h. (h, refl) }

  pub Ensures-next_id : Ensures {E = E} P next_id (λ _ d. P d)
  unfolding next_id
  Ensures-next_id = record { at = λ w h. h }

  pub Ensures-any_id :
      {Q : ℤ → Db → Type 0} → ((d : Db) → P d → (id : ℤ) → Q id d) → Ensures {E = E} P next_id Q
  unfolding next_id
  Ensures-any_id k = record { at = λ w h. k w.db h (w.ids w.drawn) }

-- What a statement's run on the rows has to do.
abbrev pub OnRows : {Db A : Type 0} → (A → Db → Type 0) → Result Fault A × Db → Type 0
OnRows Q (ok a, d) = Q a d
OnRows Q (err e, d) = Unit

module _ {Db A : Type 0} {P : Db → Type 0} where
  pub Ensures-statement :
      {Q : A → Db → Type 0} (run : Db → Result Fault A × Db)
      → ((d : Db) → P d → OnRows Q (run d))
      → Ensures P (statement run) Q
  unfolding statement
  Ensures-statement {Q} run k = record { at = λ w h. answer w (next_fault w.faults) h }
    where
      ran :
          (w' : World Db) (r : Result Fault A × Db)
          → OnRows Q r
          → OnOk Q (r.0, record w' { db = r.1 })
      ran w' (ok a, d) q = q
      ran w' (err e, d) q = tt

      answer :
          (w : World Db) (f : Option Fault)
          → P w.db
          → let w' = record w { faults = later_faults w.faults } in
            OnOk {E = Fault} Q (elim f [
              | some g ↦ (err g, w')
              | none ↦ ((run w.db).0, record w' { db = (run w.db).1 })
            ])
      answer w (some g) h = tt
      answer w none h = ran (record w { faults = later_faults w.faults }) (run w.db) (k w.db h)

  pub Ensures-read :
      {Q : A → Db → Type 0} (f : Db → A) → ((d : Db) → P d → Q (f d) d) → Ensures P (read f) Q
  unfolding read
  Ensures-read f k = Ensures-statement _ k

  pub Ensures-take_row : (f : Db → Option A) → Ensures P (take_row f) (λ a d. P d × (f d ≡ some a))
  unfolding take_row
  Ensures-take_row f = Ensures-statement _ λ d h. found d (f d) refl h
    where
      found :
          (d : Db) (o : Option A)
          → f d ≡ o
          → P d
          → OnRows (λ a d. P d × (f d ≡ some a)) (row_or_fault o d)
      found d none e h = tt
      found d (some a) e h = (h, e)

module _ {Db : Type 0} {P : Db → Type 0} where
  pub Ensures-write :
      {Q : Unit {0} → Db → Type 0} (f : Db → Db)
      → ((d : Db) → P d → Q tt (f d))
      → Ensures P (write f) Q
  unfolding write
  Ensures-write f k = Ensures-statement _ k

  Ensures-control : Ensures P control (λ _ d. P d)
  Ensures-control = Ensures-statement _ λ d h. h

-- What the body ensures holds after a transaction that succeeds.
pub Ensures-transaction :
    {Db E A : Type 0} {P : Db → Type 0} {Q : A → Db → Type 0} (inj : Fault → E)
    {body : Query Db E A}
    → Ensures P body Q
    → Ensures P (transaction inj body) Q
unfolding transaction
Ensures-transaction {Db} {E} {A} {P} {Q} inj {body} k = record {
  at = λ w h. run w _ (whole.at w h);
}
  where
    whole :
        Ensures P (map_err inj control >>= λ _. body >>= λ a. map_err inj control >>= λ _. pure a) Q
    whole =
        Ensures-bind (λ _ d. P d) (Ensures-map_err inj Ensures-control)
          λ _. Ensures-bind Q k λ a.
            Ensures-bind (λ _ d. Q a d) (Ensures-map_err inj Ensures-control)
              λ _. Ensures-pure a λ d h. h

    run :
        (w : World Db) (r : Result E A × World Db)
        → OnOk Q r
        → OnOk {E = E} Q
            (elim r.0 [ ok a ↦ (ok a, r.1) | err e ↦ (err e, record r.1 { db = w.db }) ])
    run w (ok a, w') q = q
    run w (err e, w') q = tt

module _ {Db E A : Type 0} {P : Db → Type 0} where
  pub Ensures-bind-lift :
      {B : Type 0} {Q : B → Db → Type 0} (r : Result E A) {f : A → Query Db E B}
      → ((a : A) → r ≡ ok a → Ensures P (f a) Q)
      → Ensures P (lift r >>= f) Q
  unfolding ◌>>=◌
  Ensures-bind-lift (ok a) kf = kf a refl
  Ensures-bind-lift (err e) kf = record { at = λ w h. tt }

  pub Ensures-both :
      {Q R : A → Db → Type 0} {m : Query Db E A}
      → Ensures P m Q
      → Ensures P m R
      → Ensures P m (λ a d. Q a d × R a d)
  Ensures-both {Q} {R} {m} j k = record { at = λ w h. run (m w) (j.at w h) (k.at w h) }
    where
      run : (r : Result E A × World Db) → OnOk Q r → OnOk R r → OnOk (λ a d. Q a d × R a d) r
      run (ok a, w) q r = (q, r)
      run (err e, w) q r = tt

  -- What is ensured of each `x` is ensured of all at once.
  pub Ensures-all :
      {X : Type 0} {Q : X → A → Db → Type 0} {m : Query Db E A}
      → ((x : X) → Ensures P m (Q x))
      → Ensures P m (λ a d. (x : X) → Q x a d)
  Ensures-all {X} {Q} {m} k = record { at = λ w h. run (m w) λ x. (k x).at w h }
    where
      run :
          (r : Result E A × World Db) → ((x : X) → OnOk (Q x) r) → OnOk (λ a d. (x : X) → Q x a d) r
      run (ok a, w) q = q
      run (err e, w) q = tt
