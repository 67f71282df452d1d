-- ===== src/Payment/Repeats.antt =====
-- What the payment service makes of a request whose key is on record.
pub mod Requests
pub mod Stuck
use mathlib.Core.Path.{subst}
use mesh_cart.Base.{
  ◌≡◌, refl, sym, ap, ◌∙◌, String, List, [], ◌∷◌, ◌++◌, Bool, true, false, Option, none, some, ◌||◌,
  if◌then◌else◌, arith,
}
use mesh_cart.Base.Int.{ℤ, eq_ℤ}
use mesh_cart.Base.Lists.{any, find}
use mesh_cart.Base.Rows.{any-find, find-true}
use mesh_cart.Base.Text.{trim_space, is_blank}
use mesh_cart.Sql.{Fault, Result, ok, err, duplicate_key, ◌>>=◌}
use mesh_cart.Sql.Hoare.{
  Leaves, Leaves-bind, Leaves-given, Leaves-Keeps, Leaves-then, Ensures-Keeps, OnRows, Ensures,
  Ensures-bind, Ensures-if, Ensures-pure, Ensures-raise, Ensures-map_err, Ensures-statement,
  Ensures-raise_if, Ensures-weaken, Ensures-given, Ensures-attempt, Ensures-take_row, Keeps,
  Keeps-pure, Keeps-raise, Keeps-bind, Keeps-if, Keeps-map_err, Keeps-statement, Keeps-raise_if,
  Keeps-take_row, Keeps-next_id, Keeps-attempt,
}
use mesh_cart.Payment.Model.{PaymentActionRecord, PaymentDb}
use mesh_cart.Payment.Errors.{
  PaymentError, payment_missing, invalid_payment, payment_conflicts, active_payment_exists,
  action_record_not_found, action_record_exists, driver,
}
use mesh_cart.Payment.Tables.{is_action, insert_action}
use mesh_cart.Payment.Actions.{get_action_record, create_action_record}
use mesh_cart.Payment.Payments.{get_by_payment_id}
use mesh_cart.Payment.Service.{Handler, RpcPayment}
use mesh_cart.Payment.Service.Records.{
  found_action, find_action_record, reuse_existing, created_or_existing,
  create_pending_action_record, load_payment_by_action_record, answer_loaded, or_else,
  pending_record,
}

module _ {S : Type 0} (t k : String) (known : PaymentActionRecord) (before : PaymentDb S)
    (on_record : find (is_action t k) before.action_records ≡ some known) where
  abbrev pub Same : PaymentDb S → Type 0
  Same d = d ≡ before

  -- Nothing was found, or the record.
  abbrev pub IsKnown : Option PaymentActionRecord → Type 0
  IsKnown none = Unit
  IsKnown (some r) = r ≡ known

  abbrev Found : Result PaymentError PaymentActionRecord → PaymentDb S → Type 0
  Found (ok r) d = Same d × (r ≡ known)
  Found (err e) d = Same d

  pub looked-Same : Keeps Same (find_action_record t k)
  unfolding find_action_record get_action_record
  looked-Same = Keeps-bind (Keeps-attempt (Keeps-map_err _ (Keeps-take_row _))) found
    where
      found : (r : Result PaymentError PaymentActionRecord) → Keeps Same (found_action r)
      found (ok r) = Keeps-pure _
      found (err action_record_not_found) = Keeps-pure _
      found (err payment_missing) = Keeps-raise _
      found (err invalid_payment) = Keeps-raise _
      found (err payment_conflicts) = Keeps-raise _
      found (err active_payment_exists) = Keeps-raise _
      found (err action_record_exists) = Keeps-raise _
      found (err (driver f)) = Keeps-raise _

  pub looked-IsKnown : Ensures Same (find_action_record t k) (λ o d. Same d × IsKnown o)
  unfolding find_action_record get_action_record
  looked-IsKnown =
      Ensures-bind Found
        (Ensures-attempt Found (Keeps-map_err _ (Keeps-take_row _))
          (Ensures-weaken (λ d h. h) (λ r d (h, e). (h, is_it r d h e))
            (Ensures-map_err _ (Ensures-take_row _)))
          (λ e d h. h))
        found
    where
      is_it :
          (r : PaymentActionRecord) (d : PaymentDb S)
          → Same d
          → find (is_action t k) d.action_records ≡ some r
          → r ≡ known
      is_it r d h e =
          let there = subst (λ x. find (is_action t k) x.action_records ≡ some r) h e in
          ground (arith, there, on_record)

      found :
          (r : Result PaymentError PaymentActionRecord)
          → Ensures (Found r) (found_action r) (λ o d. Same d × IsKnown o)
      found (ok r) = Ensures-pure _ λ d h. h
      found (err action_record_not_found) = Ensures-pure _ λ d h. (h, tt)
      found (err payment_missing) = Ensures-raise _
      found (err invalid_payment) = Ensures-raise _
      found (err payment_conflicts) = Ensures-raise _
      found (err active_payment_exists) = Ensures-raise _
      found (err action_record_exists) = Ensures-raise _
      found (err (driver f)) = Ensures-raise _

  abbrev clashes : ℤ → PaymentActionRecord → Bool
  clashes id r = eq_ℤ r.id id || is_action t k r

  taken : (id : ℤ) (d : PaymentDb S) → Same d → any (clashes id) d.action_records ≡ true
  taken id d h =
      ap (λ e. any (clashes id) e.action_records) h
      ∙ any-find (clashes id) (is_action t k) before.action_records known on_record hit
    where
      hit : clashes id known ≡ true
      hit =
          let picked = find-true (is_action t k) before.action_records known on_record in
          ground arith

  module _ (id payment_id order_id : ℤ) where
    abbrev mine : PaymentActionRecord
    mine = pending_record id t k payment_id order_id

    clash-Same : Keeps Same (insert_action mine)
    unfolding insert_action
    clash-Same =
        Keeps-statement _ λ d h. stored d h (any (clashes id) d.action_records) (taken id d h)
      where
        stored :
            (d : PaymentDb S)
            → Same d
            → (c : Bool) → c ≡ true
            → Same
                (if◌then◌else◌ {A = Result Fault Unit × PaymentDb S} c
                  (err duplicate_key, d)
                  (ok tt, record d { action_records = d.action_records ++ mine ∷ [] })).1
        stored d h true e = h
        stored d h false e = absurd (ground arith)

    clash_fails : Ensures Same (insert_action mine) (λ _ _. ⊥)
    unfolding insert_action
    clash_fails =
        Ensures-statement _ λ d h. stored d (any (clashes id) d.action_records) (taken id d h)
      where
        stored :
            (d : PaymentDb S) (c : Bool)
            → c ≡ true
            → OnRows
                (λ _ _. ⊥)
                (if c
                  then (err duplicate_key, d)
                  else (ok tt, record d { action_records = d.action_records ++ mine ∷ [] }))
        stored d true e = tt
        stored d false e = absurd (ground arith)

    created-Same : Keeps Same (create_action_record mine)
    unfolding create_action_record
    created-Same = Keeps-bind (Keeps-raise_if _ _) λ _. Keeps-map_err _ clash-Same

    creation_fails : Ensures Same (create_action_record mine) (λ _ _. ⊥)
    unfolding create_action_record
    creation_fails =
        Ensures-bind (λ _. Same) (Ensures-weaken (λ d h. h) (λ _ d h. h.0) (Ensures-raise_if _ _))
          λ _. Ensures-map_err _ clash_fails

    reuse-Same : (o : Option PaymentActionRecord) → Keeps Same (reuse_existing o)
    unfolding reuse_existing
    reuse-Same none = Keeps-raise _
    reuse-Same (some r) = Keeps-pure _

    reuse_known :
        (o : Option PaymentActionRecord)
        → IsKnown o
        → Ensures Same (reuse_existing o) (λ p d. Same d × (p ≡ some known))
    unfolding reuse_existing
    reuse_known none h = Ensures-raise _
    reuse_known (some r) h = Ensures-pure _ λ d s. (s, ap some h)

    existing-Same : (o : Result PaymentError Unit) → Keeps Same (created_or_existing mine o)
    unfolding created_or_existing
    existing-Same (ok _) = Keeps-pure _
    existing-Same (err action_record_exists) = Keeps-bind looked-Same reuse-Same
    existing-Same (err payment_missing) = Keeps-raise _
    existing-Same (err invalid_payment) = Keeps-raise _
    existing-Same (err payment_conflicts) = Keeps-raise _
    existing-Same (err active_payment_exists) = Keeps-raise _
    existing-Same (err action_record_not_found) = Keeps-raise _
    existing-Same (err (driver f)) = Keeps-raise _

    abbrev Failed : Result PaymentError Unit → PaymentDb S → Type 0
    Failed (ok _) d = ⊥
    Failed (err e) d = Same d

    existing_known :
        (o : Result PaymentError Unit)
        → Ensures (Failed o) (created_or_existing mine o) (λ p d. Same d × (p ≡ some known))
    unfolding created_or_existing
    existing_known (ok _) = Ensures-pure _ λ d h. absurd h
    existing_known (err action_record_exists) =
        Ensures-bind (λ o d. Same d × IsKnown o) looked-IsKnown
          λ o. Ensures-given λ h. reuse_known o h
    existing_known (err payment_missing) = Ensures-raise _
    existing_known (err invalid_payment) = Ensures-raise _
    existing_known (err payment_conflicts) = Ensures-raise _
    existing_known (err active_payment_exists) = Ensures-raise _
    existing_known (err action_record_not_found) = Ensures-raise _
    existing_known (err (driver f)) = Ensures-raise _

  module _ (payment_id order_id : ℤ) (filled : is_blank (trim_space k) ≡ false) where
    pub pending-Same : Keeps Same (create_pending_action_record t k payment_id order_id)
    unfolding create_pending_action_record
    pending-Same = Keeps-if _ (Keeps-pure _) (
        Keeps-bind Keeps-next_id λ id.
          Keeps-bind (Keeps-attempt (created-Same id payment_id order_id))
            (existing-Same id payment_id order_id))

    -- The record of the other request is handed on.
    pub pending_known :
        Ensures Same
          (create_pending_action_record t k payment_id order_id)
          (λ o d. Same d × (o ≡ some known))
    unfolding create_pending_action_record
    pending_known =
        Ensures-if (is_blank (trim_space k)) (λ e. absurd (ground arith))
          λ _.
            Ensures-bind (λ _. Same) (Ensures-Keeps Keeps-next_id)
              λ id.
                Ensures-bind (Failed id payment_id order_id)
                  (Ensures-attempt (Failed id payment_id order_id)
                    (created-Same id payment_id order_id)
                    (Ensures-weaken (λ d h. h) (λ _ d no_way. absurd no_way)
                      (creation_fails id payment_id order_id))
                    (λ e d h. h))
                  (existing_known id payment_id order_id)

  pub answer-Same : (r : PaymentActionRecord) → Keeps Same (answer_loaded r)
  unfolding answer_loaded load_payment_by_action_record get_by_payment_id
  answer-Same r =
      Keeps-bind
        (Keeps-if _ (Keeps-raise _)
          (Keeps-bind (Keeps-map_err _ (Keeps-map_err _ (Keeps-take_row _))) λ _. Keeps-pure _))
        λ _. Keeps-pure _

  abbrev pub IsSome : {A : Type 0} → Option A → Type 0
  IsSome none = ⊥
  IsSome (some a) = Unit

  pub answer-IsSome :
      (r : PaymentActionRecord) → Ensures Same (answer_loaded r) (λ o d. Same d × IsSome o)
  unfolding answer_loaded load_payment_by_action_record get_by_payment_id
  answer-IsSome r =
      Ensures-bind (λ _. Same)
        (Ensures-Keeps (
          Keeps-if _ (Keeps-raise _)
            (Keeps-bind (Keeps-map_err _ (Keeps-map_err _ (Keeps-take_row _))) λ _. Keeps-pure _)))
        λ p. Ensures-pure _ λ d h. (h, tt)

  or_else-Same :
      (o : Option RpcPayment) {go : Handler S RpcPayment}
      → Leaves Same go Same
      → Leaves Same (or_else o go) Same
  unfolding or_else
  or_else-Same none k = k
  or_else-Same (some p) k = Leaves-Keeps Same (λ d h. h) (λ d h. h) (Keeps-pure _)

  answered-Same :
      (o : Option RpcPayment) (go : Handler S RpcPayment)
      → IsSome o
      → Leaves Same (or_else o go) Same
  unfolding or_else
  answered-Same none go h = absurd h
  answered-Same (some p) go h = Leaves-Keeps Same (λ d h. h) (λ d h. h) (Keeps-pure _)

  -- What each handler does once it has its key, where the record that it meets answers.
  pub keyed_Leaves :
      (payment_id order_id : ℤ)
      → is_blank (trim_space k) ≡ false
      → (found met : Option PaymentActionRecord → Handler S (Option RpcPayment))
      → (go : Handler S RpcPayment) → Keeps Same (found none)
      → Keeps Same (found (some known))
      → Keeps Same (met (some known))
      → Ensures Same (met (some known)) (λ o d. Same d × IsSome o)
      → Leaves Same
          (find_action_record t k >>= λ existing. found existing >>= λ answer. or_else answer (
            create_pending_action_record t k payment_id order_id >>= λ m.
            met m >>= λ again. or_else again go))
          Same
  keyed_Leaves payment_id order_id filled found met go nothing looked kept answers =
      Leaves-bind looked-Same (λ d h. h) looked-IsKnown
        λ o. Leaves-given λ h.
          Leaves-bind (by_known o h) (λ d h. h) (Ensures-Keeps (by_known o h))
            λ answer. or_else-Same answer (
              Leaves-bind (pending-Same payment_id order_id filled) (λ d h. h)
                (pending_known payment_id order_id filled)
                λ m. Leaves-given λ e.
                  subst (λ m. Leaves Same (met m >>= λ again. or_else again go) Same) (sym e)
                    (Leaves-bind kept (λ d h. h) answers
                      λ again. Leaves-given λ s. answered-Same again go s))
    where
      by_known : (o : Option PaymentActionRecord) → IsKnown o → Keeps Same (found o)
      by_known none h = nothing
      by_known (some r) h = subst (λ x. Keeps Same (found (some x))) (sym h) looked
