-- ===== src/Payment/Invariant/Changes.antt =====
-- The transition to success, the creation of a payment and the records of actions keep the promises,
-- whatever fails on the way.
use mathlib.Core.Path.{subst}
use mesh_cart.Base.{
  ◌≡◌, refl, sym, ap, ◌∙◌, String, List, [], ◌∷◌, ◌++◌, Bool, true, false, Option, none, some, inl,
  inr, ◌||◌, if◌then◌else◌, Bool-cases, arith,
}
use mesh_cart.Base.Int.{ℤ, pos, eq_ℤ, eq_ℤ-refl}
use mesh_cart.Base.Decimal.{format_int}
use mesh_cart.Base.Lists.{any, find, update_where, All, All-append, All-find}
use mesh_cart.Base.Rows.{find-append}
use mesh_cart.Sql.{Fault, Result, ok, err, duplicate_key}
use mesh_cart.Sql.Hoare.{
  Ensures-Keeps, Keeps, Keeps-pure, Keeps-raise, Keeps-bind, Keeps-if, Keeps-map_err, Keeps-read,
  Keeps-take_row, Keeps-statement, Keeps-raise_if, Keeps-transaction, Leaves,
}
use mesh_cart.Payment.Model.{
  Payment, PaymentStatusLog, PaymentActionRecord, PaymentOutbox, PaymentDb,
}
use mesh_cart.Payment.Errors.{driver}
use mesh_cart.Payment.Tables.{
  has_payment_id, is_payment_in, active_taken, is_action, insert_payment, insert_log, insert_action,
  update_actions, KeyClash, no_clash, primary_key, active_order_key,
}
use mesh_cart.Payment.Payments.{
  PaymentTransition, apply_transition, created_log, get_by_payment_id_user, list_by_order_id,
  get_latest_active_by_order_id, clash_error, create_body, create, transition_status,
}
use mesh_cart.Payment.Actions.{
  get_action_record, create_action_record, mark_action_record_succeeded, mark_action_record_failed,
}
use mesh_cart.Payment.Invariant.{is_succeeded, told_id, events}
use mesh_cart.Payment.Invariant.Writes.{created_Sound, moved_Sound}
use mesh_cart.Payment.Invariant.Tables.{
  IsSettled, Holds, Backed, G, transition_Leaves, found_alone, not_succeeded, there, still_held,
  get_by_payment_id-G,
}

module _ {S : Type 0} (Confirmed : ℤ → String → S → Type 0) (held : Option Payment)
    (settled : IsSettled held) where
  abbrev pub Good : PaymentDb S → Type 0
  Good = G Confirmed held settled

  -- The payment that was loaded is still there, and the order service agreed to it.
  abbrev pub Agreed : Payment → PaymentDb S → Type 0
  Agreed p d =
      Good d
      × (find (has_payment_id p.payment_id) d.payments ≡ some p)
      × Confirmed p.order_id (format_int p.payment_id) d.others

  abbrev pub Succeeding : PaymentTransition → Payment → PaymentOutbox → Type 0
  Succeeding t p r =
      (t.payment_id ≡ p.payment_id)
      × (t.from_statuses ≡ pos 1 ∷ [])
      × (t.to_status ≡ pos 2)
      × (t.outbox_records ≡ some r ∷ [])
      × (told_id r.body ≡ some p.payment_id)

  one_event :
      (k : ℤ) (r : PaymentOutbox)
      → told_id r.body ≡ some k
      → (j : ℤ) → events j (r ∷ []) ≡ (if eq_ℤ k j then 1 else 0)
  one_event k r h j = rw h refl

  pub succeed_Leaves :
      (t : PaymentTransition) (p : Payment) (r : PaymentOutbox)
      → Succeeding t p r
      → Leaves (Agreed p) (transition_status t) Good
  unfolding eq_ℤ
  succeed_Leaves t p r (same, starts, to, tells, of_it) =
      transition_Leaves Confirmed held settled t (r ∷ []) (Agreed p) tells (λ d h. h.0)
        λ d o (g, loaded, agreed) e. (
          moved_Sound t.payment_id t.to_status (apply_transition t o.order_id) (r ∷ []) (λ x. refl)
              (λ x. refl) (λ x. rw to) (λ x. refl) (rw to)
              (λ j. one_event t.payment_id r (of_it ∙ ap some (sym same)) j ∙ rw to)
              (of_it ∙ ap some (sym same), tt) d.payments d.outbox g.0
              (not_succeeded Confirmed held settled t starts d o g e)
              (there Confirmed held settled t starts d o g e),
          still_held Confirmed held settled t starts d o g e,
          backed d o g loaded agreed e d.payments
              (found_alone Confirmed held settled t starts d o g e) g.2,
        )
    where
      -- The payment that is found is the one that was loaded.
      is_loaded :
          (d : PaymentDb S) (o : Payment) (g : Good d)
          → find (has_payment_id p.payment_id) d.payments ≡ some p
          → find (is_payment_in t.payment_id t.from_statuses) d.payments ≡ some o
          → p ≡ o
      is_loaded d o g loaded e =
          (All-find (λ x. has_payment_id t.payment_id x ≡ true → x ≡ o)
              (has_payment_id p.payment_id) d.payments p
              (found_alone Confirmed held settled t starts d o g e) loaded).0
            (rw same (eq_ℤ-refl p.payment_id))

      backed :
          (d : PaymentDb S) (o : Payment) (g : Good d)
          → find (has_payment_id p.payment_id) d.payments ≡ some p
          → Confirmed p.order_id (format_int p.payment_id) d.others
          → find (is_payment_in t.payment_id t.from_statuses) d.payments ≡ some o
          → (xs : List Payment) → All (λ x. has_payment_id t.payment_id x ≡ true → x ≡ o) xs
          → Backed Confirmed held settled d.others xs
          → Backed Confirmed held settled d.others
              (update_where (has_payment_id t.payment_id) (apply_transition t o.order_id) xs)
      backed d o g loaded agreed e [] a b = tt
      backed d o g loaded agreed e (x ∷ xs) a b = (first, backed d o g loaded agreed e xs a.1 b.1)
        where
          first :
              let y =
                if has_payment_id t.payment_id x then apply_transition t o.order_id x else x in
              is_succeeded y ≡ true → Confirmed y.order_id (format_int y.payment_id) d.others
          first = elim (Bool-cases (has_payment_id t.payment_id x)) [
            | inr off ↦ rw off (b.0)
            | inl on ↦ rw on (λ _.
                subst (λ z. Confirmed z.order_id (format_int z.payment_id) d.others)
                  (is_loaded d o g loaded e ∙ sym (a.0 on)) agreed)
          ]

  paid_in :
      (p : Payment)
      → p.status ≡ pos 1
      → p.active_order_id ≡ some p.order_id
      → Keeps Good (insert_payment p)
  unfolding insert_payment eq_ℤ
  paid_in p status active = Keeps-statement _ λ d h.
      stored d h (any (has_payment_id p.payment_id) d.payments) refl
        (active_taken p.active_order_id d.payments) refl
    where
      still : (o : Option Payment) (ps : List Payment) → Holds o ps → Holds o (ps ++ p ∷ [])
      still none ps h = h
      still (some q) ps h = find-append (has_payment_id q.payment_id) ps (p ∷ []) q h

      stored :
          (d : PaymentDb S)
          → Good d
          → (c : Bool) → any (has_payment_id p.payment_id) d.payments ≡ c
          → (b : Bool) → active_taken p.active_order_id d.payments ≡ b
          → Good
              (if◌then◌else◌ {A = Result Fault KeyClash × PaymentDb S} c
                (ok primary_key, d)
                (if b
                  then (ok active_order_key, d)
                  else (ok no_clash, record d { payments = d.payments ++ p ∷ [] }))).1
      stored d h true e b f = h
      stored d h false e true f = h
      stored d (g, h, b) false e false f = (
        created_Sound d.payments d.outbox p g e (rw active at f) status active,
        still held d.payments h,
        All-append _ d.payments (p ∷ []) b ((λ on. absurd (unpaid on)), tt),
      )
        where
          unpaid : is_succeeded p ≡ true → ⊥
          unpaid on = absurd (ground (arith, on, status))

  logged : (l : PaymentStatusLog) → Keeps Good (insert_log l)
  unfolding insert_log
  logged l = Keeps-statement _ λ d h. stored d h (any (λ t. eq_ℤ t.id l.id) d.status_logs)
    where
      stored :
          (d : PaymentDb S)
          → Good d
          → (c : Bool)
          → Good
              (if◌then◌else◌ {A = Result Fault Unit × PaymentDb S} c
                (err duplicate_key, d)
                (ok tt, record d { status_logs = d.status_logs ++ l ∷ [] })).1
      stored d h true = h
      stored d h false = h

  clash_Good : (c : KeyClash) → Keeps Good (clash_error c)
  unfolding clash_error
  clash_Good no_clash = Keeps-pure _
  clash_Good primary_key = Keeps-raise _
  clash_Good active_order_key = Keeps-raise _

  pub create-Good :
      (p : Payment) → p.status ≡ pos 1 → p.active_order_id ≡ some p.order_id → Keeps Good (create p)
  unfolding create create_body
  create-Good p status active = Keeps-if _ (Keeps-raise _) (
      Keeps-bind
        (Keeps-transaction driver (
          Ensures-Keeps (
            Keeps-bind (Keeps-map_err _ (paid_in p status active))
              λ c. Keeps-bind (clash_Good c) λ _. Keeps-map_err _ (logged (created_log p)))))
        λ _. get_by_payment_id-G Confirmed held settled p.payment_id)

  pub by_user_Good : (k user_id : ℤ) → Keeps Good (get_by_payment_id_user k user_id)
  unfolding get_by_payment_id_user
  by_user_Good k user_id = Keeps-map_err _ (Keeps-take_row _)

  pub list_Good : (order_id user_id : ℤ) → Keeps Good (list_by_order_id order_id user_id)
  unfolding list_by_order_id
  list_Good order_id user_id = Keeps-if _ (Keeps-raise _) (Keeps-map_err _ (Keeps-read _))

  pub active_Good :
      (order_id user_id : ℤ) → Keeps Good (get_latest_active_by_order_id order_id user_id)
  unfolding get_latest_active_by_order_id
  active_Good order_id user_id = Keeps-map_err _ (Keeps-take_row _)

  pub get_action_Good : (t k : String) → Keeps Good (get_action_record t k)
  unfolding get_action_record
  get_action_Good t k = Keeps-map_err _ (Keeps-take_row _)

  actions_written :
      (p : PaymentActionRecord → Bool) (f : PaymentActionRecord → PaymentActionRecord)
      → Keeps Good (update_actions p f)
  unfolding update_actions
  actions_written p f = Keeps-statement _ λ d h. h

  action_added : (r : PaymentActionRecord) → Keeps Good (insert_action r)
  unfolding insert_action
  action_added r = Keeps-statement _ λ d h.
      added d h
        (any (λ t. eq_ℤ t.id r.id || is_action r.action_type r.action_key t) d.action_records)
    where
      added :
          (d : PaymentDb S)
          → Good d
          → (c : Bool)
          → Good
              (if◌then◌else◌ {A = Result Fault Unit × PaymentDb S} c
                (err duplicate_key, d)
                (ok tt, record d { action_records = d.action_records ++ r ∷ [] })).1
      added d h true = h
      added d h false = h

  pub create_action_Good : (r : PaymentActionRecord) → Keeps Good (create_action_record r)
  unfolding create_action_record
  create_action_Good r = Keeps-bind (Keeps-raise_if _ _) λ _. Keeps-map_err _ (action_added r)

  pub succeeded_Good :
      (t k : String) (payment_id order_id : ℤ)
      → Keeps Good (mark_action_record_succeeded t k payment_id order_id)
  unfolding mark_action_record_succeeded
  succeeded_Good t k payment_id order_id =
      Keeps-bind (Keeps-map_err _ (actions_written _ _)) λ _. Keeps-raise_if _ _

  pub failed_Good : (t k : String) → Keeps Good (mark_action_record_failed t k)
  unfolding mark_action_record_failed
  failed_Good t k = Keeps-bind (Keeps-map_err _ (actions_written _ _)) λ _. Keeps-raise_if _ _
