-- ===== src/Payment/Invariant/Tables.antt =====
-- Every repository call of the payment service keeps the promises, whatever fails on the way.
use mathlib.Core.Path.{subst}
use mathlib.Core.List.{append-nil, append_assoc}
use mesh_cart.Base.{
  ◌≡◌, refl, sym, String, List, [], ◌∷◌, ◌++◌, Bool, true, false, Option, none, some, map,
  if◌then◌else◌, inl, inr, Bool-cases, arith,
}
use mesh_cart.Base.Int.{ℤ, pos, eq_ℤ, eq_ℤ→eq, eq_ℤ-refl}
use mesh_cart.Base.Decimal.{format_int}
use mesh_cart.Base.Lists.{any, find, update_where, mem_ℤ, All, All-imp, All-find, All-update_where}
use mesh_cart.Base.Rows.{any-find, find-true, find-update_other}
use mesh_cart.Base.Unique.{unique_found}
use mesh_cart.Sql.{Fault, Result, ok, err, duplicate_key}
use mesh_cart.Sql.Hoare.{
  OnRows, Ensures, Ensures-bind, Ensures-pure, Ensures-raise, Ensures-if, Ensures-map_err,
  Ensures-statement, Ensures-write, Ensures-take_row, Ensures-any_id, Ensures-weaken, Ensures-Keeps,
  Keeps, Keeps-raise, Keeps-map_err, Keeps-take_row, Keeps-statement, Leaves, Leaves-if,
  Leaves-then, Leaves-Keeps, Leaves-transaction,
}
use mesh_cart.Payment.Model.{Payment, PaymentStatusLog, PaymentOutbox, PaymentDb}
use mesh_cart.Payment.Errors.{driver}
use mesh_cart.Payment.Tables.{has_payment_id, is_payment_in, insert_log, insert_outbox}
use mesh_cart.Payment.Payments.{
  PaymentTransition, apply_transition, transition_log, is_bad_outbox, get_by_payment_id,
  write_outbox, transition_body, transition_status,
}
use mesh_cart.Payment.Invariant.{id_of, is_pending, is_succeeded, IsSound}
use mesh_cart.Payment.Invariant.Writes.{moved_Sound}

-- A payment that is not pending, or none.
abbrev pub IsSettled : Option Payment → Type 0
IsSettled none = Unit
IsSettled (some p) = is_pending p ≡ false

-- It is still there as it was.
abbrev pub Holds : Option Payment → List Payment → Type 0
Holds none ps = Unit
Holds (some p) ps = find (has_payment_id p.payment_id) ps ≡ some p

in_pending : (k : ℤ) (p : Payment) → is_payment_in k (pos 1 ∷ []) p ≡ true → p.status ≡ pos 1
in_pending k p h = eq_ℤ→eq p.status (pos 1) (ground arith)

module _ {S : Type 0} (Confirmed : ℤ → String → S → Type 0) (held : Option Payment)
    (settled : IsSettled held) where
  -- The order service was asked about every payment that has succeeded.
  abbrev pub Backed : S → List Payment → Type 0
  Backed s ps =
      All (λ p. is_succeeded p ≡ true → Confirmed p.order_id (format_int p.payment_id) s) ps

  abbrev pub Waiting : List PaymentOutbox → PaymentDb S → Type 0
  Waiting rs d =
      IsSound d.payments (d.outbox ++ rs) × Holds held d.payments × Backed d.others d.payments

  abbrev pub G : PaymentDb S → Type 0
  G d = IsSound d.payments d.outbox × Holds held d.payments × Backed d.others d.payments

  none-Waiting : (d : PaymentDb S) → Waiting [] d → G d
  none-Waiting d (g, h, b) = (subst (λ os. IsSound d.payments os) (append-nil d.outbox) g, h, b)

  logged : (l : PaymentStatusLog) (rs : List PaymentOutbox) → Keeps (Waiting rs) (insert_log l)
  unfolding insert_log
  logged l rs = Keeps-statement _ λ d h. stored d h (any (λ t. eq_ℤ t.id l.id) d.status_logs)
    where
      stored :
          (d : PaymentDb S)
          → Waiting rs d
          → (c : Bool)
          → Waiting rs
              (if◌then◌else◌ {A = Result Fault Unit × PaymentDb S} c
                (err duplicate_key, d)
                (ok tt, record d { status_logs = d.status_logs ++ l ∷ [] })).1
      stored d h true = h
      stored d h false = h

  told :
      (r : PaymentOutbox) (rs : List PaymentOutbox)
      → Ensures (Waiting (r ∷ rs)) (insert_outbox r) (λ _. Waiting rs)
  unfolding insert_outbox
  told r rs = Ensures-statement _ λ d h. stored d h (any (λ t. eq_ℤ t.id r.id) d.outbox)
    where
      stored :
          (d : PaymentDb S)
          → Waiting (r ∷ rs) d
          → (c : Bool)
          → OnRows
              (λ _. Waiting rs)
              (if c
                then (err duplicate_key, d)
                else (ok tt, record d { outbox = d.outbox ++ r ∷ [] }))
      stored d h true = tt
      stored d (g, h, b) false =
          (subst (λ os. IsSound d.payments os) (sym (append_assoc d.outbox (r ∷ []) rs)) g, h, b)

  all_told :
      (rs : List PaymentOutbox)
      → Ensures (Waiting rs) (write_outbox (map some rs)) (λ _. Waiting [])
  unfolding write_outbox
  all_told [] = Ensures-pure _ λ d h. h
  all_told (r ∷ rs) =
      Ensures-if (is_bad_outbox r) (λ _. Ensures-raise _)
        λ _. Ensures-bind (λ _. Waiting rs) (Ensures-map_err _ (told r rs)) λ _. all_told rs

  pub get_by_payment_id-G : (k : ℤ) → Keeps G (get_by_payment_id k)
  unfolding get_by_payment_id
  get_by_payment_id-G k = Keeps-map_err _ (Keeps-take_row _)

  -- A transition, from what it writes to the payments.
  pub transition_Leaves :
      (t : PaymentTransition) (rs : List PaymentOutbox) (P : PaymentDb S → Type 0)
      → t.outbox_records ≡ map some rs
      → ((d : PaymentDb S) → P d → G d)
      → ((d : PaymentDb S) (o : Payment)
          → P d
          → find (is_payment_in t.payment_id t.from_statuses) d.payments ≡ some o
          → Waiting rs (record d {
            payments =
                update_where
                  (has_payment_id t.payment_id)
                  (apply_transition t o.order_id)
                  d.payments;
          }))
      → Leaves P (transition_status t) G
  unfolding transition_status transition_body
  transition_Leaves t rs P tells pre move =
      Leaves-if _ (Leaves-Keeps G pre (λ d h. h) (Keeps-raise _)) (
        Leaves-then
          (Leaves-transaction driver pre (
            Ensures-bind
              (λ o d. P d × (find (is_payment_in t.payment_id t.from_statuses) d.payments ≡ some o))
              (Ensures-map_err _ (Ensures-take_row _))
              λ o.
                Ensures-bind (λ _. Waiting rs)
                  (Ensures-map_err _ (Ensures-write _ λ d (p, e). move d o p e))
                  λ _.
                    Ensures-bind (λ _. Waiting rs) (Ensures-any_id λ d h id. h)
                      λ id.
                        Ensures-bind (λ _. Waiting rs)
                          (Ensures-Keeps
                            (Keeps-map_err _ (logged (transition_log t id o.status) rs)))
                          λ _.
                            subst (λ os. Ensures (Waiting rs) (write_outbox os) (λ _. G))
                              (sym tells)
                              (Ensures-weaken (λ d h. h) (λ _. none-Waiting) (all_told rs))))
          λ _. get_by_payment_id-G t.payment_id)

  -- What the found payment is, and what becomes of the others.
  module _ (t : PaymentTransition) (starts : t.from_statuses ≡ pos 1 ∷ []) (d : PaymentDb S)
      (o : Payment) (g : G d)
      (e : find (is_payment_in t.payment_id t.from_statuses) d.payments ≡ some o) where
    abbrev moves : Payment → Payment
    moves = apply_transition t o.order_id

    pub found_alone : All (λ x. has_payment_id t.payment_id x ≡ true → x ≡ o) d.payments
    found_alone =
        unique_found id_of t.payment_id (λ x. mem_ℤ x.status t.from_statuses) d.payments o
          g.0.unique e

    pub found_true : is_payment_in t.payment_id (pos 1 ∷ []) o ≡ true
    found_true =
        subst (λ froms. is_payment_in t.payment_id froms o ≡ true) starts
          (find-true (is_payment_in t.payment_id t.from_statuses) d.payments o e)

    pub found_status : o.status ≡ pos 1
    found_status = in_pending t.payment_id o found_true

    pub not_succeeded :
        All (λ x. has_payment_id t.payment_id x ≡ true → eq_ℤ x.status (pos 2) ≡ false) d.payments
    unfolding eq_ℤ
    not_succeeded =
        All-imp _ (λ x. has_payment_id t.payment_id x ≡ true → eq_ℤ x.status (pos 2) ≡ false)
          (λ x same on. rw (same on, found_status)) d.payments found_alone

    pub there : any (has_payment_id t.payment_id) d.payments ≡ true
    there =
        any-find (has_payment_id t.payment_id) (is_payment_in t.payment_id t.from_statuses)
          d.payments o e (ground (arith, found_true))

    pub still_held : Holds held (update_where (has_payment_id t.payment_id) moves d.payments)
    still_held = kept held settled g.1
      where
        kept :
            (p : Option Payment)
            → IsSettled p
            → Holds p d.payments
            → Holds p (update_where (has_payment_id t.payment_id) moves d.payments)
        kept none s h = h
        kept (some p) s h =
            let same = (All-find _ (has_payment_id p.payment_id) d.payments p found_alone h).0 in
            elim (Bool-cases (has_payment_id t.payment_id p)) [
              | inl on ↦ absurd (clash (same on) s)
              | inr off ↦
                  find-update_other (has_payment_id p.payment_id) (has_payment_id t.payment_id)
                    moves (λ x. refl) d.payments p h off
            ]
          where
            clash : p ≡ o → is_pending p ≡ false → ⊥
            clash same off =
                let yet : eq_ℤ p.status (pos 1) ≡ true =
                  rw (same, found_status) (eq_ℤ-refl (pos 1)) in
                absurd (ground arith)

  abbrev Closing : PaymentTransition → Type 0
  Closing t = (t.from_statuses ≡ pos 1 ∷ []) × (t.to_status ≡ pos 4) × (t.outbox_records ≡ [])

  pub close-G : (t : PaymentTransition) → Closing t → Leaves G (transition_status t) G
  unfolding eq_ℤ
  close-G t (starts, to, none_told) =
      transition_Leaves t [] G none_told (λ d h. h)
        λ d o g e. (
          sound d o g e,
          still_held t starts d o g e,
          All-update_where _ (has_payment_id t.payment_id) (apply_transition t o.order_id)
              (λ x on h on_paid. absurd (apart on_paid)) d.payments g.2,
        )
    where
      apart : eq_ℤ t.to_status (pos 2) ≡ true → ⊥
      apart e = absurd (ground arith)

      sound :
          (d : PaymentDb S) (o : Payment)
          → G d
          → find (is_payment_in t.payment_id t.from_statuses) d.payments ≡ some o
          → IsSound
              (update_where
                (has_payment_id t.payment_id)
                (apply_transition t o.order_id)
                d.payments)
              (d.outbox ++ [])
      sound d o g e =
          moved_Sound t.payment_id t.to_status (apply_transition t o.order_id) [] (λ x. refl)
            (λ x. refl) (λ x. rw to) (λ x. refl) (rw to) (λ j. rw to (ground arith)) tt d.payments
            d.outbox g.0 (not_succeeded t starts d o g e) (there t starts d o g e)
