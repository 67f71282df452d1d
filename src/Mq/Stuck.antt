-- ===== src/Mq/Stuck.antt =====
-- A row that was claimed and not marked stays claimed, whatever the dispatcher does later.
use mathlib.Core.Path.{subst}
use mesh_cart.Base.{
  ℕ, suc, ◌≡◌, refl, ◌∙◌, List, [], ◌∷◌, Bool, true, false, Option, some, map, inl, inr, Bool-cases,
  arith,
}
use mesh_cart.Base.Int.{ℤ, eq_ℤ, eq_ℤ-comm}
use mesh_cart.Base.Lists.{All, All-imp, find, update_where, mem_ℤ}
use mesh_cart.Base.Rows.{In, In-find, find-update_other}
use mesh_cart.Base.Unique.{UniqueBy, UniqueBy-update, unique_In}
use mesh_cart.App.Time.{Time}
use mesh_cart.Sql.{World, Query, Result, ok, err}
use mesh_cart.Sql.Hoare.{
  Ensures-attempt, Keeps, Keeps-pure, Keeps-bind, Keeps-if, Keeps-map_err, Keeps-write,
  Keeps-attempt, Leaves, Leaves-bind, Leaves-Keeps, Keeps-Leaves,
}
use mesh_cart.Mq.Outbox.{OutboxRecord, outbox_publishing}
use mesh_cart.Mq.Store.{
  OutboxMessage, OutboxDb, StoreError, is_due, is_claimable, row_id, due_rows, decode_rows,
  set_publishing, mark_published, mark_failed,
}
use mesh_cart.Mq.Dispatcher.{
  Publisher, Publication, publication, Dispatcher, send, mark, after_mark, deliver_all,
  deliver_claimed, run_once, run_all,
}
use mesh_cart.Mq.Claims.{due_rows-All, decode-All, claimed, claim_Ensures, claim_Keeps}

module _ {P : Type 0} (r : OutboxRecord P) where
  abbrev is_it : OutboxRecord P → Bool
  is_it x = eq_ℤ x.id r.id

  abbrev IsOther : OutboxMessage P → Type 0
  IsOther m = eq_ℤ m.id r.id ≡ false

  not_claimed :
      (rs : List (OutboxRecord P))
      → All (λ x. eq_ℤ x.id r.id ≡ false) rs
      → mem_ℤ r.id (map row_id rs) ≡ false
  not_claimed [] a = refl
  not_claimed (x ∷ rs) a = ground (arith, a.0, eq_ℤ-comm r.id x.id, not_claimed rs a.1)

module _ {P : Type 0} (r : OutboxRecord P) (taken : r.status ≡ outbox_publishing) where
  -- It is not due.
  not_due : (now : Time) → is_due now r ≡ true → ⊥
  not_due now h = let off : is_claimable r.status ≡ false = rw taken in absurd (ground arith)

  other_row :
      (now : Time) (rows : List (OutboxRecord P)) (x : OutboxRecord P)
      → UniqueBy row_id rows
      → find (is_it r) rows ≡ some r
      → In x rows × (is_due now x ≡ true)
      → eq_ℤ x.id r.id ≡ false
  other_row now rows x u e (i, due) = elim (Bool-cases (eq_ℤ x.id r.id)) [
    | inr off ↦ off
    | inl on ↦
        let same = unique_In row_id rows x r u i (In-find (is_it r) rows r e) on in
        absurd (not_due now (subst (λ y. is_due now y ≡ true) same due))
  ]

module _ {P S : Type 0} (r : OutboxRecord P) (taken : r.status ≡ outbox_publishing) where
  abbrev U : OutboxDb P S → Type 0
  U d = UniqueBy row_id d.rows × (find (is_it r) d.rows ≡ some r)

  abbrev T : List (OutboxMessage P) → OutboxDb P S → Type 0
  T ms d = U d × All (IsOther r) ms

  claims :
      (now : Time) (limit : ℤ) (d : OutboxDb P S) (ms : List (OutboxMessage P))
      → U d
      → decode_rows (due_rows now limit d.rows) ≡ some ms
      → T ms (claimed (map row_id (due_rows now limit d.rows)) d)
  claims now limit d ms (u, e) decoded =
      let rs = due_rows now limit d.rows in
      let others : All (λ x. eq_ℤ x.id r.id ≡ false) rs =
        All-imp _ (λ x. eq_ℤ x.id r.id ≡ false) (λ x h. other_row r taken now d.rows x u e h) rs
          (due_rows-All now limit d.rows) in
      (
        (
          UniqueBy-update row_id (λ x. mem_ℤ x.id (map row_id rs)) set_publishing (λ x. refl) d.rows
              u,
          find-update_other (is_it r) (λ x. mem_ℤ x.id (map row_id rs)) set_publishing (λ x. refl)
              d.rows r e (not_claimed r rs others),
        ),
        decode-All (λ x. eq_ℤ x.id r.id ≡ false) (IsOther r) (λ x hs h. h) rs ms others decoded,
      )

  marked :
      (id : ℤ) (f : OutboxRecord P → OutboxRecord P)
      → ((x : OutboxRecord P) → (f x).id ≡ x.id)
      → eq_ℤ id r.id ≡ false
      → (d : OutboxDb P S) → U d
      → U (record d { rows = update_where (λ x. eq_ℤ x.id id) f d.rows })
  marked id f keeps off d (u, e) = (
    UniqueBy-update row_id (λ x. eq_ℤ x.id id) f keeps d.rows u,
    find-update_other (is_it r) (λ x. eq_ℤ x.id id) f (λ x. rw (keeps x)) d.rows r e
        (eq_ℤ-comm r.id id ∙ off),
  )

  module _ (publish : Publisher P S) (d : Dispatcher) where
    mark-U :
        (now : Time) (m : OutboxMessage P) (sent : Bool)
        → IsOther r m
        → Keeps U (mark publish d now m sent)
    unfolding mark mark_published mark_failed
    mark-U now m true off =
        Keeps-if _ (Keeps-pure _) (Keeps-map_err _ (Keeps-write _ (marked m.id _ (λ x. refl) off)))
    mark-U now m false off =
        Keeps-if _ (Keeps-pure _) (Keeps-map_err _ (Keeps-write _ (marked m.id _ (λ x. refl) off)))

    send-U : (now : Time) (p : Publication P) → Keeps U (send publish d now p)
    unfolding send
    send-U now p = record { at = λ w h. h }

    after-U :
        (now : Time) (n : ℕ) (o : Result StoreError Unit)
        (rest : Query (OutboxDb P S) StoreError (ℕ × Option StoreError))
        → Keeps U rest
        → Keeps U (after_mark publish d now n rest o)
    unfolding after_mark
    after-U now n (ok _) rest k = k
    after-U now n (err e) rest k = Keeps-pure _

    deliver-U :
        (now : Time) (ms : List (OutboxMessage P)) (n : ℕ)
        → All (IsOther r) ms
        → Keeps U (deliver_all publish d now ms n)
    unfolding deliver_all
    deliver-U now [] n a = Keeps-pure _
    deliver-U now (m ∷ ms) n a = Keeps-bind (send-U now (publication m)) λ sent.
        Keeps-bind (Keeps-attempt (mark-U now m sent a.0))
          λ o. after-U now (suc n) o _ (deliver-U now ms (suc n) a.1)

    abbrev Claimed : Result StoreError (List (OutboxMessage P)) → OutboxDb P S → Type 0
    Claimed (ok ms) d = T ms d
    Claimed (err e) d = U d

    Claimed-U :
        (now : Time) (c : Result StoreError (List (OutboxMessage P)))
        → Leaves (Claimed c) (deliver_claimed publish d now c) U
    unfolding deliver_claimed
    Claimed-U now (err e) = Leaves-Keeps U (λ d h. h) (λ d h. h) (Keeps-pure _)
    Claimed-U now (ok ms) = record { at = λ w (u, a). (deliver-U now ms 0 a).at w u }

    run-U : (now : Time) → Keeps U (run_once publish d now)
    unfolding run_once
    run-U now =
        let keeps =
          claim_Keeps now d.batch_size U T (λ d u e. (u, tt)) (claims now d.batch_size)
            (λ ms d t. t.0) in
        Keeps-Leaves (
          Leaves-bind (Keeps-attempt keeps) (λ d h. h)
            (Ensures-attempt Claimed keeps
              (claim_Ensures now d.batch_size U T (λ d u e. (u, tt)) (claims now d.batch_size))
              (λ e d h. h))
            (Claimed-U now))

    runs-U :
        (times : List Time) (w : World (OutboxDb P S)) → U w.db → U (run_all publish d times w).db
    unfolding run_all
    runs-U [] w u = u
    runs-U (now ∷ later) w u = runs-U later (run_once publish d now w).1 ((run-U now).at w u)

-- Where the rows of an outbox have unique ids, a row whose status is publishing is the same after
-- any number of runs of the dispatcher, whatever statements fail and whatever the publisher
-- answers.
pub publishing_stays :
    {P S : Type 0} (publish : Publisher P S) (d : Dispatcher) (times : List Time)
    (w : World (OutboxDb P S)) (r : OutboxRecord P)
    → UniqueBy row_id w.db.rows
    → find (λ x. eq_ℤ x.id r.id) w.db.rows ≡ some r
    → r.status ≡ outbox_publishing
    → find (λ x. eq_ℤ x.id r.id) (run_all publish d times w).db.rows ≡ some r
publishing_stays publish d times w r unique there taken =
    (runs-U r taken publish d times w (unique, there)).1
