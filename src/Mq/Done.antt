-- ===== src/Mq/Done.antt =====
-- A run of the dispatcher delivers every row that is due, where nothing fails.
use mathlib.Core.Path.{subst}
use mesh_cart.Base.{
  ℕ, suc, ◌+◌, ◌≡◌, refl, sym, ap, ◌∙◌, List, [], ◌∷◌, true, false, Option, none, some, map, arith,
}
use mesh_cart.Base.Int.{ℤ, pos, eq_ℤ-refl, leb_ℤ}
use mesh_cart.Base.Lists.{All, All-imp, any, length, update_where, mem_ℤ}
use mesh_cart.Base.Rows.{In, All-member, any-member}
use mesh_cart.App.Time.{Time}
use mesh_cart.Sql.{World, Result, ok, err, ◌>>=◌, attempt}
use mesh_cart.Sql.Hoare.{
  OnQuiet, Succeeds, Succeeds-pure, Succeeds-bind, Succeeds-if, Succeeds-map_err, Succeeds-attempt,
  Succeeds-read, Succeeds-write, Succeeds-or_raise, Succeeds-transaction, Succeeds-weaken,
  Succeeds-given,
}
use mesh_cart.Mq.Outbox.{OutboxRecord}
use mesh_cart.Mq.Store.{
  OutboxMessage, OutboxDb, StoreError, driver, row_id, due_rows, decode_rows, set_publishing,
  set_published, claim_rows, claim_some, claim_pending, mark_published,
}
use mesh_cart.Mq.Dispatcher.{
  Publisher, Publication, publication, Dispatcher, send, mark, after_mark, deliver_all,
  deliver_claimed, run_once,
}
use mesh_cart.Mq.Claims.{message_id, decode-ids, decode-All, claimed, due_rows-All, none_due}
use mesh_cart.Mq.Marks.{
  length-map, All-of_map, has_row, is_done, is_decodable, decodes, marks_done, stays_done,
  stays_there,
}

module _ {P S : Type 0} (publish : Publisher P S) (d : Dispatcher) (now : Time)
    (accepts : (p : Publication P) (s : S) → (publish p s).0 ≡ true) where
  abbrev Ready : List (OutboxMessage P) → OutboxDb P S → Type 0
  Ready ms x = All (λ m. any (has_row m.id) x.rows ≡ true) ms

  abbrev Delivered : List ℤ → OutboxDb P S → Type 0
  Delivered ks x = All (λ k. any (is_done k) x.rows ≡ true) ks

  abbrev Sent : List (OutboxMessage P) → List ℤ → OutboxDb P S → Type 0
  Sent ms ks x = Ready ms x × Delivered ks x

  sends :
      (ms : List (OutboxMessage P)) (ks : List ℤ) (p : Publication P)
      → Succeeds (Sent ms ks) (send publish d now p) (λ sent x. Sent ms ks x × (sent ≡ true))
  unfolding send
  sends ms ks p = record { at = λ w q h. ((h, accepts p w.db.others), q) }

  marks :
      (m : OutboxMessage P) (ms : List (OutboxMessage P)) (ks : List ℤ)
      → leb_ℤ m.id (pos 0) ≡ false
      → Succeeds (Sent (m ∷ ms) ks) (mark publish d now m true) (λ _. Sent ms (m.id ∷ ks))
  unfolding mark mark_published
  marks m ms ks positive =
      Succeeds-if (leb_ℤ m.id (pos 0)) (λ e. absurd (ground arith))
        λ _. Succeeds-map_err driver (
          Succeeds-write _ λ x ((there, ready), done). (
            All-imp (λ n. any (has_row n.id) x.rows ≡ true)
                (λ n.
                  any (has_row n.id) (update_where (has_row m.id) (set_published now) x.rows)
                  ≡ true)
                (λ n h. stays_there n.id (has_row m.id) (set_published now) (λ r. refl) x.rows h) ms
                ready,
            (
              marks_done m.id now x.rows there,
              All-imp (λ k. any (is_done k) x.rows ≡ true)
                  (λ k.
                    any (is_done k) (update_where (has_row m.id) (set_published now) x.rows) ≡ true)
                  (λ k h. stays_done k m.id now x.rows h) ks done,
            ),
          ))

  abbrev Marked : List (OutboxMessage P) → List ℤ → Result StoreError Unit → OutboxDb P S → Type 0
  Marked ms ks o x = Sent ms ks x × (o ≡ ok tt)

  delivers :
      (ms : List (OutboxMessage P)) (ks : List ℤ) (n : ℕ)
      → All (λ m. leb_ℤ m.id (pos 0) ≡ false) ms
      → Succeeds (Sent ms ks) (deliver_all publish d now ms n) (λ res x.
        (res ≡ (n + length ms, none)) × Delivered ks x × Delivered (map message_id ms) x)
  unfolding deliver_all after_mark
  delivers [] ks n a = Succeeds-pure _ λ x (r, h). (ground arith, h, tt)
  delivers (m ∷ ms) ks n a =
      Succeeds-bind (λ sent x. Sent (m ∷ ms) ks x × (sent ≡ true))
        (sends (m ∷ ms) ks (publication m))
        λ sent. Succeeds-given λ yes_sent.
          subst
            (λ b.
              Succeeds (Sent (m ∷ ms) ks)
                (attempt (mark publish d now m b) >>= λ o.
                  after_mark publish d now (suc n) (deliver_all publish d now ms (suc n)) o)
                (λ res x.
                  (res ≡ (n + length (m ∷ ms), none))
                  × Delivered ks x
                  × Delivered (map message_id (m ∷ ms)) x))
            (sym yes_sent)
            (Succeeds-bind (Marked ms (m.id ∷ ks))
              (Succeeds-attempt (Marked ms (m.id ∷ ks))
                (Succeeds-weaken (λ x h. h) (λ u x h. (h, refl)) (marks m ms ks a.0)))
              λ o. Succeeds-given λ good.
                subst
                  (λ o.
                    Succeeds (Sent ms (m.id ∷ ks))
                      (after_mark publish d now (suc n) (deliver_all publish d now ms (suc n)) o)
                      (λ res x.
                        (res ≡ (n + length (m ∷ ms), none))
                        × Delivered ks x
                        × Delivered (map message_id (m ∷ ms)) x))
                  (sym good)
                  (Succeeds-weaken (λ x h. h)
                    (λ res x (e, (done, ks'), ms'). (e ∙ ground arith, ks', (done, ms')))
                    (delivers ms (m.id ∷ ks) (suc n) a.1)))

  module _ (before : OutboxDb P S) (decodable : All (λ r. is_decodable r ≡ true) before.rows)
      (positive : All (λ r. leb_ℤ r.id (pos 0) ≡ false) before.rows) where
    abbrev due : List (OutboxRecord P)
    due = due_rows now d.batch_size before.rows

    abbrev IsClaim : List (OutboxMessage P) → OutboxDb P S → Type 0
    IsClaim ms x =
        (map message_id ms ≡ map row_id due) × All (λ m. leb_ℤ m.id (pos 0) ≡ false) ms × Ready ms x

    due-In : All (λ x. In x before.rows) due
    due-In =
        All-imp _ (λ x. In x before.rows) (λ x h. h.0) due
          (due_rows-All now d.batch_size before.rows)

    due_decodable : All (λ r. is_decodable r ≡ true) due
    due_decodable =
        All-imp (λ x. In x before.rows) (λ r. is_decodable r ≡ true)
          (λ x i. All-member (λ r. is_decodable r ≡ true) before.rows x decodable i) due due-In

    is_claim :
        (ms : List (OutboxMessage P))
        → decode_rows due ≡ some ms
        → IsClaim ms (claimed (map row_id due) before)
    is_claim ms e = (
      decode-ids due ms e,
      decode-All (λ x. In x before.rows) (λ m. leb_ℤ m.id (pos 0) ≡ false)
          (λ x hs i. All-member (λ r. leb_ℤ r.id (pos 0) ≡ false) before.rows x positive i) due ms
          due-In e,
      decode-All (λ x. In x before.rows)
          (λ m. any (has_row m.id) (claimed (map row_id due) before).rows ≡ true)
          (λ x hs i.
            stays_there x.id (λ r. mem_ℤ r.id (map row_id due)) set_publishing (λ r. refl)
              before.rows (any-member (has_row x.id) before.rows x i (eq_ℤ-refl x.id)))
          due ms due-In e,
    )

    claims_some :
        (rs : List (OutboxRecord P))
        → Succeeds (λ x. (x ≡ before) × (rs ≡ due)) (claim_some rs) IsClaim
    unfolding claim_some claim_rows
    claims_some [] = Succeeds-pure _ λ x (e, f). (ap (map row_id) f, tt, tt)
    claims_some (r ∷ rs) =
        Succeeds-bind (λ ms x. ((x ≡ before) × (r ∷ rs ≡ due)) × (decode_rows due ≡ some ms))
          (Succeeds-or_raise _ _ λ x (e, f).
            let (ms, g) = decodes due due_decodable in (ms, ap decode_rows f ∙ g, ((e, f), g)))
          λ ms.
            Succeeds-bind (λ _ x. IsClaim ms x)
              (Succeeds-map_err driver (
                Succeeds-write _ λ x ((e, f), g).
                  subst (λ y. IsClaim ms (claimed (map row_id (r ∷ rs)) y)) (sym e)
                    (subst (λ L. IsClaim ms (claimed (map row_id L) before)) (sym f)
                      (is_claim ms g))))
              λ _. Succeeds-pure _ λ x h. h

    claims : Succeeds (λ x. x ≡ before) (claim_pending now d.batch_size) IsClaim
    unfolding claim_pending
    claims =
        Succeeds-if (leb_ℤ d.batch_size (pos 0))
          (λ h.
            Succeeds-pure _
              λ x e. (ap (map row_id) (sym (none_due now d.batch_size before.rows h)), tt, tt))
          λ _. Succeeds-transaction driver (
            Succeeds-bind (λ rs x. (x ≡ before) × (rs ≡ due))
              (Succeeds-map_err driver
                (Succeeds-read _ λ x e. (e, ap (λ y. due_rows now d.batch_size y.rows) e)))
              claims_some)

    abbrev IsDone : ℕ × Option StoreError → OutboxDb P S → Type 0
    IsDone res x = (res ≡ (length due, none)) × All (λ r. any (is_done r.id) x.rows ≡ true) due

    abbrev Claimed : Result StoreError (List (OutboxMessage P)) → OutboxDb P S → Type 0
    Claimed (ok ms) x = IsClaim ms x
    Claimed (err e) x = ⊥

    runs : Succeeds (λ x. x ≡ before) (run_once publish d now) IsDone
    unfolding run_once deliver_claimed
    runs = Succeeds-bind Claimed (Succeeds-attempt Claimed claims) after
      where
        finished :
            (ms : List (OutboxMessage P)) (res : ℕ × Option StoreError) (x : OutboxDb P S)
            → map message_id ms ≡ map row_id due
            → (res ≡ (0 + length ms, none)) × Delivered [] x × Delivered (map message_id ms) x
            → IsDone res x
        finished ms res x ids (e, none_yet, all) =
            let sizes : length ms ≡ length due =
              sym (length-map message_id ms) ∙ ap length ids ∙ length-map row_id due in
            (
              e ∙ ground arith,
              All-of_map (λ k. any (is_done k) x.rows ≡ true) row_id due
                  (subst (λ ks. Delivered ks x) ids all),
            )

        after :
            (c : Result StoreError (List (OutboxMessage P)))
            → Succeeds (Claimed c) (deliver_claimed publish d now c) IsDone
        after (ok ms) = record {
          at = λ w q (ids, positives, ready).
              (Succeeds-weaken (λ x h. h) (λ res x. finished ms res x ids)
                  (delivers ms [] 0 positives)).at
                w q (ready, tt);
        }
        after (err e) = record { at = λ w q h. absurd h }

    done_of :
        (r : Result StoreError (ℕ × Option StoreError) × World (OutboxDb P S))
        → OnQuiet IsDone r
        → (r.0 ≡ ok (length due, none)) × All (λ x. any (is_done x.id) r.1.db.rows ≡ true) due
    done_of (ok res, w) ((e, a), q) = (ap ok e, a)
    done_of (err e, w) h = absurd h

-- Where no statement fails, the publisher takes every event, the ids are positive and all headers
-- decode, a run of the dispatcher answers no error and the number of the rows that were due, at
-- most as many as its batch size, the lowest ids first, and afterwards a row with the id of each
-- of these is marked as published. A row is due that is pending or failed, has retries left, and
-- has no time of its next retry or one that has come.
pub run_once_delivers :
    {P S : Type 0} (publish : Publisher P S) (d : Dispatcher) (now : Time)
    (w : World (OutboxDb P S))
    → ((p : Publication P) (s : S) → (publish p s).0 ≡ true)
    → w.faults ≡ []
    → All (λ r. is_decodable r ≡ true) w.db.rows
    → All (λ r. leb_ℤ r.id (pos 0) ≡ false) w.db.rows
    → let due = due_rows now d.batch_size w.db.rows in
      ((run_once publish d now w).0 ≡ ok (length due, none))
      × All (λ r. any (is_done r.id) (run_once publish d now w).1.db.rows ≡ true) due
run_once_delivers publish d now w accepts quiet decodable positive =
    done_of publish d now accepts w.db decodable positive (run_once publish d now w)
      ((runs publish d now accepts w.db decodable positive).at w quiet refl)
