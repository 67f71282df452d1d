-- ===== src/Mq/Delivery.antt =====
-- A row of the outbox is marked as published only after the publisher took its event.
use mathlib.Core.Path.{subst}
use mesh_cart.Base.{
  ℕ, suc, ◌≡◌, refl, sym, String, List, [], ◌∷◌, Bool, true, false, Option, some, map,
  if◌then◌else◌, inl, inr, Bool-cases, arith,
}
use mesh_cart.Base.Int.{ℤ, pos, ◌+ℤ◌, eq_ℤ}
use mesh_cart.Base.Lists.{All, All-imp, All-update_where, update_where, mem_ℤ}
use mesh_cart.Base.Rows.{In, All-In}
use mesh_cart.Base.Unique.{UniqueBy, UniqueBy-update, unique_In}
use mesh_cart.App.Time.{Time, add_seconds}
use mesh_cart.Sql.{World, Query, Result, ok, err}
use mesh_cart.Sql.Hoare.{
  Ensures, Ensures-attempt, Keeps, Keeps-pure, Keeps-attempt, Leaves, Leaves-bind, Leaves-Keeps,
  Leaves-if, Keeps-Leaves, Leaves-map_err, Leaves-write, Leaves-seq,
}
use mesh_cart.Mq.Outbox.{
  Envelope, OutboxRecord, OutboxStatus, outbox_pending, outbox_publishing, outbox_published,
  outbox_failed, outbox_other,
}
use mesh_cart.Mq.Store.{
  OutboxMessage, OutboxDb, StoreError, row_id, due_rows, message_of, decode_rows, set_publishing,
  set_published, set_failed, mark_published, mark_failed,
}
use mesh_cart.Mq.Dispatcher.{
  Publisher, Publication, publication, Dispatcher, send, mark, after_mark, deliver_all,
  deliver_claimed, run_once, run_all,
}
use mesh_cart.Mq.Claims.{due_rows-All, decode-All, claimed, claim_Ensures, claim_Keeps}

-- What is relied on of the publisher: where it answers no error it has taken the event, and it never
-- loses one.
pub record IsReliable {P S : Type 0} (publish : Publisher P S)
    (Taken : String → String → Option (Envelope P) → S → Type 0) : Type 0 where
  pub keeps :
      (p : Publication P) (topic key : String) (body : Option (Envelope P)) (s : S)
      → Taken topic key body s
      → Taken topic key body (publish p s).1
  pub takes :
      (p : Publication P) (s : S)
      → (publish p s).0 ≡ true
      → Taken p.topic p.key p.body (publish p s).1

abbrev pub is_published : OutboxStatus → Bool
is_published outbox_published = true
is_published outbox_pending = false
is_published outbox_publishing = false
is_published outbox_failed = false
is_published (outbox_other _) = false

module _ {P S : Type 0} (publish : Publisher P S)
    (Taken : String → String → Option (Envelope P) → S → Type 0)
    (reliable : IsReliable publish Taken) (d : Dispatcher) where
  abbrev RowTaken : S → OutboxRecord P → Type 0
  RowTaken s r = is_published r.status ≡ true → Taken r.topic r.event_key r.body s

  abbrev pub AllTaken : OutboxDb P S → Type 0
  AllTaken x = UniqueBy row_id x.rows × All (RowTaken x.others) x.rows

  -- The message tells what the row with its id does.
  abbrev Fits : OutboxMessage P → OutboxRecord P → Type 0
  Fits m r =
      eq_ℤ r.id m.id ≡ true → (r.topic ≡ m.topic) × (r.event_key ≡ m.event_key) × (r.body ≡ m.body)

  abbrev Faithful : List (OutboxMessage P) → OutboxDb P S → Type 0
  Faithful ms x = All (λ m. All (Fits m) x.rows) ms

  abbrev T : List (OutboxMessage P) → OutboxDb P S → Type 0
  T ms x = AllTaken x × Faithful ms x

  claims :
      (now : Time) (limit : ℤ) (x : OutboxDb P S) (ms : List (OutboxMessage P))
      → AllTaken x
      → decode_rows (due_rows now limit x.rows) ≡ some ms
      → T ms (claimed (map row_id (due_rows now limit x.rows)) x)
  claims now limit x ms (u, a) decoded =
      let rs = due_rows now limit x.rows in
      let picked = λ (y : OutboxRecord P). mem_ℤ y.id (map row_id rs) in
      (
        (
          UniqueBy-update row_id picked set_publishing (λ y. refl) x.rows u,
          All-update_where (RowTaken x.others) picked set_publishing
              (λ y on h e. absurd (ground arith)) x.rows a,
        ),
        decode-All (λ y. In y x.rows)
            (λ m. All (Fits m) (update_where picked set_publishing x.rows))
            (λ y hs i.
              All-update_where (Fits (message_of y hs)) picked set_publishing (λ z on h. h) x.rows
                (All-In x.rows λ z j same. fit y hs z (unique_In row_id x.rows z y u j i same)))
            rs ms (All-imp _ (λ y. In y x.rows) (λ y h. h.0) rs (due_rows-All now limit x.rows))
            decoded,
      )
    where
      fit :
          (y : OutboxRecord P) (hs : List (String × String)) (z : OutboxRecord P)
          → z ≡ y
          → (z.topic ≡ y.topic) × (z.event_key ≡ y.event_key) × (z.body ≡ y.body)
      fit y hs z e = (rw e, rw e, rw e)

  send-T :
      (now : Time) (ms : List (OutboxMessage P)) (p : Publication P)
      → Keeps (T ms) (send publish d now p)
  unfolding send
  send-T now ms p = record {
    at = λ w ((u, a), f). (
      (
        u,
        All-imp (RowTaken w.db.others) (RowTaken (publish p w.db.others).1)
            (λ r h e. reliable.keeps p r.topic r.event_key r.body w.db.others (h e)) w.db.rows a,
      ),
      f,
    );
  }

  abbrev Sent : OutboxMessage P → List (OutboxMessage P) → Bool → OutboxDb P S → Type 0
  Sent m ms sent x = T (m ∷ ms) x × (sent ≡ true → Taken m.topic m.event_key m.body x.others)

  send-Sent :
      (now : Time) (m : OutboxMessage P) (ms : List (OutboxMessage P))
      → Ensures (T (m ∷ ms)) (send publish d now (publication m)) (Sent m ms)
  unfolding send
  send-Sent now m ms = record {
    at = λ w t.
        ((send-T now (m ∷ ms) (publication m)).at w t, reliable.takes (publication m) w.db.others);
  }

  kept :
      (ms : List (OutboxMessage P)) (p : OutboxRecord P → Bool)
      (f : OutboxRecord P → OutboxRecord P)
      → ((m : OutboxMessage P) (r : OutboxRecord P) → Fits m r → Fits m (f r))
      → (rows : List (OutboxRecord P)) → All (λ m. All (Fits m) rows) ms
      → All (λ m. All (Fits m) (update_where p f rows)) ms
  kept ms p f k rows a =
      All-imp (λ m. All (Fits m) rows) (λ m. All (Fits m) (update_where p f rows))
        (λ m h. All-update_where (Fits m) p f (λ r on. k m r) rows h) ms a

  -- A row is marked by the message that tells what it does.
  published :
      (s : S) (m : OutboxMessage P) (at : Time) (rows : List (OutboxRecord P))
      → Taken m.topic m.event_key m.body s
      → All (Fits m) rows
      → All (RowTaken s) rows
      → All (RowTaken s) (update_where (λ r. eq_ℤ r.id m.id) (set_published at) rows)
  published s m at [] t f a = tt
  published s m at (r ∷ rows) t f a = (first, published s m at rows t f.1 a.1)
    where
      first : RowTaken s (if eq_ℤ r.id m.id then set_published at r else r)
      first = elim (Bool-cases (eq_ℤ r.id m.id)) [
        | inr off ↦ rw off (a.0)
        | inl on ↦
            let (topic, key, body) = f.0 on in
            rw on (λ _.
              subst (λ k. Taken k r.event_key r.body s) (sym topic)
                (subst (λ k. Taken m.topic k r.body s) (sym key)
                  (subst (λ b. Taken m.topic m.event_key b s) (sym body) t)))
      ]

  mark_Leaves :
      (now : Time) (m : OutboxMessage P) (ms : List (OutboxMessage P)) (sent : Bool)
      → Leaves (Sent m ms sent) (mark publish d now m sent) (T ms)
  unfolding mark mark_published mark_failed
  mark_Leaves now m ms true =
      Leaves-if _
        (Leaves-Keeps (Sent m ms true) (λ x h. h) (λ x h. (h.0.0, h.0.1.1)) (Keeps-pure _))
        (Leaves-map_err _ (
          Leaves-write _ (λ x h. (h.0.0, h.0.1.1))
            λ x (((u, a), (f, fs)), took). (
              (
                UniqueBy-update row_id (λ r. eq_ℤ r.id m.id) (set_published now) (λ r. refl) x.rows
                    u,
                published x.others m now x.rows (took refl) f a,
              ),
              kept ms (λ r. eq_ℤ r.id m.id) (set_published now) (λ m r h. h) x.rows fs,
            )))
  mark_Leaves now m ms false =
      Leaves-if _
        (Leaves-Keeps (Sent m ms false) (λ x h. h) (λ x h. (h.0.0, h.0.1.1)) (Keeps-pure _))
        (Leaves-map_err _ (
          Leaves-write _ (λ x h. (h.0.0, h.0.1.1))
            λ x (((u, a), (f, fs)), took).
              let again = set_failed (m.retry_count +ℤ pos 1) (add_seconds d.retry_backoff now) in
              (
                (
                  UniqueBy-update row_id (λ r. eq_ℤ r.id m.id) again (λ r. refl) x.rows u,
                  All-update_where (RowTaken x.others) (λ r. eq_ℤ r.id m.id) again
                      (λ r on h e. absurd (ground arith)) x.rows a,
                ),
                kept ms (λ r. eq_ℤ r.id m.id) again (λ m r h. h) x.rows fs,
              )))

  after_Keeps :
      (now : Time) (n : ℕ) (o : Result StoreError Unit) (ms : List (OutboxMessage P))
      (rest : Query (OutboxDb P S) StoreError (ℕ × Option StoreError))
      → Leaves (T ms) rest AllTaken
      → Leaves (T ms) (after_mark publish d now n rest o) AllTaken
  unfolding after_mark
  after_Keeps now n (ok _) ms rest k = k
  after_Keeps now n (err e) ms rest k = Leaves-Keeps (T ms) (λ x h. h) (λ x h. h.0) (Keeps-pure _)

  deliver_Leaves :
      (now : Time) (ms : List (OutboxMessage P)) (n : ℕ)
      → Leaves (T ms) (deliver_all publish d now ms n) AllTaken
  unfolding deliver_all
  deliver_Leaves now [] n = Leaves-Keeps (T []) (λ x h. h) (λ x h. h.0) (Keeps-pure _)
  deliver_Leaves now (m ∷ ms) n =
      Leaves-bind (send-T now (m ∷ ms) (publication m)) (λ x h. h.0) (send-Sent now m ms)
        λ sent.
          Leaves-seq (mark_Leaves now m ms sent)
            λ o. after_Keeps now (suc n) o ms _ (deliver_Leaves now ms (suc n))

  abbrev Claimed : Result StoreError (List (OutboxMessage P)) → OutboxDb P S → Type 0
  Claimed (ok ms) x = T ms x
  Claimed (err e) x = AllTaken x

  Claimed-Leaves :
      (now : Time) (c : Result StoreError (List (OutboxMessage P)))
      → Leaves (Claimed c) (deliver_claimed publish d now c) AllTaken
  unfolding deliver_claimed
  Claimed-Leaves now (err e) = Leaves-Keeps AllTaken (λ x h. h) (λ x h. h) (Keeps-pure _)
  Claimed-Leaves now (ok ms) = deliver_Leaves now ms 0

  run-AllTaken : (now : Time) → Keeps AllTaken (run_once publish d now)
  unfolding run_once
  run-AllTaken now =
      let keeps =
        claim_Keeps now d.batch_size AllTaken T (λ x a e. (a, tt)) (claims now d.batch_size)
          (λ ms x t. t.0) in
      Keeps-Leaves (
        Leaves-bind (Keeps-attempt keeps) (λ x h. h)
          (Ensures-attempt Claimed keeps
            (claim_Ensures now d.batch_size AllTaken T (λ x a e. (a, tt)) (claims now d.batch_size))
            (λ e x h. h))
          (Claimed-Leaves now))

  runs-AllTaken :
      (times : List Time) (w : World (OutboxDb P S))
      → AllTaken w.db
      → AllTaken (run_all publish d times w).db
  unfolding run_all
  runs-AllTaken [] w a = a
  runs-AllTaken (now ∷ later) w a =
      runs-AllTaken later (run_once publish d now w).1 ((run-AllTaken now).at w a)

-- Where the publisher has taken every event for which it answers no error, and loses none, and the
-- rows of an outbox have unique ids, then if every row that is marked as published was taken, with
-- its topic, its key and its body, this is so after any number of runs of the dispatcher, whatever
-- statements fail.
pub published_taken :
    {P S : Type 0} (publish : Publisher P S)
    (Taken : String → String → Option (Envelope P) → S → Type 0)
    (reliable : IsReliable publish Taken) (d : Dispatcher) (times : List Time)
    (w : World (OutboxDb P S))
    → UniqueBy row_id w.db.rows
    → All
        (λ r. is_published r.status ≡ true → Taken r.topic r.event_key r.body w.db.others)
        w.db.rows
    → let w' = run_all publish d times w in
      All
        (λ r. is_published r.status ≡ true → Taken r.topic r.event_key r.body w'.db.others)
        w'.db.rows
published_taken publish Taken reliable d times w unique taken =
    (runs-AllTaken publish Taken reliable d times w (unique, taken)).1
