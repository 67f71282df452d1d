-- ===== src/Mq/Dispatcher.antt =====
-- app/mq/dispatcher.go: `RunOnce`. The dispatcher, its store and its publisher are taken to be there;
-- the publisher is an operation on a state `S` of its own, which answers an error or none.
use mesh_cart.Base.{
  ℕ, suc, String, List, [], ◌∷◌, Bool, true, false, Option, none, some, if◌then◌else◌,
}
use mesh_cart.Base.Int.{ℤ, pos, ◌+ℤ◌, leb_ℤ}
use mesh_cart.App.Time.{Time, add_seconds}
use mesh_cart.Sql.{World, Query, Result, ok, err, pure, ◌>>=◌, attempt}
use mesh_cart.Mq.Outbox.{Envelope}
use mesh_cart.Mq.Store.{
  OutboxMessage, OutboxDb, StoreError, claim_pending, mark_published, mark_failed,
}

-- What is handed to `Publish`: the topic, the key, the body and the headers.
pub record Publication (P : Type 0) : Type 0 where
  pub topic : String
  pub key : String
  pub body : Option (Envelope P)
  pub publication_headers : List (String × String)

abbrev pub publication : {P : Type 0} → OutboxMessage P → Publication P
publication m = record {
  topic = m.topic;
  key = m.event_key;
  body = m.body;
  publication_headers = m.message_headers;
}

-- `Publish`, and whether it succeeded.
abbrev pub Publisher : Type 0 → Type 0 → Type 0
Publisher P S = Publication P → S → Bool × S

-- What `NewDispatcher` makes of its arguments, in seconds.
pub record Dispatcher : Type 0 where
  pub batch_size : ℤ
  pub retry_backoff : ℤ

unfoldable pub new_dispatcher : ℤ → ℤ → Dispatcher
new_dispatcher batch_size retry_backoff = record {
  batch_size = if leb_ℤ batch_size (pos 0) then pos 100 else batch_size;
  retry_backoff = if leb_ℤ retry_backoff (pos 0) then pos 5 else retry_backoff;
}

module _ {P S : Type 0} (publish : Publisher P S) (d : Dispatcher) (now : Time) where
  unfoldable pub send : Publication P → Query (OutboxDb P S) StoreError Bool
  send p w =
      let (sent, s) = publish p w.db.others in
      (ok sent, record w { db = record w.db { others = s } })

  unfoldable pub mark : OutboxMessage P → Bool → Query (OutboxDb P S) StoreError Unit
  mark m true = mark_published m.id now
  mark m false = mark_failed m.id (m.retry_count +ℤ pos 1) (add_seconds d.retry_backoff now)

  -- An error of a mark ends the run; the count of the messages that were sent is answered with it.
  unfoldable pub after_mark :
      ℕ
      → Query (OutboxDb P S) StoreError (ℕ × Option StoreError)
      → Result StoreError Unit
      → Query (OutboxDb P S) StoreError (ℕ × Option StoreError)
  after_mark processed rest (ok _) = rest
  after_mark processed rest (err e) = pure (processed, some e)

  unfoldable pub deliver_all :
      List (OutboxMessage P) → ℕ → Query (OutboxDb P S) StoreError (ℕ × Option StoreError)
  deliver_all [] processed = pure (processed, none)
  deliver_all (m ∷ ms) processed = do
    sent ← send (publication m)
    marked ← attempt (mark m sent)
    after_mark (suc processed) (deliver_all ms (suc processed)) marked

  unfoldable pub deliver_claimed :
      Result StoreError (List (OutboxMessage P))
      → Query (OutboxDb P S) StoreError (ℕ × Option StoreError)
  deliver_claimed (err e) = pure (0, some e)
  deliver_claimed (ok messages) = deliver_all messages 0

  unfoldable pub run_once : Query (OutboxDb P S) StoreError (ℕ × Option StoreError)
  run_once = do claimed ← attempt (claim_pending now d.batch_size); deliver_claimed claimed

module _ {P S : Type 0} (publish : Publisher P S) (d : Dispatcher) where
  -- Runs at some times, one after the other.
  unfoldable pub run_all : List Time → World (OutboxDb P S) → World (OutboxDb P S)
  run_all [] w = w
  run_all (now ∷ later) w = run_all later (run_once publish d now w).1
