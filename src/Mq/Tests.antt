-- ===== src/Mq/Tests.antt =====
-- The dispatcher on a small outbox.
use mesh_cart.Base.{
  ◌≡◌, refl, inl, inr, String, List, [], ◌∷◌, true, false, Option, none, some, arith,
}
use mesh_cart.Base.Int.{ℤ, pos, eq_ℤ, leb_ℤ}
use mesh_cart.Base.Lists.{All, any, find, length}
use mesh_cart.Base.Rows.{In}
use mesh_cart.Base.Unique.{UniqueBy}
use mesh_cart.Sql.{World, quiet, ok}
use mesh_cart.App.Time.{Time}
use mesh_cart.Mq.Outbox.{
  Envelope, OutboxRecord, OutboxStatus, outbox_pending, outbox_publishing, outbox_published,
  no_headers,
}
use mesh_cart.Mq.Store.{OutboxDb, row_id, due_rows}
use mesh_cart.Mq.Dispatcher.{Publisher, Dispatcher, new_dispatcher, run_once, run_all}
use mesh_cart.Mq.Delivery.{IsReliable, is_published, published_taken}
use mesh_cart.Mq.Stuck.{publishing_stays}
use mesh_cart.Mq.Marks.{is_done}
use mesh_cart.Mq.Done.{run_once_delivers}

abbrev noon : Time
noon = record { unix = pos 1700000000; nano = 0 }

abbrev row : ℤ → String → OutboxStatus → OutboxRecord String
row id key status = record {
  id = id;
  topic = "payments";
  event_name = "payment.succeeded";
  event_key = key;
  producer = "payment-service";
  headers_json = no_headers;
  body = none;
  status = status;
  retry_count = pos 0;
  max_retries = pos 16;
  next_retry_at = none;
  published_at = none;
}

-- What the broker has taken: topics, keys and bodies.
abbrev Event : Type 0
Event = String × (String × Option (Envelope String))

abbrev Broker : Type 0
Broker = List Event

abbrev append_event : Publisher String Broker
append_event p s = (true, (p.topic, (p.key, p.body)) ∷ s)

abbrev Taken : String → String → Option (Envelope String) → Broker → Type 0
Taken topic key body s = In (topic, (key, body)) s

broker-IsReliable : IsReliable append_event Taken
broker-IsReliable = record { keeps = λ p topic key body s h. inr h; takes = λ p s h. inl refl }

-- A new row, one that was claimed and not marked, and one that was published.
abbrev rows : List (OutboxRecord String)
rows =
    row (pos 1) "1" outbox_pending
    ∷ row (pos 2) "2" outbox_publishing
    ∷ row (pos 3) "3" outbox_published
    ∷ []

abbrev world : World (OutboxDb String Broker)
world = quiet (record { rows = rows; others = ("payments", ("3", none)) ∷ [] }) (λ n. pos n) 0

abbrev dispatcher : Dispatcher
unfolding new_dispatcher
dispatcher = new_dispatcher (pos 0) (pos 0)

rows-Unique : UniqueBy row_id world.db.rows
unfolding eq_ℤ
rows-Unique = (refl, (refl, (refl, tt)))

rows-Taken :
    All
      (λ r. is_published r.status ≡ true → Taken r.topic r.event_key r.body world.db.others)
      world.db.rows
rows-Taken =
    ((λ h. absurd (ground (arith, h))), ((λ h. absurd (ground (arith, h))), ((λ h. inl refl), tt)))

published_taken_example :
    let w' = run_all append_event dispatcher (noon ∷ noon ∷ []) world in
    All
      (λ r. is_published r.status ≡ true → Taken r.topic r.event_key r.body w'.db.others)
      w'.db.rows
published_taken_example =
    published_taken append_event Taken broker-IsReliable dispatcher (noon ∷ noon ∷ []) world
      rows-Unique rows-Taken

abbrev claimed_row : OutboxRecord String
claimed_row = row (pos 2) "2" outbox_publishing

found_claimed : find (λ x. eq_ℤ x.id claimed_row.id) world.db.rows ≡ some claimed_row
unfolding eq_ℤ
found_claimed = refl

publishing_stays_example :
    find
      (λ x. eq_ℤ x.id claimed_row.id)
      (run_all append_event dispatcher (noon ∷ noon ∷ []) world).db.rows
    ≡ some claimed_row
publishing_stays_example =
    publishing_stays append_event dispatcher (noon ∷ noon ∷ []) world claimed_row rows-Unique
      found_claimed refl

positive : All (λ r. leb_ℤ r.id (pos 0) ≡ false) world.db.rows
positive = (refl, (refl, (refl, tt)))

run_once_delivers_example :
    let due = due_rows noon dispatcher.batch_size world.db.rows in
    ((run_once append_event dispatcher noon world).0 ≡ ok (length due, none))
    × All
        (λ r. any (is_done r.id) (run_once append_event dispatcher noon world).1.db.rows ≡ true)
        due
run_once_delivers_example =
    run_once_delivers append_event dispatcher noon world (λ p s. refl) refl
      (refl, (refl, (refl, tt))) positive
