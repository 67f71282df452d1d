-- ===== src/Mq/Store.antt =====
-- app/mq/gorm_store.go: the store of a dispatcher, an outbox table. Rows that another transaction has
-- locked are skipped by the query; here transactions run one after the other. The store and its table
-- name are taken to be there.
use mesh_cart.Base.{
  String, List, [], ◌∷◌, Bool, true, false, Option, none, some, map, not, ◌&&◌, if◌then◌else◌,
}
use mesh_cart.Base.Int.{ℤ, pos, pos_part, leb_ℤ, ltb_ℤ, eq_ℤ}
use mesh_cart.Base.Lists.{select, sort_by, take, update_where, mem_ℤ}
use mesh_cart.App.Time.{Time, before}
use mesh_cart.Sql.{Fault, Query, pure, ◌>>=◌, ◌>>◌, read, write, map_err, or_raise, transaction}
use mesh_cart.Mq.Outbox.{
  Envelope, OutboxRecord, OutboxStatus, outbox_pending, outbox_publishing, outbox_published,
  outbox_failed, outbox_other, HeadersJson, no_headers, headers, malformed,
}

pub record OutboxMessage (P : Type 0) : Type 0 where
  pub id : ℤ
  pub topic : String
  pub event_name : String
  pub event_key : String
  pub producer : String
  pub message_headers : List (String × String)
  pub body : Option (Envelope P)
  pub retry_count : ℤ
  pub max_retries : ℤ

-- The table, beside the state `S` of the publisher.
pub record OutboxDb (P S : Type 0) : Type 0 where
  pub rows : List (OutboxRecord P)
  pub others : S

pub data StoreError : Type 0 where
  bad_headers : StoreError
  driver : Fault → StoreError

abbrev pub is_claimable : OutboxStatus → Bool
is_claimable outbox_pending = true
is_claimable outbox_failed = true
is_claimable outbox_publishing = false
is_claimable outbox_published = false
is_claimable (outbox_other _) = false

-- `next_retry_at IS NULL OR next_retry_at <= ?`
abbrev pub is_time : Time → Option Time → Bool
is_time now none = true
is_time now (some t) = not (before now t)

abbrev pub decode_headers : HeadersJson → Option (List (String × String))
decode_headers no_headers = some []
decode_headers (headers hs) = some hs
decode_headers malformed = none

module _ {P : Type 0} where
  -- The condition of the query.
  abbrev pub is_due : Time → OutboxRecord P → Bool
  is_due now r =
      is_claimable r.status && ltb_ℤ r.retry_count r.max_retries && is_time now r.next_retry_at

  abbrev pub row_id : OutboxRecord P → ℤ
  row_id r = r.id

  abbrev pub due_rows : Time → ℤ → List (OutboxRecord P) → List (OutboxRecord P)
  due_rows now limit rows = take (pos_part limit) (sort_by row_id (select (is_due now) rows))

  abbrev pub message_of : OutboxRecord P → List (String × String) → OutboxMessage P
  message_of r hs = record {
    id = r.id;
    topic = r.topic;
    event_name = r.event_name;
    event_key = r.event_key;
    producer = r.producer;
    message_headers = hs;
    body = r.body;
    retry_count = r.retry_count;
    max_retries = r.max_retries;
  }

  abbrev pub cons_decoded :
      OutboxRecord P
      → Option (List (String × String))
      → Option (List (OutboxMessage P))
      → Option (List (OutboxMessage P))
  cons_decoded r none ms = none
  cons_decoded r (some hs) none = none
  cons_decoded r (some hs) (some ms) = some (message_of r hs ∷ ms)

  unfoldable pub decode_rows : List (OutboxRecord P) → Option (List (OutboxMessage P))
  decode_rows [] = some []
  decode_rows (r ∷ rs) = cons_decoded r (decode_headers r.headers_json) (decode_rows rs)

  abbrev pub set_publishing : OutboxRecord P → OutboxRecord P
  set_publishing r = record r { status = outbox_publishing; next_retry_at = none }

  abbrev pub set_published : Time → OutboxRecord P → OutboxRecord P
  set_published at r = record r { status = outbox_published; published_at = some at }

  abbrev pub set_failed : ℤ → Time → OutboxRecord P → OutboxRecord P
  set_failed retry_count at r = record r {
    status = outbox_failed;
    retry_count = retry_count;
    next_retry_at = some at;
  }

module _ {P S : Type 0} where
  -- `WHERE id IN ?`
  unfoldable pub claim_rows : List ℤ → Query (OutboxDb P S) StoreError Unit
  claim_rows ids =
      map_err driver
        (write λ d. record d { rows = update_where (λ r. mem_ℤ r.id ids) set_publishing d.rows })

  unfoldable pub claim_some :
      List (OutboxRecord P) → Query (OutboxDb P S) StoreError (List (OutboxMessage P))
  claim_some [] = pure []
  claim_some (r ∷ rs) = do
    messages ← or_raise (decode_rows (r ∷ rs)) bad_headers
    claim_rows (map row_id (r ∷ rs))
    pure messages

  unfoldable pub claim_pending : Time → ℤ → Query (OutboxDb P S) StoreError (List (OutboxMessage P))
  claim_pending now limit =
      if leb_ℤ limit (pos 0)
      then pure []
      else transaction driver
          (do found ← map_err driver (read λ d. due_rows now limit d.rows); claim_some found)

  unfoldable pub mark_published : ℤ → Time → Query (OutboxDb P S) StoreError Unit
  mark_published id at =
      if leb_ℤ id (pos 0)
      then pure tt
      else map_err driver (
          write λ d. record d { rows = update_where (λ r. eq_ℤ r.id id) (set_published at) d.rows })

  unfoldable pub mark_failed : ℤ → ℤ → Time → Query (OutboxDb P S) StoreError Unit
  mark_failed id retry_count at =
      if leb_ℤ id (pos 0)
      then pure tt
      else map_err driver (
          write λ d. record d {
            rows = update_where (λ r. eq_ℤ r.id id) (set_failed retry_count at) d.rows;
          })
