-- ===== src/Mq/Outbox.antt =====
-- app/mq/outbox.go and app/mq/envelope.go: the rows of an outbox table, and the envelope that their
-- body is the JSON text of. The texts are kept as what they encode: the body as its envelope, or none
-- for no bytes, and the payload likewise. The column last_error is left out: no code reads it.
use mesh_cart.Base.{String, List, Bool, true, false, Option, none, some, not, ◌&&◌, ◌||◌}
use mesh_cart.Base.Int.{ℤ, pos, negsuc, leb_ℤ, ltb_ℤ}
use mesh_cart.Base.Text.{trim_space, is_blank}
use mesh_cart.App.Time.{Time, is_zero}

pub record Envelope (P : Type 0) : Type 0 where
  pub id : String
  pub event_name : String
  pub topic : String
  pub key : String
  pub producer : String
  pub version : ℤ
  pub occurred_at : Time
  pub payload : Option P

abbrev pub is_none : {A : Type 0} → Option A → Bool
is_none none = true
is_none (some a) = false

-- `Validate`
unfoldable pub validate : {P : Type 0} → Envelope P → Bool
validate e = not (
    is_blank (trim_space e.id)
    || is_blank (trim_space e.event_name)
    || is_blank (trim_space e.topic)
    || is_blank (trim_space e.producer)
    || leb_ℤ e.version (pos 0)
    || is_zero e.occurred_at
    || is_none e.payload)

-- `Time.MarshalJSON` fails for a year outside of 0 to 9999; the years are those of UTC.
abbrev pub is_json_time : Time → Bool
is_json_time t = leb_ℤ (negsuc 62167219199) t.unix && ltb_ℤ t.unix (pos 253402300800)

-- `MarshalEnvelope`
unfoldable pub marshal_envelope : {P : Type 0} → Envelope P → Option (Envelope P)
unfolding validate
marshal_envelope e = elim (validate e && is_json_time e.occurred_at) [
  | true ↦ some e
  | false ↦ none
]

-- The column `status`.
pub data OutboxStatus : Type 0 where
  outbox_pending outbox_publishing outbox_published outbox_failed : OutboxStatus
  outbox_other : String → OutboxStatus

-- The column headers_json: no bytes, the JSON text of some headers, or another text.
pub data HeadersJson : Type 0 where
  no_headers : HeadersJson
  headers : List (String × String) → HeadersJson
  malformed : HeadersJson

pub record OutboxRecord (P : Type 0) : Type 0 where
  pub id : ℤ
  pub topic : String
  pub event_name : String
  pub event_key : String
  pub producer : String
  pub headers_json : HeadersJson
  pub body : Option (Envelope P)
  pub status : OutboxStatus
  pub retry_count : ℤ
  pub max_retries : ℤ
  pub next_retry_at : Option Time
  pub published_at : Option Time
