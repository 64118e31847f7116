-- ===== src/HttpApi/Push.antt =====
-- internal/httpapi/push.go: POST /v1/sync/push. The JSON codec is not modelled: a request comes as
-- the outcome of decoding its body, and a response as its status and the value that is encoded.
pub mod Fields
pub mod Outcome
pub mod Duplicates
use ulsync_server.Prelude.{
  ℕ, ◌≡◌, Bool, true, false, ◌&&◌, ◌||◌, Option, none, some, List, [], ◌∷◌, ◌++◌, Str, codes,
  str_eq, ltb, Result, ok, err, ◌>>=◌, length, any, if◌then◌else◌,
}
use ulsync_server.Prelude.Int.{ℤ, pos, ltb_ℤ, leb_ℤ}
use ulsync_server.Store.Envelope.{Envelope}
use ulsync_server.Store.Db.{Db, Driver, StoreError}
use ulsync_server.Store.Upsert.{upsert_many}
use ulsync_server.HttpApi.Base64.{decode}

abbrev pub max_envelope_id_bytes : ℕ
max_envelope_id_bytes = 128

abbrev pub max_envelope_part_bytes : ℕ
max_envelope_part_bytes = 64

abbrev pub max_envelope_entity_type_bytes : ℕ
max_envelope_entity_type_bytes = 128

abbrev pub max_envelope_source_id_bytes : ℕ
max_envelope_source_id_bytes = 128

abbrev pub max_envelope_payload_encoding_bytes : ℕ
max_envelope_payload_encoding_bytes = 32

-- `wireEnvelope`
pub record WireEnvelope : Type 0 where
  pub id : Str
  pub part : Str
  pub entity_type : Str
  pub created_at_ms : ℤ
  pub last_edited_at_ms : ℤ
  pub revision : ℤ
  pub source_id : Str
  pub flags : ℤ
  pub schema_version : ℤ
  pub payload_encoding : Str
  pub payload : Str
  pub server_seq : Option ℤ

-- What `json.NewDecoder(r.Body).Decode` makes of a body, for the `pushRequest` with its envelopes.
pub data Decoded (A : Type 0) : Type 0 where
  too_large : Decoded A
  malformed : Decoded A
  decoded : List A → Decoded A

pub data Field : Type 0 where
  id part entity_type source_id payload_encoding created_at_ms last_edited_at_ms revision payload :
      Field

-- A name that must not be empty and has a limit in bytes.
unfoldable pub bad_name : Str → ℕ → Bool
bad_name s limit = str_eq s [] || ltb limit (length s)

-- `validateWireEnvelope`; `none` is its "".
unfoldable pub validate_wire_envelope : WireEnvelope → Option Field
validate_wire_envelope w =
    if bad_name w.id max_envelope_id_bytes
    then some id
    else if bad_name w.part max_envelope_part_bytes
    then some part
    else if bad_name w.entity_type max_envelope_entity_type_bytes
    then some entity_type
    else if bad_name w.source_id max_envelope_source_id_bytes
    then some source_id
    else if bad_name w.payload_encoding max_envelope_payload_encoding_bytes
    then some payload_encoding
    else if leb_ℤ w.created_at_ms (pos 0)
    then some created_at_ms
    else if leb_ℤ w.last_edited_at_ms (pos 0)
    then some last_edited_at_ms
    else if ltb_ℤ w.revision (pos 1)
    then some revision
    else if str_eq w.payload []
    then some payload
    else none

unfoldable pub to_envelope : WireEnvelope → List ℕ → Envelope
to_envelope w bytes = record {
  id = w.id;
  part = w.part;
  entity_type = w.entity_type;
  source_id = w.source_id;
  payload_encoding = w.payload_encoding;
  created_at_ms = w.created_at_ms;
  last_edited_at_ms = w.last_edited_at_ms;
  revision = w.revision;
  flags = w.flags;
  schema_version = w.schema_version;
  payload = bytes;
  server_seq = 0;
}

-- `wireToEnvelope`; the error is the field's name.
unfoldable pub wire_to_envelope : WireEnvelope → Result Field Envelope
unfolding to_envelope
wire_to_envelope w = elim (validate_wire_envelope w) [
  | some field ↦ err field
  | none ↦ elim (decode w.payload) [ none ↦ err payload | some bytes ↦ ok (to_envelope w bytes) ]
]

-- `pushResult`
pub record PushResult : Type 0 where
  pub id : Str
  pub part : Str
  pub applied : Bool

pub data PushBody : Type 0 where
  body_too_large invalid_json no_envelopes duplicate_envelope_key storage_unavailable : PushBody
  too_many_envelopes : ℤ → PushBody
  invalid_envelope : Field → PushBody
  push_response : List PushResult → ℤ → PushBody

pub record Response (B : Type 0) : Type 0 where
  pub status : ℕ
  pub body : B

-- `wire.ID + "\x00" + wire.Part`
unfoldable pub dup_key : WireEnvelope → Str
dup_key w = w.id ++ 0 ∷ w.part

-- The loop that validates the batch; `seen` holds the keys before.
unfoldable pub prepare : List Str → List WireEnvelope → Result PushBody (List Envelope)
prepare seen [] = ok []
prepare seen (w ∷ ws) =
    if any (str_eq (dup_key w)) seen
    then err duplicate_envelope_key
    else elim (wire_to_envelope w) [
      | err field ↦ err (invalid_envelope field)
      | ok env ↦ elim (prepare (dup_key w ∷ seen) ws) [
        | err body ↦ err body
        | ok rest ↦ ok (env ∷ rest)
      ]
    ]

-- The loop over `results`.
unfoldable pub results_of : List Envelope → List Bool → List PushResult
results_of (env ∷ envs) (a ∷ applied) =
    record { id = env.id; part = env.part; applied = a } ∷ results_of envs applied
results_of _ _ = []

-- What a push does: the tables after it, whether it calls `Notify` for its user, and the response.
pub record Pushed : Type 0 where
  pub db : Db
  pub notified : Bool
  pub response : Response PushBody

unfoldable pub refused : Db → ℕ → PushBody → Pushed
refused db status body = record {
  db = db;
  notified = false;
  response = record { status = status; body = body };
}

-- After the storage call.
unfoldable pub respond : ℤ → List Envelope → Db × Result StoreError (List Bool) → Pushed
unfolding refused results_of
respond now envs (db, err e) = refused db 503 storage_unavailable
respond now envs (db, ok applied) = record {
  db = db;
  notified = any (λ a. a) applied;
  response = record { status = 200; body = push_response (results_of envs applied) now };
}

unfoldable pub store_batch : Driver → Str → ℤ → Db → Result PushBody (List Envelope) → Pushed
unfolding refused
store_batch driver user_id now db (err body) = refused db 400 body
store_batch driver user_id now db (ok envs) = respond now envs (upsert_many driver user_id envs db)

-- `pushHandler`, for the user of the bearer token and at the time `now`.
unfoldable pub push_handler : Driver → ℤ → Str → ℤ → Decoded WireEnvelope → Db → Pushed
unfolding store_batch
push_handler driver max_envelopes user_id now too_large db = refused db 413 body_too_large
push_handler driver max_envelopes user_id now malformed db = refused db 400 invalid_json
push_handler driver max_envelopes user_id now (decoded []) db = refused db 400 no_envelopes
push_handler driver max_envelopes user_id now (decoded (w ∷ ws)) db =
    if ltb_ℤ max_envelopes (pos (length (w ∷ ws)))
    then refused db 413 (too_many_envelopes max_envelopes)
    else store_batch driver user_id now db (prepare [] (w ∷ ws))
