-- ===== src/HttpApi/Push/Fields.antt =====
-- Which envelopes internal/httpapi/push.go takes.
use ulsync_server.Prelude.{
  ℕ, ◌≤◌, ◌≡◌, ◌↔◌, ap, false, none, some, List, [], ◌∷◌, Str, str_eq, arith, ok, length, inl, inr,
  Option-cases,
}
use ulsync_server.Prelude.Int.{pos, ◌≤ℤ◌, ◌<ℤ◌}
use ulsync_server.Store.Envelope.{Envelope}
use ulsync_server.HttpApi.Base64.{decode}
use ulsync_server.HttpApi.Push.{
  WireEnvelope, bad_name, validate_wire_envelope, wire_to_envelope, to_envelope,
  max_envelope_id_bytes, max_envelope_part_bytes, max_envelope_entity_type_bytes,
  max_envelope_source_id_bytes, max_envelope_payload_encoding_bytes,
}

-- Between one byte and the limit.
abbrev pub Fits : Str → ℕ → Type 0
Fits s limit = (1 ≤ length s) × (length s ≤ limit)

pub record WellFormed (w : WireEnvelope) : Type 0 where
  pub id : Fits w.id max_envelope_id_bytes
  pub part : Fits w.part max_envelope_part_bytes
  pub entity_type : Fits w.entity_type max_envelope_entity_type_bytes
  pub source_id : Fits w.source_id max_envelope_source_id_bytes
  pub payload_encoding : Fits w.payload_encoding max_envelope_payload_encoding_bytes
  pub created_at_ms : pos 0 <ℤ w.created_at_ms
  pub last_edited_at_ms : pos 0 <ℤ w.last_edited_at_ms
  pub revision : pos 1 ≤ℤ w.revision
  pub payload : 1 ≤ length w.payload

-- Every field is the one of the request, but for the payload, which holds the decoded bytes, and for
-- the number, which is 0.
pub record Copied (w : WireEnvelope) (bytes : List ℕ) (e : Envelope) : Type 0 where
  pub id : e.id ≡ w.id
  pub part : e.part ≡ w.part
  pub entity_type : e.entity_type ≡ w.entity_type
  pub source_id : e.source_id ≡ w.source_id
  pub payload_encoding : e.payload_encoding ≡ w.payload_encoding
  pub created_at_ms : e.created_at_ms ≡ w.created_at_ms
  pub last_edited_at_ms : e.last_edited_at_ms ≡ w.last_edited_at_ms
  pub revision : e.revision ≡ w.revision
  pub flags : e.flags ≡ w.flags
  pub schema_version : e.schema_version ≡ w.schema_version
  pub payload : e.payload ≡ bytes
  pub server_seq : e.server_seq ≡ 0

to_envelope-Copied :
    (w : WireEnvelope) (bytes : List ℕ) (e : Envelope) → e ≡ to_envelope w bytes → Copied w bytes e
unfolding to_envelope
to_envelope-Copied w bytes e same = record {
  id = ap (λ x. x.id) same;
  part = ap (λ x. x.part) same;
  entity_type = ap (λ x. x.entity_type) same;
  source_id = ap (λ x. x.source_id) same;
  payload_encoding = ap (λ x. x.payload_encoding) same;
  created_at_ms = ap (λ x. x.created_at_ms) same;
  last_edited_at_ms = ap (λ x. x.last_edited_at_ms) same;
  revision = ap (λ x. x.revision) same;
  flags = ap (λ x. x.flags) same;
  schema_version = ap (λ x. x.schema_version) same;
  payload = ap (λ x. x.payload) same;
  server_seq = ap (λ x. x.server_seq) same;
}

Copied-to_envelope :
    (w : WireEnvelope) (bytes : List ℕ) (e : Envelope) → Copied w bytes e → e ≡ to_envelope w bytes
unfolding to_envelope
Copied-to_envelope w bytes e c = λ i. record {
  id = c.id i;
  part = c.part i;
  entity_type = c.entity_type i;
  source_id = c.source_id i;
  payload_encoding = c.payload_encoding i;
  created_at_ms = c.created_at_ms i;
  last_edited_at_ms = c.last_edited_at_ms i;
  revision = c.revision i;
  flags = c.flags i;
  schema_version = c.schema_version i;
  payload = c.payload i;
  server_seq = c.server_seq i;
}

bad_name-false : (s : Str) (limit : ℕ) → (bad_name s limit ≡ false) ↔ Fits s limit
unfolding bad_name str_eq
bad_name-false [] limit = (λ h. ground arith, λ h. absurd (omega arith))
bad_name-false (a ∷ s) limit = ground arith

str_eq-nil : (s : Str) → (str_eq s [] ≡ false) ↔ (1 ≤ length s)
unfolding str_eq
str_eq-nil [] = (λ h. ground arith, λ h. absurd (omega arith))
str_eq-nil (a ∷ s) = ground arith

module _ (w : WireEnvelope) where
  validate-WellFormed : validate_wire_envelope w ≡ none → WellFormed w
  unfolding validate_wire_envelope
  validate-WellFormed h = record {
    id = (bad_name-false w.id _).0 (ground arith);
    part = (bad_name-false w.part _).0 (ground arith);
    entity_type = (bad_name-false w.entity_type _).0 (ground arith);
    source_id = (bad_name-false w.source_id _).0 (ground arith);
    payload_encoding = (bad_name-false w.payload_encoding _).0 (ground arith);
    created_at_ms = ground arith;
    last_edited_at_ms = ground arith;
    revision = ground arith;
    payload = (str_eq-nil w.payload).0 (ground arith);
  }

  WellFormed-validate : WellFormed w → validate_wire_envelope w ≡ none
  unfolding validate_wire_envelope
  WellFormed-validate h = ground (
    arith,
    (bad_name-false w.id _).1 h.id,
    (bad_name-false w.part _).1 h.part,
    (bad_name-false w.entity_type _).1 h.entity_type,
    (bad_name-false w.source_id _).1 h.source_id,
    (bad_name-false w.payload_encoding _).1 h.payload_encoding,
    h.created_at_ms,
    h.last_edited_at_ms,
    h.revision,
    (str_eq-nil w.payload).1 h.payload,
  )

-- An envelope is converted exactly if every field is in its range and the payload is base64, and
-- then each field is that of the request, but for the payload, which holds the decoded bytes, and
-- the number, which is 0.
pub wire_to_envelope_iff :
    (w : WireEnvelope) (e : Envelope)
    → (wire_to_envelope w ≡ ok e)
      ↔ (WellFormed w × ((bytes : List ℕ) × (decode w.payload ≡ some bytes) × Copied w bytes e))
unfolding wire_to_envelope
wire_to_envelope_iff w e = (
  λ h. elim (Option-cases (validate_wire_envelope w)) [
    | inr (f, bad) ↦ absurd (ground arith)
    | inl good ↦ elim (Option-cases (decode w.payload)) [
      | inl bad ↦ absurd (ground arith)
      | inr (bytes, read) ↦
          let same : e ≡ to_envelope w bytes = ground arith in
          (validate-WellFormed w good, (bytes, read, to_envelope-Copied w bytes e same))
    ]
  ],
  λ (wf, (bytes, read, c)).
      ground (arith, WellFormed-validate w wf, read, Copied-to_envelope w bytes e c),
)
