-- ===== src/HttpApi/Page/Resend.antt =====
-- A pulled envelope of internal/httpapi/pull.go that a client pushes again.
use ulsync_server.Prelude.{ℕ, ◌≡◌, none, some, ok, List, ℕ, arith, All}
use ulsync_server.Prelude.Int.{pos}
use ulsync_server.Store.Envelope.{Envelope}
use ulsync_server.HttpApi.Base64.{encode, decode, IsByte, decode-encode}
use ulsync_server.HttpApi.Push.{WireEnvelope, validate_wire_envelope, to_envelope, wire_to_envelope}
use ulsync_server.HttpApi.Page.{PullEnvelope, to_pull_envelope}

-- The JSON object of a pulled envelope, read as an envelope of a push.
unfoldable pub resent : PullEnvelope → WireEnvelope
resent p = record {
  id = p.id;
  part = p.part;
  entity_type = p.entity_type;
  created_at_ms = p.created_at_ms;
  last_edited_at_ms = p.last_edited_at_ms;
  revision = p.revision;
  source_id = p.source_id;
  flags = p.flags;
  schema_version = p.schema_version;
  payload_encoding = p.payload_encoding;
  payload = encode p.payload;
  server_seq = some (pos p.server_seq);
}

converted :
    (w : WireEnvelope) (bytes : List ℕ)
    → validate_wire_envelope w ≡ none
    → decode w.payload ≡ some bytes
    → wire_to_envelope w ≡ ok (to_envelope w bytes)
unfolding wire_to_envelope
converted w bytes valid read = ground (arith, valid, read)

-- An envelope of a pull that passes the checks of a push is read back as the stored one, but for
-- its number, if its payload consists of bytes.
pub wire_to_envelope-resent :
    (e : Envelope)
    → All IsByte e.payload
    → validate_wire_envelope (resent (to_pull_envelope e)) ≡ none
    → wire_to_envelope (resent (to_pull_envelope e)) ≡ ok (record e { server_seq = 0 })
unfolding resent to_pull_envelope to_envelope
wire_to_envelope-resent e bytes valid =
    converted (resent (to_pull_envelope e)) e.payload valid (decode-encode e.payload bytes)
