-- ===== src/Tests/Data.antt =====
-- Sample records, tables and drivers.
use ulsync_server.Prelude.{ℕ, true, [], ◌∷◌, none, Str, codes}
use ulsync_server.Prelude.Int.{pos}
use ulsync_server.Store.Envelope.{Envelope, Key}
use ulsync_server.Store.Db.{Db, Driver}
use ulsync_server.HttpApi.Push.{WireEnvelope}
use ulsync_server.HttpApi.Diff.{DiffItem}

abbrev pub ann : Str
ann = codes "ann"

abbrev pub bob : Str
bob = codes "bob"

-- A note edited at the given time.
abbrev pub note : Str → ℕ → Envelope
note id at = record {
  id = id;
  part = codes "full";
  entity_type = codes "note";
  source_id = codes "phone";
  payload_encoding = codes "json";
  created_at_ms = pos 5;
  last_edited_at_ms = pos at;
  revision = pos 1;
  flags = pos 0;
  schema_version = pos 1;
  payload = 123 ∷ 125 ∷ [];
  server_seq = 0;
}

abbrev pub key : Str → Key
key id = record { id = id; part = codes "full" }

abbrev pub no_rows : Db
no_rows = record { users = []; envelopes = []; meta = [] }

abbrev pub answering : Driver
answering = record {
  begins = true;
  allocates = λ i. true;
  upserts = λ i. true;
  commits = true;
  reads = true;
  writes = true;
}

-- `{}` in base64.
abbrev pub wire : Str → ℕ → WireEnvelope
wire id at = record {
  id = id;
  part = codes "full";
  entity_type = codes "note";
  created_at_ms = pos 5;
  last_edited_at_ms = pos at;
  revision = pos 1;
  source_id = codes "phone";
  flags = pos 0;
  schema_version = pos 1;
  payload_encoding = codes "json";
  payload = codes "e30=";
  server_seq = none;
}

abbrev pub item : Str → ℕ → DiffItem
item id at = record {
  id = id;
  part = codes "full";
  last_edited_at_ms = pos at;
  revision = pos 1;
  source_id = codes "phone";
}
