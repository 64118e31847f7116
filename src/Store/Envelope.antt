-- ===== src/Store/Envelope.antt =====
-- internal/store/envelope.go, and the `Key` of internal/store/ranks.go.
use ulsync_server.Prelude.{ℕ, ◌≡◌, ◌↔◌, Bool, true, ◌&&◌, List, Str, str_eq, str_eq_iff, arith}
use ulsync_server.Prelude.Int.{ℤ}
use ulsync_server.Store.Conflict.{Ranks}

pub record Envelope : Type 0 where
  pub id : Str
  pub part : Str
  pub entity_type : Str
  pub source_id : Str
  pub payload_encoding : Str
  pub created_at_ms : ℤ
  pub last_edited_at_ms : ℤ
  pub revision : ℤ
  pub flags : ℤ
  pub schema_version : ℤ
  pub payload : List ℕ
  pub server_seq : ℕ

-- `Key`
pub record Key : Type 0 where
  pub id : Str
  pub part : Str

-- Go's `==` on a `Key`, and the comparison of the two columns in SQL.
unfoldable pub key_eq : Key → Key → Bool
key_eq j k = str_eq j.id k.id && str_eq j.part k.part

pub key_eq_iff : (j k : Key) → (key_eq j k ≡ true) ↔ (j ≡ k)
unfolding key_eq
key_eq_iff j k = ground (arith, str_eq_iff j.id k.id, str_eq_iff j.part k.part)

abbrev pub key_of : Envelope → Key
key_of e = record { id = e.id; part = e.part }

-- The ordered part of an envelope.
abbrev pub ranks_of : Envelope → Ranks
ranks_of e = record {
  last_edited_at_ms = e.last_edited_at_ms;
  revision = e.revision;
  source_id = e.source_id;
}
