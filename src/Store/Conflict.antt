-- ===== src/Store/Conflict.antt =====
-- internal/store/conflict.go: the three ranks of a record and the rule by which one beats another,
-- and the WHERE clause of upsertEnvelopeSQL (internal/store/upsert.go), which states it in SQL.
pub mod Order
use ulsync_server.Prelude.{Bool, not, ◌&&◌, ◌||◌, Str, str_lt, if◌then◌else◌}
use ulsync_server.Prelude.Int.{ℤ, ltb_ℤ, eqb_ℤ}

pub record Ranks : Type 0 where
  pub last_edited_at_ms : ℤ
  pub revision : ℤ
  pub source_id : Str

-- `Wins`
unfoldable pub wins : Ranks → Ranks → Bool
wins incoming stored =
    if not (eqb_ℤ incoming.last_edited_at_ms stored.last_edited_at_ms)
    then ltb_ℤ stored.last_edited_at_ms incoming.last_edited_at_ms
    else if not (eqb_ℤ incoming.revision stored.revision)
    then ltb_ℤ stored.revision incoming.revision
    else str_lt stored.source_id incoming.source_id

-- The WHERE clause of `upsertEnvelopeSQL`, over `excluded` (the incoming row) and `envelopes` (the
-- stored one). TEXT columns have the BINARY collation.
unfoldable pub where_clause : Ranks → Ranks → Bool
where_clause excluded envelopes =
    ltb_ℤ envelopes.last_edited_at_ms excluded.last_edited_at_ms
    || eqb_ℤ excluded.last_edited_at_ms envelopes.last_edited_at_ms
      && (ltb_ℤ envelopes.revision excluded.revision
          || eqb_ℤ excluded.revision envelopes.revision
            && str_lt envelopes.source_id excluded.source_id)
