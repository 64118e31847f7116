-- ===== src/Store/Conflict/Order.antt =====
-- The conflict rule of internal/store/conflict.go is a strict total order on ranks, and the SQL of
-- internal/store/upsert.go states the same rule.
use ulsync_server.Prelude.{◌≡◌, true, false, arith, str_lt_irrefl, str_lt_trans, str_lt_tri}
use ulsync_server.Prelude.Int.{eq_of_parts}
use ulsync_server.Store.Conflict.{Ranks, wins, where_clause}

-- Wins and the WHERE clause of the upsert agree on every pair of ranks.
pub wins-where_clause : (a b : Ranks) → wins a b ≡ where_clause a b
unfolding wins where_clause
wins-where_clause a b = ground arith

pub wins_irrefl : (a : Ranks) → wins a a ≡ false
unfolding wins
wins_irrefl a = ground (arith, str_lt_irrefl a.source_id)

pub wins_trans : (a b c : Ranks) → wins a b ≡ true → wins b c ≡ true → wins a c ≡ true
unfolding wins
wins_trans a b c h k = ground (arith, str_lt_trans c.source_id b.source_id a.source_id)

pub wins_tri : (a b : Ranks) → wins a b ≡ false → wins b a ≡ false → a ≡ b
unfolding wins
wins_tri a b h k = ground (
  arith,
  str_lt_tri a.source_id b.source_id,
  eq_of_parts a.last_edited_at_ms b.last_edited_at_ms,
  eq_of_parts a.revision b.revision,
)

pub wins_asym : (a b : Ranks) → wins a b ≡ true → wins b a ≡ false
wins_asym a b h = ground (arith, wins_trans a b a, wins_irrefl a)
