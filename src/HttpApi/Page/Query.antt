-- ===== src/HttpApi/Page/Query.antt =====
-- The query parameters of internal/httpapi/pull.go.
use ulsync_server.Prelude.{
  all_digits, digits_value, ℕ, ◌^◌, ◌≤◌, ◌<◌, ◌≡◌, ◌≢◌, ◌↔◌, true, [], Str, str_eq_iff, arith, ok,
}
use ulsync_server.Prelude.Decimal.{decimal, all_digits-decimal, digits_value-decimal, decimal_ne}
use ulsync_server.HttpApi.Page.{
  value, parse_non_negative_query_int, PullQuery, bound_limit, parse_query,
}

-- A number is parsed exactly from a string that is not empty, has digits only and denotes the
-- number, which is below 2^63.
pub parse_int_iff :
    (raw : Str) (n : ℕ)
    → (parse_non_negative_query_int raw ≡ value n)
      ↔ ((raw ≢ []) × (all_digits raw ≡ true) × (digits_value 0 raw ≡ n) × (n < 2 ^ 63))
unfolding parse_non_negative_query_int
parse_int_iff raw n = ground (arith, str_eq_iff raw [])

-- A cursor below 2^63, written in decimal, is parsed to itself.
pub parse-decimal : (n : ℕ) → n < 2 ^ 63 → parse_non_negative_query_int (decimal 19 n) ≡ value n
parse-decimal n h =
    (parse_int_iff (decimal 19 n) n).1
      (decimal_ne 19 n, all_digits-decimal 19 n, digits_value-decimal 19 n (omega arith), h)

-- The limit of an accepted query is at least 1 and at most the configured maximum, if that is at
-- least 1.
pub parse_query-limit :
    (default_limit max_limit : ℕ) (s n l : Str) (q : PullQuery)
    → 0 < max_limit
    → parse_query default_limit max_limit s n l ≡ ok q
    → (0 < q.limit) × (q.limit ≤ max_limit)
unfolding parse_query bound_limit
parse_query-limit default_limit max_limit s n l q h e = ground arith
