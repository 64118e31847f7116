-- ===== src/Config/Origin.antt =====
-- `ValidateOrigin` of internal/config/config.go.
use ulsync_server.Prelude.{
  ℕ, Bool, true, false, ◌&&◌, ◌||◌, [], ◌∷◌, Str, str_eq, ltb, leb, ◌==◌, length, if◌then◌else◌,
}

abbrev pub max_origin_len : ℕ
max_origin_len = 256

unfoldable pub origin_char : ℕ → Bool
origin_char r =
    leb b'A' r && leb r b'Z'
    || leb b'a' r && leb r b'z'
    || leb b'0' r && leb r b'9'
    || r == b'.'
    || r == b'_'
    || r == b'/'
    || r == b'-'

unfoldable pub all_origin_chars : Str → Bool
unfolding origin_char
all_origin_chars [] = true
all_origin_chars (r ∷ s) = origin_char r && all_origin_chars s

-- `ValidateOrigin`, true for nil. A character beyond ASCII is outside the class, as each of its
-- bytes is.
unfoldable pub validate_origin : Str → Bool
unfolding all_origin_chars
validate_origin origin =
    if str_eq origin []
    then true
    else if ltb max_origin_len (length origin)
    then false
    else all_origin_chars origin
