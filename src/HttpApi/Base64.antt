-- ===== src/HttpApi/Base64.antt =====
-- base64.StdEncoding, which internal/httpapi/push.go decodes payloads with and which the JSON
-- encoder of internal/httpapi/pull.go writes them with: RFC 4648 section 4, with padding.
use ulsync_server.Prelude.{
  ℕ, ◌+◌, ◌-◌, ◌*◌, ◌/◌, ◌%◌, ◌<◌, ◌≡◌, refl, ap, ap₂, ◌∙◌, Bool, ◌&&◌, ◌||◌, false, Option, none,
  some, List, [], ◌∷◌, Str, arith, leb, ltb, ◌==◌, if◌then◌else◌, All,
}

-- The character of six bits.
unfoldable pub to_char : ℕ → ℕ
to_char v =
    if ltb v 26
    then v + b'A'
    else if ltb v 52
    then v - 26 + b'a'
    else if ltb v 62
    then v - 52 + b'0'
    else if v == 62
    then b'+'
    else b'/'

unfoldable pub of_char : ℕ → Option ℕ
of_char c =
    if leb b'A' c && leb c b'Z'
    then some (c - b'A')
    else if leb b'a' c && leb c b'z'
    then some (c - b'a' + 26)
    else if leb b'0' c && leb c b'9'
    then some (c - b'0' + 52)
    else if c == b'+'
    then some 62
    else if c == b'/'
    then some 63
    else none

unfoldable pub encode : List ℕ → Str
unfolding to_char
encode [] = []
encode (a ∷ []) = to_char (a / 4) ∷ to_char (a % 4 * 16) ∷ b'=' ∷ b'=' ∷ []
encode (a ∷ b ∷ []) =
    to_char (a / 4) ∷ to_char (a % 4 * 16 + b / 16) ∷ to_char (b % 16 * 4) ∷ b'=' ∷ []
encode (a ∷ b ∷ c ∷ rest) =
    to_char (a / 4)
    ∷ to_char (a % 4 * 16 + b / 16)
    ∷ to_char (b % 16 * 4 + c / 64)
    ∷ to_char (c % 64)
    ∷ encode rest

unfoldable pub is_break : ℕ → Bool
is_break c = c == 10 || c == 13

-- The decoder skips line breaks.
unfoldable pub strip : Str → Str
unfolding is_break
strip [] = []
strip (c ∷ s) = let rest = strip s in if is_break c then rest else c ∷ rest

one_byte : Option ℕ → Option ℕ → Option (List ℕ)
one_byte (some p) (some q) = some ((p * 4 + q / 16) ∷ [])
one_byte _ _ = none

two_bytes : Option ℕ → Option ℕ → Option ℕ → Option (List ℕ)
two_bytes (some p) (some q) (some r) = some ((p * 4 + q / 16) ∷ (q % 16 * 16 + r / 4) ∷ [])
two_bytes _ _ _ = none

three_bytes : Option ℕ → Option ℕ → Option ℕ → Option ℕ → Option (List ℕ) → Option (List ℕ)
three_bytes (some p) (some q) (some r) (some s) (some rest) =
    some ((p * 4 + q / 16) ∷ (q % 16 * 16 + r / 4) ∷ (r % 4 * 64 + s) ∷ rest)
three_bytes _ _ _ _ _ = none

-- A padded group, which must be the last.
padded : ℕ → ℕ → ℕ → Str → Option (List ℕ)
padded a b c [] =
    if c == b'='
    then one_byte (of_char a) (of_char b)
    else two_bytes (of_char a) (of_char b) (of_char c)
padded a b c _ = none

-- Groups of four characters; `=` may fill the end of the last. Bits beyond the last byte are
-- dropped, as the decoder is not strict.
unfoldable pub decode_quads : Str → Option (List ℕ)
unfolding of_char one_byte two_bytes three_bytes padded
decode_quads [] = some []
decode_quads (a ∷ b ∷ c ∷ d ∷ rest) =
    if d == b'='
    then padded a b c rest
    else three_bytes (of_char a) (of_char b) (of_char c) (of_char d) (decode_quads rest)
decode_quads _ = none

-- `DecodeString`
unfoldable pub decode : Str → Option (List ℕ)
unfolding strip decode_quads
decode s = decode_quads (strip s)

of_char-to_char : (v : ℕ) → v < 64 → of_char (to_char v) ≡ some v
unfolding of_char to_char
of_char-to_char v h = ground arith

-- A character of the alphabet is no line break and no padding.
to_char-plain : (v : ℕ) → v < 64 → (is_break (to_char v) ≡ false) × ((to_char v == b'=') ≡ false)
unfolding to_char is_break
to_char-plain v h = (ground arith, ground arith)

abbrev pub IsByte : ℕ → Type 0
IsByte n = n < 256

abbrev pub Plain : ℕ → Type 0
Plain c = is_break c ≡ false

All-encode : (bytes : List ℕ) → All IsByte bytes → All Plain (encode bytes)
unfolding encode is_break
All-encode [] h = tt
All-encode (a ∷ []) h = (
  (to_char-plain (a / 4) (omega arith)).0,
  ((to_char-plain (a % 4 * 16) (omega arith)).0, (refl, (refl, tt))),
)
All-encode (a ∷ b ∷ []) h = (
  (to_char-plain (a / 4) (omega arith)).0,
  (
    (to_char-plain (a % 4 * 16 + b / 16) (omega arith)).0,
    ((to_char-plain (b % 16 * 4) (omega arith)).0, (refl, tt)),
  ),
)
All-encode (a ∷ b ∷ c ∷ rest) h = (
  (to_char-plain (a / 4) (omega arith)).0,
  (
    (to_char-plain (a % 4 * 16 + b / 16) (omega arith)).0,
    (
      (to_char-plain (b % 16 * 4 + c / 64) (omega arith)).0,
      ((to_char-plain (c % 64) (omega arith)).0, All-encode rest h.1.1.1),
    ),
  ),
)

pub strip-Plain : (s : Str) → All Plain s → strip s ≡ s
unfolding strip
strip-Plain [] h = refl
strip-Plain (c ∷ s) h = rw (h.0, strip-Plain s h.1)

decode_quads-encode : (bytes : List ℕ) → All IsByte bytes → decode_quads (encode bytes) ≡ some bytes
unfolding decode_quads encode
decode_quads-encode [] h = refl
decode_quads-encode (a ∷ []) h =
    rw (of_char-to_char (a / 4) (omega arith), of_char-to_char (a % 4 * 16) (omega arith))
      (ap some (ap (λ (x : ℕ). x ∷ []) (omega arith)))
decode_quads-encode (a ∷ b ∷ []) h =
    rw
      (
        (to_char-plain (b % 16 * 4) (omega arith)).1,
        of_char-to_char (a / 4) (omega arith),
        of_char-to_char (a % 4 * 16 + b / 16) (omega arith),
        of_char-to_char (b % 16 * 4) (omega arith),
      )
      (ap some (ap₂ (λ (x y : ℕ). x ∷ y ∷ []) (omega arith) (omega arith)))
decode_quads-encode (a ∷ b ∷ c ∷ rest) h =
    rw
      (
        (to_char-plain (c % 64) (omega arith)).1,
        of_char-to_char (a / 4) (omega arith),
        of_char-to_char (a % 4 * 16 + b / 16) (omega arith),
        of_char-to_char (b % 16 * 4 + c / 64) (omega arith),
        of_char-to_char (c % 64) (omega arith),
        decode_quads-encode rest h.1.1.1,
      )
      (let p : a / 4 * 4 + (a % 4 * 16 + b / 16) / 16 ≡ a = omega arith in
        let q : (a % 4 * 16 + b / 16) % 16 * 16 + (b % 16 * 4 + c / 64) / 4 ≡ b = omega arith in
        let r : (b % 16 * 4 + c / 64) % 4 * 64 + c % 64 ≡ c = omega arith in
        λ i. some (p i ∷ q i ∷ r i ∷ rest))

-- What the encoder writes, the decoder reads back.
pub decode-encode : (bytes : List ℕ) → All IsByte bytes → decode (encode bytes) ≡ some bytes
unfolding decode
decode-encode bytes h =
    ap decode_quads (strip-Plain (encode bytes) (All-encode bytes h)) ∙ decode_quads-encode bytes h
