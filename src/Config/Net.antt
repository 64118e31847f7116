-- ===== src/Config/Net.antt =====
-- What the configuration uses of Go's net package: `SplitHostPort`, and `ParseIP` as far as
-- `IsLoopback` reads its result. An IPv6 address is a list of its sixteen-bit groups.
use ulsync_server.Prelude.{
  ℕ, zero, suc, ◌+◌, ◌-◌, ◌*◌, ◌/◌, Bool, false, not, ◌&&◌, ◌||◌, Option, none, some, List, [], ◌∷◌,
  ◌++◌, Str, ltb, leb, ◌==◌, length, take, drop, if◌then◌else◌,
}

abbrev pub has_byte : ℕ → Str → Bool
has_byte b [] = false
has_byte b (c ∷ s) = c == b || has_byte b s

-- The parts before and after the first such byte.
unfoldable pub cut_first : ℕ → Str → Option (Str × Str)
cut_first b [] = none
cut_first b (c ∷ s) =
    let rest = cut_first b s in
    if c == b
    then some ([], s)
    else elim rest [ none ↦ none | some found ↦ some (c ∷ found.0, found.1) ]

-- The parts before and after the last such byte.
unfoldable pub cut_last : ℕ → Str → Option (Str × Str)
cut_last b [] = none
cut_last b (c ∷ s) =
    let rest = cut_last b s in
    elim rest [
      | none ↦ if c == b then some ([], s) else none
      | some found ↦ some (c ∷ found.0, found.1)
    ]

-- A bracketed host ends with the first closing bracket, right before the last colon.
unfoldable pub split_bracketed : Str → Str → Option (Str × Str) → Option (Str × Str)
split_bracketed before port none = none
split_bracketed before port (some (host, after)) =
    if length after == 0 && not (has_byte b'[' host || has_byte b'[' port || has_byte b']' port)
    then some (host, port)
    else none

unfoldable pub split_before : Str → Str → Option (Str × Str)
unfolding split_bracketed cut_first
split_before [] port = if has_byte b'[' port || has_byte b']' port then none else some ([], port)
split_before (c ∷ before) port =
    if c == b'['
    then split_bracketed before port (cut_first b']' before)
    else if has_byte b':' (c ∷ before)
        || has_byte b'[' (c ∷ before)
        || has_byte b']' (c ∷ before)
        || has_byte b'[' port
        || has_byte b']' port
    then none
    else some (c ∷ before, port)

-- `SplitHostPort`, none for an error.
unfoldable pub split_host_port : Str → Option (Str × Str)
unfolding split_before cut_last
split_host_port address = elim (cut_last b':' address) [
  | none ↦ none
  | some cut ↦ split_before cut.0 cut.1
]

-- A decimal field of an IPv4 address: at most 255, without a leading zero.
unfoldable pub take_octet : ℕ → ℕ → Str → Option (ℕ × Str)
take_octet digits value [] = if digits == 0 then none else some (value, [])
take_octet digits value (c ∷ s) =
    let rest = take_octet (digits + 1) (value * 10 + (c - b'0')) s in
    if leb b'0' c && leb c b'9'
    then if ltb 0 digits && value == 0 || ltb 255 (value * 10 + (c - b'0')) then none else rest
    else if digits == 0
    then none
    else some (value, c ∷ s)

-- The fields that remain, each after the first behind a dot; the text ends with the last.
unfoldable pub octets_from : ℕ → Str → Option (List ℕ)
unfolding take_octet
octets_from zero s = if length s == 0 then some [] else none
octets_from (suc n) [] = none
octets_from (suc n) (c ∷ s) =
    let field = take_octet 0 0 s in
    if c == b'.'
    then elim field [
      | none ↦ none
      | some found ↦ elim (octets_from n found.1) [
        | none ↦ none
        | some more ↦ some (found.0 ∷ more)
      ]
    ]
    else none

unfoldable pub parse_ipv4 : Str → Option (List ℕ)
unfolding octets_from
parse_ipv4 s = octets_from 4 (b'.' ∷ s)

abbrev pub hex_digit : ℕ → Option ℕ
hex_digit c =
    if leb b'0' c && leb c b'9'
    then some (c - b'0')
    else if leb b'a' c && leb c b'f'
    then some (c - b'a' + 10)
    else if leb b'A' c && leb c b'F'
    then some (c - b'A' + 10)
    else none

unfoldable pub hex_value : ℕ → Str → Option ℕ
hex_value value [] = some value
hex_value value (c ∷ s) = elim (hex_digit c) [ none ↦ none | some d ↦ hex_value (value * 16 + d) s ]

-- A group of an IPv6 address: one to four hexadecimal digits.
unfoldable pub hex_group : Str → Option ℕ
unfolding hex_value
hex_group s = if length s == 0 || ltb 4 (length s) then none else hex_value 0 s

unfoldable pub fields_on : ℕ → Str → List Str
fields_on b [] = [] ∷ []
fields_on b (c ∷ s) = elim (fields_on b s) [
  | [] ↦ []
  | f ∷ fs ↦ if c == b then [] ∷ f ∷ fs else (c ∷ f) ∷ fs
]

abbrev pub pair_up : List ℕ → List ℕ
pair_up (a ∷ b ∷ more) = (a * 256 + b) ∷ pair_up more
pair_up _ = []

-- The last field may be an IPv4 address.
unfoldable pub last_groups : Str → Option (List ℕ)
unfolding hex_group parse_ipv4
last_groups f =
    if has_byte b'.' f
    then elim (parse_ipv4 f) [ none ↦ none | some octets ↦ some (pair_up octets) ]
    else elim (hex_group f) [ none ↦ none | some g ↦ some (g ∷ []) ]

-- The groups of an IPv6 address between its colons, and how many stand before the ellipsis.
unfoldable pub ipv6_groups : List ℕ → Option ℕ → List Str → Option (List ℕ × Option ℕ)
unfolding last_groups hex_group
ipv6_groups groups gap [] = none
ipv6_groups groups gap (f ∷ []) = elim (last_groups f) [
  | none ↦ none
  | some last ↦ some (groups ++ last, gap)
]
ipv6_groups groups gap (f ∷ g ∷ []) = elim (hex_group f) [
  | none ↦ none
  | some v ↦ if length g == 0 then none else ipv6_groups (groups ++ v ∷ []) gap (g ∷ [])
]
ipv6_groups groups gap (f ∷ g ∷ h ∷ fs) = elim (hex_group f) [
  | none ↦ none
  | some v ↦
      let before = groups ++ v ∷ [] in
      let plain = ipv6_groups before gap (g ∷ h ∷ fs) in
      let skipped = ipv6_groups before (some (length before)) (h ∷ fs) in
      if not (length g == 0) then plain else elim gap [
        | some earlier ↦ none
        | none ↦
            if length h == 0 && length fs == 0 then some (before, some (length before)) else skipped
      ]
]

unfoldable pub ipv6_start : List Str → Option (List ℕ × Option ℕ)
unfolding ipv6_groups
ipv6_start (f ∷ g ∷ h ∷ fs) =
    if length f == 0 && length g == 0
    then (if length h == 0 && length fs == 0
        then some ([], some 0)
        else ipv6_groups [] (some 0) (h ∷ fs))
    else ipv6_groups [] none (f ∷ g ∷ h ∷ fs)
ipv6_start fs = ipv6_groups [] none fs

abbrev pub zero_groups : ℕ → List ℕ
zero_groups zero = []
zero_groups (suc n) = 0 ∷ zero_groups n

-- An ellipsis stands for at least one group.
abbrev pub fill_gap : List ℕ × Option ℕ → Option (List ℕ)
fill_gap (groups, none) = if length groups == 8 then some groups else none
fill_gap (groups, some n) =
    if ltb (length groups) 8
    then some (take n groups ++ zero_groups (8 - length groups) ++ drop n groups)
    else none

unfoldable pub parse_ipv6 : Str → Option (List ℕ)
unfolding ipv6_start fields_on
parse_ipv6 s = elim (ipv6_start (fields_on b':' s)) [ none ↦ none | some parts ↦ fill_gap parts ]

-- 127.0.0.0/8 also as the end of an IPv6 address, or ::1.
abbrev pub ipv6_is_loopback : List ℕ → Bool
ipv6_is_loopback (a ∷ b ∷ c ∷ d ∷ e ∷ f ∷ g ∷ h ∷ []) =
    a == 0
    && b == 0
    && c == 0
    && d == 0
    && e == 0
    && (f == 65535 && g / 256 == 127 || f == 0 && g == 0 && h == 1)
ipv6_is_loopback _ = false

abbrev pub ipv4_is_loopback : List ℕ → Bool
ipv4_is_loopback (a ∷ rest) = a == 127
ipv4_is_loopback [] = false

abbrev holds {ℓ} : {A : Type ℓ} → (A → Bool) → Option A → Bool
holds p none = false
holds p (some a) = p a

-- The first dot, colon or percent sign decides how `ParseIP` reads the text; a zone is refused.
unfoldable pub version_byte : Str → ℕ
version_byte [] = 0
version_byte (c ∷ s) =
    let rest = version_byte s in if c == b'.' || c == b':' || c == b'%' then c else rest

-- `ip := net.ParseIP(host); ip != nil && ip.IsLoopback()`
unfoldable pub is_loopback_ip : Str → Bool
unfolding version_byte parse_ipv4 parse_ipv6
is_loopback_ip s =
    if version_byte s == b'.'
    then holds ipv4_is_loopback (parse_ipv4 s)
    else if version_byte s == b':'
    then not (has_byte b'%' s) && holds ipv6_is_loopback (parse_ipv6 s)
    else false

-- The folding of letters as `EqualFold` needs it for "localhost": upper case, and the long s.
unfoldable pub fold_letters : Str → Str
fold_letters [] = []
fold_letters (c ∷ []) = if leb b'A' c && leb c b'Z' then (c + 32) ∷ [] else c ∷ []
fold_letters (c ∷ d ∷ s) =
    let folded = fold_letters (d ∷ s) in
    let past = fold_letters s in
    if leb b'A' c && leb c b'Z'
    then (c + 32) ∷ folded
    else if c == 197 && d == 191
    then b's' ∷ past
    else c ∷ folded
