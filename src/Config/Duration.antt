-- ===== src/Config/Duration.antt =====
-- The `Duration` of internal/config/config.go, over what the YAML decoder makes of a node and over
-- the parser and the printer of package time.
use ulsync_server.Prelude.{
  ◌≡◌, ◌≢◌, Option, none, some, [], Str, str_eq, str_eq_iff, Result, ok, err, arith, if◌then◌else◌,
}
use ulsync_server.Prelude.Int.{ℤ}

-- A node: none, one that does not decode into a string, or one with its string.
pub data YamlNode : Type 0 where
  nil no_string : YamlNode
  scalar : Str → YamlNode

pub data DurationError : Type 0 where
  decode_error parse_error : DurationError

module _ (parse_duration : Str → Option ℤ) where
  -- `time.ParseDuration` of the string, with its error wrapped.
  unfoldable pub parsed_duration : Str → Result DurationError ℤ
  parsed_duration raw = elim (parse_duration raw) [ none ↦ err parse_error | some d ↦ ok d ]

  -- `UnmarshalYAML`, of the node and of the duration before: the duration after.
  unfoldable pub unmarshal_yaml : YamlNode → ℤ → Result DurationError ℤ
  unfolding parsed_duration
  unmarshal_yaml nil old = ok old
  unmarshal_yaml no_string old = err decode_error
  unmarshal_yaml (scalar raw) old = if str_eq raw [] then ok old else parsed_duration raw

-- `MarshalYAML`, over `time.Duration.String`.
unfoldable pub marshal_yaml : (ℤ → Str) → ℤ → YamlNode
marshal_yaml print d = scalar (print d)

-- A duration is read back as it is written, whatever it is read over, if the parser reads what the
-- printer writes and the printer writes something.
pub unmarshal_yaml-marshal_yaml :
    (parse_duration : Str → Option ℤ) (print : ℤ → Str)
    → ((d : ℤ) → parse_duration (print d) ≡ some d)
    → ((d : ℤ) → print d ≢ [])
    → (d old : ℤ) → unmarshal_yaml parse_duration (marshal_yaml print d) old ≡ ok d
unfolding parsed_duration unmarshal_yaml marshal_yaml
unmarshal_yaml-marshal_yaml parse_duration print reads something d old =
    ground (arith, reads d, something d, str_eq_iff (print d) [])
