-- ===== src/Config/Load.antt =====
-- `validate` and `Load` of internal/config/config.go. The file and the YAML decoder are represented
-- by what they come to. An error of `validate` is the list of its problems, in their order.
pub mod Limits
pub mod Again
use ulsync_server.Prelude.{
  ℕ, Bool, true, false, not, ◌&&◌, ◌||◌, Option, none, some, List, [], ◌∷◌, ◌++◌, Str, codes,
  str_eq, Result, ok, err, if◌then◌else◌,
}
use ulsync_server.Prelude.Int.{ℤ, pos, leb_ℤ, ltb_ℤ}
use ulsync_server.Config.{Config, is_blank, max_envelopes_per_push_ceiling, apply_defaults}
use ulsync_server.Config.Net.{split_host_port, fold_letters, is_loopback_ip}
use ulsync_server.Config.Origin.{validate_origin}

pub data Field : Type 0 where
  server_bind admin_bind : Field

pub data Problem : Type 0 where
  empty_bind malformed_bind : Field → Problem
  empty_storage_path malformed_origin body_not_positive default_not_positive max_not_positive
        open_admin :
      Problem
  default_above_max : ℤ → ℤ → Problem
  envelopes_above_ceiling : ℤ → Problem

-- `validateBind`, none for nil.
unfoldable pub validate_bind : Field → Str → Option Problem
validate_bind field bind =
    if is_blank bind
    then some (empty_bind field)
    else elim (split_host_port bind) [ none ↦ some (malformed_bind field) | some parts ↦ none ]

-- `isLoopbackBind`
unfoldable pub is_loopback_bind : Str → Bool
is_loopback_bind bind = elim (split_host_port bind) [
  | none ↦ false
  | some parts ↦ str_eq (fold_letters parts.0) (codes "localhost") || is_loopback_ip parts.0
]

abbrev when : Bool → Problem → Option Problem
when true p = some p
when false p = none

-- The checks of `validate`, in their order.
unfoldable pub checks : Config → List (Option Problem)
unfolding validate_bind
checks c =
    validate_bind server_bind c.server.bind
    ∷ validate_bind admin_bind c.admin.bind
    ∷ when (is_blank c.storage.path) empty_storage_path
    ∷ when (not (str_eq c.origin []) && not (validate_origin c.origin)) malformed_origin
    ∷ when (leb_ℤ c.server.max_body_bytes (pos 0)) body_not_positive
    ∷ when (leb_ℤ c.sync.pull_limit_default (pos 0)) default_not_positive
    ∷ when (leb_ℤ c.sync.pull_limit_max (pos 0)) max_not_positive
    ∷ when (ltb_ℤ c.sync.pull_limit_max c.sync.pull_limit_default)
        (default_above_max c.sync.pull_limit_default c.sync.pull_limit_max)
    ∷ when (ltb_ℤ max_envelopes_per_push_ceiling c.sync.max_envelopes_per_push)
        (envelopes_above_ceiling c.sync.max_envelopes_per_push)
    ∷ when (not (is_loopback_bind c.admin.bind) && is_blank c.admin.token) open_admin
    ∷ []

unfoldable pub gather : List (Option Problem) → List Problem
gather [] = []
gather (none ∷ found) = gather found
gather (some p ∷ found) = p ∷ gather found

-- `validate`, [] for nil.
unfoldable pub validate : Config → List Problem
unfolding checks gather
validate c = gather (checks c)

-- What `os.ReadFile` and the decoder come to.
pub data Document : Type 0 where
  unreadable unparsable : Document
  decoded : Config → Document

pub data LoadError : Type 0 where
  read_config parse_config : LoadError
  invalid_configuration : List Problem → LoadError

unfoldable pub checked : Config → List Problem → Result LoadError Config
checked c [] = ok c
checked c (p ∷ problems) = err (invalid_configuration (p ∷ problems))

-- `Load`
unfoldable pub load : Config → Document → Result LoadError Config
unfolding checked apply_defaults
load defaults unreadable = err read_config
load defaults unparsable = err parse_config
load defaults (decoded c) =
    checked (apply_defaults defaults c) (validate (apply_defaults defaults c))
