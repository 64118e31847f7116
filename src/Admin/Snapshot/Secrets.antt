-- ===== src/Admin/Snapshot/Secrets.antt =====
-- What a reader of the panel of internal/admin/snapshot.go learns of the secrets.
use ulsync_server.Prelude.{◌≡◌, refl, Str}
use ulsync_server.Config.{is_blank}
use ulsync_server.Config.Redacted.{with_secrets, redacted_iff}
use ulsync_server.Admin.Snapshot.{Seen, Cache, build_snapshot}

-- Two configurations that differ in their secrets only give the same snapshot, if the secrets are
-- blank in both or in neither.
pub build_snapshot-with_secrets :
    (seen : Seen) (cache : Cache) (secret token secret' token' : Str)
    → is_blank secret ≡ is_blank secret'
    → is_blank token ≡ is_blank token'
    → build_snapshot (record seen { config = with_secrets secret token seen.config }) cache
      ≡ build_snapshot (record seen { config = with_secrets secret' token' seen.config }) cache
unfolding build_snapshot
build_snapshot-with_secrets seen cache secret token secret' token' h k =
    rw ((redacted_iff seen.config secret token secret' token').1 (h, k)) refl
