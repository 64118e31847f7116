-- ===== src/Store/Origin.antt =====
-- internal/store/origin.go: which application contour owns the store.
pub mod Contour
pub mod Race
use ulsync_server.Prelude.{
  Bool, true, false, not, ◌&&◌, List, [], ◌∷◌, Str, codes, str_eq, Result, ok, err, ◌>>=◌,
  if◌then◌else◌,
}
use ulsync_server.Store.Db.{
  Db, Driver, StoreError, failed, read_meta as reading, write_meta as writing, origin_required,
  origin_mismatch, authored_mismatch,
}

abbrev pub meta_key_origin : Str
meta_key_origin = codes "origin"

-- SELECT v FROM server_meta WHERE k = ?, with "" for no row
unfoldable pub meta_value : Str → List (Str × Str) → Str
meta_value key [] = []
meta_value key ((k, v) ∷ meta) = if str_eq k key then v else meta_value key meta

-- INSERT … ON CONFLICT (k) DO UPDATE SET v = excluded.v
unfoldable pub put_meta : Str → Str → List (Str × Str) → List (Str × Str)
put_meta key value [] = (key, value) ∷ []
put_meta key value ((k, v) ∷ meta) =
    if str_eq k key then (k, value) ∷ meta else (k, v) ∷ put_meta key value meta

-- `readMeta`
unfoldable pub read_meta : Driver → Str → Db → Result StoreError Str
read_meta driver key db = if driver.reads then ok (meta_value key db.meta) else err (failed reading)

-- `writeMeta`
unfoldable pub write_meta : Driver → Str → Str → Db → Result StoreError Db
write_meta driver key value db =
    if driver.writes
    then ok (record db { meta = put_meta key value db.meta })
    else err (failed writing)

-- `Origin`
unfoldable pub origin : Driver → Db → Result StoreError Str
unfolding read_meta
origin driver db = read_meta driver meta_key_origin db

abbrev pub empty : Str → Bool
empty s = str_eq s []

-- The branches of `BindAuthoredOrigin` and `EnsureOrigin` end in an answer, or in `writeMeta` of an
-- origin that becomes the answer.
pub data Verdict : Type 0 where
  answer : Str → Verdict
  refuse : StoreError → Verdict
  imprint_as : Str → Verdict

unfoldable pub carry_out : Driver → Db → Verdict → Db × Result StoreError Str
unfolding write_meta
carry_out driver db (answer o) = (db, ok o)
carry_out driver db (refuse e) = (db, err e)
carry_out driver db (imprint_as o) = elim (write_meta driver meta_key_origin o db) [
  | err e ↦ (db, err e)
  | ok db' ↦ (db', ok o)
]

-- The tests of `BindAuthoredOrigin` on what `Origin` read.
unfoldable pub bind_verdict : Str → Str → Verdict
bind_verdict authored stored =
    if empty stored
    then imprint_as authored
    else if not (str_eq stored authored)
    then refuse (authored_mismatch authored stored)
    else answer stored

-- `BindAuthoredOrigin`; the answer is dropped.
unfoldable pub bind_authored_origin : Driver → Str → Db → Db × Result StoreError Str
unfolding bind_verdict origin carry_out
bind_authored_origin driver authored db =
    if empty authored then (db, ok []) else elim (origin driver db) [
      | err e ↦ (db, err e)
      | ok stored ↦ carry_out driver db (bind_verdict authored stored)
    ]

-- The tests of `EnsureOrigin` on what `Origin` read.
unfoldable pub ensure_verdict : Str → Str → Bool → Str → Verdict
ensure_verdict authored request imprint stored =
    if not (empty authored)
    then (if empty request
        then refuse origin_required
        else if not (str_eq request authored)
        then refuse (origin_mismatch authored request)
        else answer authored)
    else if empty stored
    then (if empty request && not imprint
        then answer []
        else if empty request && imprint
        then refuse origin_required
        else if not (empty request) && imprint
        then imprint_as request
        else if not (empty request) && not imprint
        then refuse origin_required
        else answer [])
    else if empty request && not imprint
    then answer stored
    else if empty request && imprint
    then refuse origin_required
    else if str_eq request stored
    then answer stored
    else refuse (origin_mismatch stored request)

-- `EnsureOrigin`
unfoldable pub ensure_origin : Driver → Str → Str → Bool → Db → Db × Result StoreError Str
unfolding ensure_verdict origin carry_out
ensure_origin driver authored request imprint db = elim (origin driver db) [
  | err e ↦ (db, err e)
  | ok stored ↦ carry_out driver db (ensure_verdict authored request imprint stored)
]
