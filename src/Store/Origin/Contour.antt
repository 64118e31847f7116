-- ===== src/Store/Origin/Contour.antt =====
-- The contour of internal/store/origin.go over the requests of one process, one after the other.
use ulsync_server.Prelude.{
  ◌≡◌, refl, ◌⊎◌, inl, inr, Bool-cases, Bool, true, false, List, [], ◌∷◌, Str, str_eq, str_eq_iff,
  str_eq_refl, arith, ok, err, if◌then◌else◌,
}
use ulsync_server.Store.Db.{StoreError, Db, Driver, origin_mismatch, authored_mismatch}
use ulsync_server.Store.Origin.{
  meta_key_origin, meta_value, put_meta, empty, ensure_origin, bind_authored_origin,
}

pub meta_value-put_meta :
    (k j v : Str) (meta : List (Str × Str))
    → meta_value j (put_meta k v meta) ≡ (if str_eq k j then v else meta_value j meta)
unfolding meta_value put_meta
meta_value-put_meta k j v [] = ground arith
meta_value-put_meta k j v ((i, w) ∷ meta) =
    ground (arith, str_eq_iff i k, str_eq_iff i j, str_eq_iff k j, meta_value-put_meta k j v meta)

-- The origin that the store holds, "" for none.
abbrev pub origin_of : Db → Str
origin_of db = meta_value meta_key_origin db.meta

-- Only a hello changes the tables.
pub ensure_origin_mail :
    (d : Driver) (authored request : Str) (db : Db)
    → (ensure_origin d authored request false db).0 ≡ db
unfolding ensure_origin
ensure_origin_mail d authored request db = ground arith

-- A store that has an origin keeps it, whatever a request names.
pub ensure_origin_named :
    (d : Driver) (authored request : Str) (imprint : Bool) (db : Db)
    → empty (origin_of db) ≡ false
    → (ensure_origin d authored request imprint db).0 ≡ db
unfolding ensure_origin
ensure_origin_named d authored request imprint db h = ground arith

-- A request that passes EnsureOrigin is answered with the configured origin, or in an open store
-- with the origin that the store then holds; and a request passes only under the name that it
-- gives, but for one that gives none to an open store.
pub ensure_origin_answer :
    (d : Driver) (authored request : Str) (imprint : Bool) (db : Db) {o : Str}
    → (ensure_origin d authored request imprint db).1 ≡ ok o
    → (o ≡ (
        if empty authored
        then origin_of (ensure_origin d authored request imprint db).0
        else authored))
      × (((empty authored ≡ true) × (empty request ≡ true)) ⊎ (o ≡ request))
unfolding ensure_origin
ensure_origin_answer d authored request imprint db h = (
  ground (
    arith,
    meta_value-put_meta meta_key_origin meta_key_origin request db.meta,
    str_eq_iff authored [],
    str_eq_iff request authored,
    str_eq_iff (origin_of db) [],
    str_eq_iff request (origin_of db),
    str_eq_refl meta_key_origin,
  ),
  elim (Bool-cases (empty request)) [
    | inl p ↦ inl (ground arith, p)
    | inr p ↦ inr (ground (arith, str_eq_iff request authored, str_eq_iff request (origin_of db)))
  ],
)

-- In an open store with no origin the first hello that names one is answered with it, and a
-- following request that names another origin is refused with both names in the error and changes
-- nothing, if the driver carries out the statements.
pub ensure_origin_first_hello :
    (d f : Driver) (request other : Str) (imprint : Bool) (db : Db)
    → d.reads ≡ true
    → d.writes ≡ true
    → f.reads ≡ true
    → empty (origin_of db) ≡ true
    → empty request ≡ false
    → empty other ≡ false
    → str_eq other request ≡ false
    → let after = ensure_origin d [] request true db in
      (after.1 ≡ ok request)
      × (ensure_origin f [] other imprint after.0 ≡ (after.0, err (origin_mismatch request other)))
unfolding ensure_origin
ensure_origin_first_hello d f request other imprint db dr dw fr free named other_named differ = (
  ground (arith, str_eq_refl []),
  ground (
    arith,
    str_eq_refl [],
    str_eq_refl meta_key_origin,
    str_eq_iff other [],
    str_eq_iff request [],
    meta_value-put_meta meta_key_origin meta_key_origin request db.meta,
  ),
)

-- One request of a process: its driver's answers, its header and whether it is a hello.
pub record Request : Type 0 where
  pub driver : Driver
  pub origin : Str
  pub hello : Bool

pub run : Str → List Request → Db → Db
run authored [] db = db
run authored (r ∷ rs) db = run authored rs (ensure_origin r.driver authored r.origin r.hello db).0

-- Over any sequence of requests, one after the other, a store that has an origin is not changed by
-- EnsureOrigin.
pub run_named :
    (authored : Str) (rs : List Request) (db : Db)
    → empty (origin_of db) ≡ false
    → run authored rs db ≡ db
unfolding run
run_named authored [] db h = refl
run_named authored (r ∷ rs) db h =
    rw (ensure_origin_named r.driver authored r.origin r.hello db h) (run_named authored rs db h)

-- A process that starts with a configured origin holds that origin in its store.
pub bind_authored_origin_ok :
    (d : Driver) (authored : Str) (db : Db) {o : Str}
    → (bind_authored_origin d authored db).1 ≡ ok o
    → (empty authored ≡ true) ⊎ (origin_of (bind_authored_origin d authored db).0 ≡ authored)
unfolding bind_authored_origin
bind_authored_origin_ok d authored db h = elim (Bool-cases (empty authored)) [
  | inl none ↦ inl none
  | inr named ↦ inr (
      ground (
        arith,
        meta_value-put_meta meta_key_origin meta_key_origin authored db.meta,
        str_eq_iff (origin_of db) authored,
        str_eq_refl meta_key_origin,
      ))
]

-- A failure leaves the tables.
pub bind_authored_origin_err :
    (d : Driver) (authored : Str) (db : Db) {e : StoreError}
    → (bind_authored_origin d authored db).1 ≡ err e
    → (bind_authored_origin d authored db).0 ≡ db
unfolding bind_authored_origin
bind_authored_origin_err d authored db h = ground arith

-- BindAuthoredOrigin refuses a store of another origin, with both names in the error, and leaves it
-- as it is.
pub bind_authored_origin_foreign :
    (d : Driver) (authored : Str) (db : Db)
    → d.reads ≡ true
    → empty authored ≡ false
    → empty (origin_of db) ≡ false
    → str_eq (origin_of db) authored ≡ false
    → bind_authored_origin d authored db ≡ (db, err (authored_mismatch authored (origin_of db)))
unfolding bind_authored_origin
bind_authored_origin_foreign d authored db r named held differ = ground arith
