-- ===== src/Store/Origin/Race.antt =====
-- Two requests inside `EnsureOrigin` of internal/store/origin.go at once: each reads the origin
-- through the reader pool, and acts on what it read in a later step.
use ulsync_server.Prelude.{
  ◌≡◌, refl, Bool, true, false, List, [], ◌∷◌, Str, str_eq_refl, arith, Result, ok, err,
}
use ulsync_server.Store.Db.{Db, StoreError}
use ulsync_server.Store.Origin.{
  meta_key_origin, put_meta, empty, origin, ensure_verdict, ensure_origin, carry_out,
}
use ulsync_server.Store.Origin.Contour.{Request, origin_of, meta_value-put_meta}

pub data Progress : Type 0 where
  fresh : Progress
  has_read : Str → Progress
  answered : Result StoreError Str → Progress

-- One step of a request under the configured origin.
unfoldable pub move : Str → Request → Progress → Db → Progress × Db
move authored r fresh db = elim (origin r.driver db) [
  | err e ↦ (answered (err e), db)
  | ok stored ↦ (has_read stored, db)
]
move authored r (has_read stored) db =
    let done = carry_out r.driver db (ensure_verdict authored r.origin r.hello stored) in
    (answered done.1, done.0)
move authored r (answered a) db = (answered a, db)

-- Two requests under a schedule: `true` is a step of the first.
unfoldable pub race :
    Str → Request → Request → List Bool → Progress × Progress × Db → Progress × Progress × Db
race authored a b [] s = s
race authored a b (true ∷ schedule) (p, q, db) =
    race authored a b schedule ((move authored a p db).0, q, (move authored a p db).1)
race authored a b (false ∷ schedule) (p, q, db) =
    race authored a b schedule (p, (move authored b q db).0, (move authored b q db).1)

-- A request that runs alone is `ensure_origin`.
pub move-ensure_origin :
    (authored : Str) (r : Request) (db : Db)
    → let first = move authored r fresh db in
      move authored r first.0 first.1 ≡ (
        answered (ensure_origin r.driver authored r.origin r.hello db).1,
        (ensure_origin r.driver authored r.origin r.hello db).0,
      )
unfolding move ensure_origin
move-ensure_origin authored r db = ground arith

move_fresh :
    (authored : Str) (r : Request) (db : Db)
    → r.driver.reads ≡ true
    → move authored r fresh db ≡ (has_read (origin_of db), db)
unfolding move origin
move_fresh authored r db h = ground arith

-- A hello that has read no origin imprints its own.
move_first :
    (r : Request) (stored : Str) (db : Db)
    → r.hello ≡ true
    → r.driver.writes ≡ true
    → empty r.origin ≡ false
    → empty stored ≡ true
    → move [] r (has_read stored) db
      ≡ (answered (ok r.origin), record db { meta = put_meta meta_key_origin r.origin db.meta })
unfolding move carry_out ensure_verdict
move_first r stored db h w n s = ground (arith, str_eq_refl [])

-- Two hellos on an open store that both read before either writes are both answered with their own
-- name, and the store ends with the second.
pub race_two_hellos :
    (a b : Request) (db : Db)
    → a.hello ≡ true
    → b.hello ≡ true
    → a.driver.reads ≡ true
    → a.driver.writes ≡ true
    → b.driver.reads ≡ true
    → b.driver.writes ≡ true
    → empty (origin_of db) ≡ true
    → empty a.origin ≡ false
    → empty b.origin ≡ false
    → let end = race [] a b (true ∷ false ∷ true ∷ false ∷ []) (fresh, fresh, db) in
      (end.0 ≡ answered (ok a.origin))
      × (end.1 ≡ answered (ok b.origin))
      × (origin_of end.2 ≡ b.origin)
unfolding race
race_two_hellos a b db ah bh ar aw br bw free an bn =
    rw
      (
        move_fresh [] a db ar,
        move_fresh [] b db br,
        move_first a (origin_of db) db ah aw an free,
        move_first b (origin_of db) _ bh bw bn free,
      )
      (
        refl,
        refl,
        ground (
          arith,
          str_eq_refl meta_key_origin,
          meta_value-put_meta meta_key_origin meta_key_origin b.origin
              (put_meta meta_key_origin a.origin db.meta),
        ),
      )
