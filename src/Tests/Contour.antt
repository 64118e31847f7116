-- ===== src/Tests/Contour.antt =====
-- The properties of internal/store/origin.go at sample stores.
use ulsync_server.Prelude.{◌≡◌, refl, true, false, [], ◌∷◌, Str, codes, str_eq, ok}
use ulsync_server.Store.Db.{Db}
use ulsync_server.Store.Origin.{
  meta_key_origin, meta_value, put_meta, read_meta, write_meta, origin, carry_out, ensure_verdict,
  ensure_origin, bind_verdict, bind_authored_origin,
}
use ulsync_server.Store.Origin.Contour.{origin_of, Request}
use ulsync_server.Store.Origin.Race.{race, fresh, answered, race_two_hellos}
use ulsync_server.Tests.Data.{no_rows, answering}

program : Unit {0}
unfolding str_eq meta_value put_meta read_meta write_meta origin carry_out ensure_verdict
    ensure_origin bind_verdict bind_authored_origin
program = tt

abbrev notes : Str
notes = codes "notes"

abbrev tasks : Str
tasks = codes "tasks"

abbrev named : Db
named = record no_rows { meta = (meta_key_origin, notes) ∷ [] }

hello_imprints : ensure_origin answering [] notes true no_rows ≡ (named, ok notes)
unfolding program
hello_imprints = refl

abbrev hello : Str → Request
hello o = record { driver = answering; origin = o; hello = true }

race_two_hellos_example :
    let end =
      race []
        (hello notes)
        (hello tasks)
        (true ∷ false ∷ true ∷ false ∷ [])
        (fresh, fresh, no_rows) in
    (end.0 ≡ answered (ok notes)) × (end.1 ≡ answered (ok tasks)) × (origin_of end.2 ≡ tasks)
unfolding program
race_two_hellos_example =
    race_two_hellos (hello notes) (hello tasks) no_rows refl refl refl refl refl refl refl refl refl
