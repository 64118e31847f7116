-- ===== src/Replica/Stream/Follows.antt =====
-- A client of a stream of internal/httpapi/sse.go over tables that others write meanwhile.
use ulsync_server.Prelude.{
  ℕ, zero, suc, ◌+◌, ◌≡◌, refl, sym, ap, subst, ◌∙◌, ◌⊎◌, inl, inr, Bool, true, false, List, [],
  ◌∷◌, ◌++◌, Str, arith, take, length, ltb, Bool-cases, ltb→lt, if◌then◌else◌,
}
use ulsync_server.Store.Db.{Db}
use ulsync_server.Store.Db.Valid.{IsValid}
use ulsync_server.Store.Since.{backlog, next_cursor, since_page}
use ulsync_server.Store.Since.Pages.{backlog-next_cursor}
use ulsync_server.Store.Upsert.Grows.{Grows}
use ulsync_server.HttpApi.Sse.{
  Frame, Snapshot, Ending, caught_up, broken, out_of_fuel, prepend, after_page, after_query,
  page_frames, write_frames, stream_catch_up, Event, gone, ticked, woken, after_burst, wait_loop,
  serve_live_sse,
}
use ulsync_server.HttpApi.Sse.Complete.{drop-short}
use ulsync_server.Replica.{Client}
use ulsync_server.Replica.Tracks.{Tracks, Grows-Tracks, page-Tracks}
use ulsync_server.Replica.Pulls.{kept}
use ulsync_server.Replica.Stream.{take_frames}
use ulsync_server.Replica.Stream.Pages.{PageEnds, write_frames-PageEnds, take_frames-append}

module _ (u : Str) where
  -- The tables as some query of the events sees them.
  abbrev pub Seen : List Event → Db → Type 0
  Seen [] x = ⊥
  Seen (gone ∷ events) x = ⊥
  Seen (ticked ∷ events) x = Seen events x
  Seen (woken s ∷ events) x = ((j : ℕ) × (x ≡ (s j).db)) ⊎ Seen events x

  -- The client tracks the tables of the start or those that a query saw.
  abbrev pub Follows : Db → List Event → Client → Type 0
  Follows db events c = (x : Db) × ((x ≡ db) ⊎ Seen events x) × Tracks u x c

  -- Each query sees well-formed tables, with what was written since the one before.
  pub record Rises (db : Db) (s : ℕ → Snapshot) : Type 0 where
    pub first : Grows u db (s 0).db
    pub then_on : (j : ℕ) → Grows u (s j).db (s (j + 1)).db
    pub valid : (j : ℕ) → IsValid (s j).db

  abbrev pub Chain : Db → List Event → Type 0
  Chain db [] = Unit
  Chain db (gone ∷ events) = Unit
  Chain db (ticked ∷ events) = Chain db events
  Chain db (woken s ∷ events) = Rises db s × ((j : ℕ) → Chain (s j).db events)

  abbrev Part : Db → (ℕ → Snapshot) → Client → Type 0
  Part db s c = (x : Db) × ((x ≡ db) ⊎ ((j : ℕ) × (x ≡ (s j).db))) × Tracks u x c

  -- After a burst that ended the client has every row of what its last query saw.
  abbrev BurstEnds : Db → (ℕ → Snapshot) → Client → Ending → Type 0
  BurstEnds db s c (caught_up next) =
      (j : ℕ) × Tracks u (s j).db c × (c.cursor ≡ next) × (backlog u next (s j).db ≡ [])
  BurstEnds db s c broken = Part db s c
  BurstEnds db s c out_of_fuel = Part db s c

  abbrev BurstOf : Db → (ℕ → Snapshot) → Client → List Frame × Ending → Type 0
  BurstOf db s c b = BurstEnds db s (take_frames b.0 c) b.1

  Part-later : (db : Db) (s : ℕ → Snapshot) (i : ℕ) (c : Client) → Part (s i).db s c → Part db s c
  Part-later db s i c (x, inl e, t) = (x, inr (i, e), t)
  Part-later db s i c (x, inr seen, t) = (x, inr seen, t)

  BurstEnds-later :
      (db : Db) (s : ℕ → Snapshot) (i : ℕ) (c : Client) (ending : Ending)
      → BurstEnds (s i).db s c ending
      → BurstEnds db s c ending
  BurstEnds-later db s i c (caught_up next) e = e
  BurstEnds-later db s i c broken e = Part-later db s i c e
  BurstEnds-later db s i c out_of_fuel e = Part-later db s i c e

  BurstEnds-prepend :
      (db : Db) (s : ℕ → Snapshot) (c : Client) (fs : List Frame) (b : List Frame × Ending)
      → BurstEnds db s (take_frames b.0 (take_frames fs c)) b.1
      → BurstEnds db s (take_frames (prepend fs b).0 c) (prepend fs b).1
  BurstEnds-prepend db s c fs (gs, ending) e =
      subst (λ x. BurstEnds db s x ending) (sym (take_frames-append fs gs c)) e

  module _ (writes : ℕ → Bool) (limit : ℕ) (s : ℕ → Snapshot)
      (then_on : (j : ℕ) → Grows u (s j).db (s (j + 1)).db)
      (valid : (j : ℕ) → IsValid (s j).db) where
    after_page-BurstEnds :
        (i : ℕ) (c : Client) (written : List Frame × Bool) (go : ℕ → List Frame × Ending)
        → Tracks u (s i).db c
        → PageEnds u limit (s i).db c written
        → ((m : ℕ) → BurstEnds (s i).db s (take_frames (go m).0 (kept u limit (s i).db c)) (go m).1)
        → let rows = take limit (backlog u c.cursor (s i).db) in
          let b = after_page limit rows (next_cursor c.cursor rows) written go in
          BurstEnds (s i).db s (take_frames b.0 c) b.1
    unfolding after_page
    after_page-BurstEnds i c (fs, false) go t (inl (e, k)) rec = absurd (ground arith)
    after_page-BurstEnds i c (fs, false) go t (inr (e, p)) rec = ((s i).db, inl refl, p)
    after_page-BurstEnds i c (fs, true) go t (inr (e, p)) rec = absurd (ground arith)
    after_page-BurstEnds i c (fs, true) go t (inl (e, k)) rec =
        let rows = take limit (backlog u c.cursor (s i).db) in
        let next = next_cursor c.cursor rows in
        let choice = λ (b : Bool).
          BurstOf (s i).db s c (if b then (fs, caught_up next) else prepend fs (go (length fs))) in
        elim (Bool-cases (ltb (length rows) limit)) [
          | inl short ↦ subst choice (sym short) (
            i,
            subst (Tracks u (s i).db) (sym k) (unfold kept in page-Tracks u (s i).db c limit t),
            ap (λ (x : Client). x.cursor) k ∙ (unfold kept in refl),
            backlog-next_cursor u c.cursor (s i).db t.valid limit
                ∙ drop-short limit (backlog u c.cursor (s i).db) (ltb→lt (length rows) limit short),
          )
          | inr full ↦ subst choice (sym full) (
              BurstEnds-prepend (s i).db s c fs (go (length fs)) (
                subst
                  (λ x. BurstEnds (s i).db s (take_frames (go (length fs)).0 x) (go (length fs)).1)
                  (sym k) (rec (length fs))))
        ]

    stream_catch_up-BurstEnds :
        (fuel i n : ℕ) (db : Db) (c : Client)
        → Grows u db (s i).db
        → Tracks u db c
        → let b = stream_catch_up writes u limit fuel s i n c.cursor in
          BurstEnds db s (take_frames b.0 c) b.1
    unfolding stream_catch_up after_query since_page take_frames kept
    stream_catch_up-BurstEnds zero i n db c g t = (db, inl refl, t)
    stream_catch_up-BurstEnds (suc fuel) i n db c g t =
        let t' = Grows-Tracks u db (s i).db c g (valid i) t in
        elim (Bool-cases (s i).driver.reads) [
          | inr off ↦ simp off (db, inl refl, t)
          | inl on ↦
              let rows = take limit (backlog u c.cursor (s i).db) in
              let fs = page_frames (s i).now rows (next_cursor c.cursor rows) in
              let go = λ (m : ℕ).
                stream_catch_up writes u limit fuel s (i + 1) (n + m) (next_cursor c.cursor rows) in
              simp on (
                BurstEnds-later db s i _ _ (
                  after_page-BurstEnds i c (write_frames writes n fs) go t'
                    (write_frames-PageEnds writes n u limit (s i).now (s i).db c t')
                    (λ m.
                      stream_catch_up-BurstEnds fuel (i + 1) (n + m) (s i).db
                        (kept u limit (s i).db c) (then_on i) (page-Tracks u (s i).db c limit t'))))
        ]

  Part-Follows :
      (db : Db) (s : ℕ → Snapshot) (events : List Event) (c : Client)
      → Part db s c
      → Follows db (woken s ∷ events) c
  Part-Follows db s events c (x, inl e, t) = (x, inl e, t)
  Part-Follows db s events c (x, inr seen, t) = (x, inr (inl seen), t)

  Follows-later :
      (db : Db) (s : ℕ → Snapshot) (j : ℕ) (events : List Event) (c : Client)
      → Follows (s j).db events c
      → Follows db (woken s ∷ events) c
  Follows-later db s j events c (x, inl e, t) = (x, inr (inl (j, e)), t)
  Follows-later db s j events c (x, inr seen, t) = (x, inr (inr seen), t)

  after_burst-Follows :
      (db : Db) (s : ℕ → Snapshot) (events : List Event) (c : Client) (b : List Frame × Ending)
      (go : ℕ → ℕ → List Frame)
      → BurstOf db s c b
      → ((m j : ℕ) (x : Client)
          → Tracks u (s j).db x
          → Follows (s j).db events (take_frames (go m x.cursor) x))
      → Follows db (woken s ∷ events) (take_frames (after_burst b go) c)
  unfolding after_burst
  after_burst-Follows db s events c (fs, broken) go e rec =
      Part-Follows db s events (take_frames fs c) e
  after_burst-Follows db s events c (fs, out_of_fuel) go e rec =
      Part-Follows db s events (take_frames fs c) e
  after_burst-Follows db s events c (fs, caught_up next) go (j, t, at, done) rec =
      let x = take_frames fs c in
      let joined : take_frames (fs ++ go (length fs) next) c
          ≡ take_frames (go (length fs) x.cursor) x =
        take_frames-append fs (go (length fs) next) c
        ∙ ap (λ n. take_frames (go (length fs) n) x) (sym at) in
      subst (Follows db (woken s ∷ events)) (sym joined) (
        Follows-later db s j events (take_frames (go (length fs) x.cursor) x)
          (rec (length fs) j x t))

  module _ (writes : ℕ → Bool) (limit fuel : ℕ) where
    wait_loop-Follows :
        (events : List Event) (n : ℕ) (db : Db) (c : Client)
        → Chain db events
        → Tracks u db c
        → Follows db events (take_frames (wait_loop writes u limit fuel events n c.cursor) c)
    unfolding wait_loop take_frames
    wait_loop-Follows [] n db c h t = (db, inl refl, t)
    wait_loop-Follows (gone ∷ events) n db c h t = (db, inl refl, t)
    wait_loop-Follows (ticked ∷ events) n db c h t = elim (Bool-cases (writes n)) [
      | inl on ↦ simp on (wait_loop-Follows events (n + 1) db c h t)
      | inr off ↦ simp off (db, inl refl, t)
    ]
    wait_loop-Follows (woken s ∷ events) n db c h t =
        after_burst-Follows db s events c (stream_catch_up writes u limit fuel s 0 n c.cursor)
          (λ m next. wait_loop writes u limit fuel events (n + m) next)
          (stream_catch_up-BurstEnds writes limit s h.0.then_on h.0.valid fuel 0 n db c h.0.first t)
          (λ m j x. wait_loop-Follows events (n + m) (s j).db x (h.1 j))

    -- A client of a stream keeps each envelope that reaches it and the number of the last cursor
    -- event. If at the start it held, of the tables then, every row of its user up to its cursor
    -- and nothing at a key without a row, then whatever is pushed meanwhile and whichever query or
    -- write fails the same holds after the stream, of the tables at the start or of those that one
    -- of its queries saw. Each query sees well-formed tables, with what was written since the one
    -- before.
    pub serve_live_sse-Follows :
        (snapshots : ℕ → Snapshot) (events : List Event) (db : Db) (c : Client)
        → Rises db snapshots
        → ((j : ℕ) → Chain (snapshots j).db events)
        → Tracks u db c
        → Follows db
            (woken snapshots ∷ events)
            (take_frames (serve_live_sse writes u limit fuel snapshots events c.cursor) c)
    unfolding serve_live_sse
    serve_live_sse-Follows snapshots events db c r h t =
        wait_loop-Follows (woken snapshots ∷ events) 0 db c (r, h) t
