-- ===== src/HttpApi/Sse/Rising.antt =====
-- The order of the envelopes in a stream of internal/httpapi/sse.go.
use ulsync_server.Prelude.{
  ℕ, zero, suc, ◌+◌, ◌≤◌, ◌<◌, ◌≡◌, refl, Bool, true, false, List, [], ◌∷◌, ◌++◌, Str, ltb, length,
  map, take, arith, inl, inr, Bool-cases, All,
}
use ulsync_server.Prelude.Int.{ℤ}
use ulsync_server.Store.Envelope.{Envelope}
use ulsync_server.Store.Db.{Db, Driver}
use ulsync_server.Store.Db.Valid.{IsValid}
use ulsync_server.Store.Since.{since_page, backlog, next_cursor}
use ulsync_server.Store.Since.Order.{Ascends, backlog-Ascends}
use ulsync_server.HttpApi.Page.{PullEnvelope, to_pull_envelope}
use ulsync_server.HttpApi.Sse.{
  Frame, envelope, cursor, ping, Snapshot, Ending, caught_up, broken, out_of_fuel, after_page,
  after_query, after_burst, write_frames, page_frames, prepend, stream_catch_up, Event, gone,
  ticked, woken, wait_loop, serve_live_sse, envelopes_in,
}

-- The numbers rise strictly, from above the first cursor to at most the second.
abbrev pub Between : ℕ → ℕ → List PullEnvelope → Type 0
Between lo hi [] = lo ≤ hi
Between lo hi (p ∷ ps) = (lo < p.server_seq) × Between p.server_seq hi ps

Between-le : (lo hi : ℕ) (ps : List PullEnvelope) → Between lo hi ps → lo ≤ hi
Between-le lo hi [] h = h
Between-le lo hi (p ∷ ps) h = omega (arith, Between-le p.server_seq hi ps h.1)

Between-append :
    (lo mid hi : ℕ) (ps qs : List PullEnvelope)
    → Between lo mid ps
    → Between mid hi qs
    → Between lo hi (ps ++ qs)
Between-append lo mid hi [] [] h k = omega arith
Between-append lo mid hi [] (q ∷ qs) h k = (omega arith, k.1)
Between-append lo mid hi (p ∷ ps) qs h k = (h.0, Between-append p.server_seq mid hi ps qs h.1 k)

pub envelopes_in-append :
    (fs gs : List Frame) → envelopes_in (fs ++ gs) ≡ envelopes_in fs ++ envelopes_in gs
unfolding envelopes_in
envelopes_in-append [] gs = refl
envelopes_in-append (envelope p ∷ fs) gs = ground (arith, envelopes_in-append fs gs)
envelopes_in-append (cursor c now ∷ fs) gs = envelopes_in-append fs gs
envelopes_in-append (ping ∷ fs) gs = envelopes_in-append fs gs

pub envelopes_in-page_frames :
    (now : ℤ) (rows : List Envelope) (next : ℕ)
    → envelopes_in (page_frames now rows next) ≡ map to_pull_envelope rows
unfolding page_frames envelopes_in
envelopes_in-page_frames now [] next = refl
envelopes_in-page_frames now (e ∷ rows) next =
    ground (arith, envelopes_in-page_frames now rows next)

Between-page :
    (lo n : ℕ) (es : List Envelope)
    → Ascends lo es
    → Between lo (next_cursor lo (take n es)) (map to_pull_envelope (take n es))
unfolding next_cursor to_pull_envelope
Between-page lo zero es a = omega arith
Between-page lo (suc n) [] a = omega arith
Between-page lo (suc n) (e ∷ es) a = (a.0, Between-page e.server_seq n es a.1)

-- What was written of the frames keeps the order.
Between-write_frames :
    (writes : ℕ → Bool) (n lo hi : ℕ) (fs : List Frame)
    → Between lo hi (envelopes_in fs)
    → Between lo hi (envelopes_in (write_frames writes n fs).0)
unfolding write_frames envelopes_in
Between-write_frames writes n lo hi [] h = h
Between-write_frames writes n lo hi (envelope p ∷ fs) h = elim (Bool-cases (writes n)) [
  | inl on ↦ simp on (h.0, Between-write_frames writes (n + 1) p.server_seq hi fs h.1)
  | inr off ↦ simp off (omega (arith, Between-le p.server_seq hi (envelopes_in fs) h.1))
]
Between-write_frames writes n lo hi (cursor c now ∷ fs) h = elim (Bool-cases (writes n)) [
  | inl on ↦ simp on (Between-write_frames writes (n + 1) lo hi fs h)
  | inr off ↦ simp off (Between-le lo hi (envelopes_in fs) h)
]
Between-write_frames writes n lo hi (ping ∷ fs) h = elim (Bool-cases (writes n)) [
  | inl on ↦ simp on (Between-write_frames writes (n + 1) lo hi fs h)
  | inr off ↦ simp off (Between-le lo hi (envelopes_in fs) h)
]

-- A burst keeps the order up to some bound, which is the cursor that it ends with.
abbrev Ends : ℕ → Ending → Type 0
Ends hi (caught_up next) = next ≡ hi
Ends hi broken = Unit
Ends hi out_of_fuel = Unit

abbrev Burst : ℕ → List Frame × Ending → Type 0
Burst lo (fs, ending) = (hi : ℕ) × Between lo hi (envelopes_in fs) × Ends hi ending

Burst-prepend :
    (lo mid : ℕ) (fs : List Frame) (b : List Frame × Ending)
    → Between lo mid (envelopes_in fs)
    → Burst mid b
    → Burst lo (prepend fs b)
Burst-prepend lo mid fs (gs, ending) h (hi, k, e) = (
  hi,
  rw (envelopes_in-append fs gs) (Between-append lo mid hi (envelopes_in fs) (envelopes_in gs) h k),
  e,
)

module _ (writes : ℕ → Bool) (u : Str) (limit : ℕ) where
  after_page-Burst :
      (since next : ℕ) (rows : List Envelope) (written : List Frame × Bool)
      (go : ℕ → List Frame × Ending)
      → Between since next (envelopes_in written.0)
      → ((m : ℕ) → Burst next (go m))
      → Burst since (after_page limit rows next written go)
  unfolding after_page
  after_page-Burst since next rows (fs, false) go h k = (next, h, tt)
  after_page-Burst since next rows (fs, true) go h k = elim (Bool-cases (ltb (length rows) limit)) [
    | inl short ↦ simp short (next, h, refl)
    | inr full ↦ simp full (Burst-prepend since next fs (go (length fs)) h (k (length fs)))
  ]

  after_query-Burst :
      (d : Driver) (now : ℤ) (n since : ℕ) (db : Db) (go : ℕ → ℕ → List Frame × Ending)
      → IsValid db
      → ((next m : ℕ) → Burst next (go next m))
      → Burst since (after_query writes limit now n (since_page d u since limit db) go)
  unfolding after_query since_page envelopes_in
  after_query-Burst d now n since db go v k = elim (Bool-cases d.reads) [
    | inr off ↦ simp off (since, omega arith, tt)
    | inl on ↦
        let rows = take limit (backlog u since db) in
        let next = next_cursor since rows in
        simp on (
          after_page-Burst since next rows (write_frames writes n (page_frames now rows next))
            (go next)
            (Between-write_frames writes n since next (page_frames now rows next) (
              rw (envelopes_in-page_frames now rows next)
                (Between-page since limit (backlog u since db) (backlog-Ascends u since db v))))
            (k next))
  ]

  stream_catch_up-Burst :
      (fuel : ℕ) (snapshots : ℕ → Snapshot) (i n since : ℕ)
      → ((j : ℕ) → IsValid (snapshots j).db)
      → Burst since (stream_catch_up writes u limit fuel snapshots i n since)
  unfolding stream_catch_up envelopes_in
  stream_catch_up-Burst zero snapshots i n since v = (since, omega arith, tt)
  stream_catch_up-Burst (suc fuel) snapshots i n since v =
      after_query-Burst (snapshots i).driver (snapshots i).now n since (snapshots i).db
        (λ next m. stream_catch_up writes u limit fuel snapshots (i + 1) (n + m) next) (v i)
        (λ next m. stream_catch_up-Burst fuel snapshots (i + 1) (n + m) next v)

  -- Every query of a wakeup sees well-formed tables.
  abbrev pub Sound : Event → Type 0
  Sound gone = Unit
  Sound ticked = Unit
  Sound (woken snapshots) = (j : ℕ) → IsValid (snapshots j).db

  after_burst-Between :
      (lo : ℕ) (b : List Frame × Ending) (go : ℕ → ℕ → List Frame)
      → Burst lo b
      → ((m next : ℕ) → (hi : ℕ) × Between next hi (envelopes_in (go m next)))
      → (hi : ℕ) × Between lo hi (envelopes_in (after_burst b go))
  unfolding after_burst
  after_burst-Between lo (fs, broken) go (hi, h, e) k = (hi, h)
  after_burst-Between lo (fs, out_of_fuel) go (hi, h, e) k = (hi, h)
  after_burst-Between lo (fs, caught_up next) go (hi, h, e) k =
      let (hi', h') = k (length fs) next in
      (
        hi',
        rw (envelopes_in-append fs (go (length fs) next)) (
            Between-append lo next hi' (envelopes_in fs) (envelopes_in (go (length fs) next))
              (rw e h) h'),
      )

  wait_loop-Between :
      (fuel : ℕ) (events : List Event) (n since : ℕ)
      → All Sound events
      → (hi : ℕ) × Between since hi (envelopes_in (wait_loop writes u limit fuel events n since))
  unfolding wait_loop envelopes_in
  wait_loop-Between fuel [] n since s = (since, omega arith)
  wait_loop-Between fuel (gone ∷ events) n since s = (since, omega arith)
  wait_loop-Between fuel (ticked ∷ events) n since s = elim (Bool-cases (writes n)) [
    | inl on ↦ simp on (wait_loop-Between fuel events (n + 1) since s.1)
    | inr off ↦ simp off (since, omega arith)
  ]
  wait_loop-Between fuel (woken snapshots ∷ events) n since s =
      after_burst-Between since (stream_catch_up writes u limit fuel snapshots 0 n since)
        (λ m next. wait_loop writes u limit fuel events (n + m) next)
        (stream_catch_up-Burst fuel snapshots 0 n since s.0)
        (λ m next. wait_loop-Between fuel events (n + m) next s.1)

  -- Whatever is pushed during a stream and whichever query or write fails, the envelopes that the
  -- client gets have strictly rising numbers above its cursor, so none comes twice, if each query
  -- sees well-formed tables.
  pub serve_live_sse-Between :
      (fuel : ℕ) (snapshots : ℕ → Snapshot) (events : List Event) (since : ℕ)
      → ((j : ℕ) → IsValid (snapshots j).db)
      → All Sound events
      → (hi : ℕ) × Between since hi
          (envelopes_in (serve_live_sse writes u limit fuel snapshots events since))
  unfolding serve_live_sse
  serve_live_sse-Between fuel snapshots events since v s =
      wait_loop-Between fuel (woken snapshots ∷ events) 0 since (v, s)
