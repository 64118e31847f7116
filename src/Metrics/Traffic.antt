-- ===== src/Metrics/Traffic.antt =====
-- The collector of internal/metrics/metrics.go against the requests that entered and left `Wrap`.
use ulsync_server.Prelude.{
  ℕ, ◌+◌, ◌%◌, ◌^◌, ◌≡◌, refl, Bool, true, ◌&&◌, Option, none, some, List, [], ◌∷◌, arith, ltb, leb,
  if◌then◌else◌, inl, inr, Bool-cases,
}
use ulsync_server.Metrics.{
  Collector, LastError, Finished, new_collector, add_int64, observe_latency, record_last_error,
  count_status, note_error, is_timed, note_latency, wrap_enter, wrap_leave,
}
use ulsync_server.Metrics.Ring.{Holds, new_collector-Holds, observe_latency-Holds}

-- A request enters `Wrap`, or leaves it.
pub data Moment : Type 0 where
  entered : Moment
  left : Finished → Moment

-- The collector after the moments, the newest first.
unfoldable pub collect : List Moment → Collector
collect [] = new_collector
collect (entered ∷ ms) = wrap_enter (collect ms)
collect (left f ∷ ms) = wrap_leave f (collect ms)

unfoldable pub entries : List Moment → ℕ
entries [] = 0
entries (entered ∷ ms) = entries ms + 1
entries (left f ∷ ms) = entries ms

-- The requests that left with a status in the range.
unfoldable pub exits : (ℕ → Bool) → List Moment → ℕ
exits p [] = 0
exits p (entered ∷ ms) = exits p ms
exits p (left f ∷ ms) = (if p f.status then 1 else 0) + exits p ms

-- The times of the requests that are no live pulls.
unfoldable pub timed : List Moment → List ℕ
unfolding is_timed
timed [] = []
timed (entered ∷ ms) = timed ms
timed (left f ∷ ms) = let rest = timed ms in if is_timed f.live then f.elapsed ∷ rest else rest

unfoldable pub latest_error : List Moment → Option LastError
latest_error [] = none
latest_error (entered ∷ ms) = latest_error ms
latest_error (left f ∷ ms) =
    let rest = latest_error ms in
    if leb 400 f.status
    then some (record { method = f.method; path = f.path; status = f.status; at = f.at })
    else rest

abbrev pub any_status : ℕ → Bool
any_status s = true

abbrev pub client_error : ℕ → Bool
client_error s = leb 400 s && ltb s 500

abbrev pub server_error : ℕ → Bool
server_error s = leb 500 s

-- What the collector shows. Counters are taken modulo 2^64.
pub record Shows (ms : List Moment) (c : Collector) : Type 0 where
  pub ring : Holds (timed ms) c
  pub total : c.total ≡ exits any_status ms % 2 ^ 64
  pub status_4xx : c.status_4xx ≡ exits client_error ms % 2 ^ 64
  pub status_5xx : c.status_5xx ≡ exits server_error ms % 2 ^ 64
  pub in_flight : (c.in_flight + exits any_status ms) % 2 ^ 64 ≡ entries ms % 2 ^ 64
  pub last_err : c.last_err ≡ latest_error ms

same_ring :
    {h : List ℕ} (c d : Collector)
    → d.latencies ≡ c.latencies
    → d.ring_idx ≡ c.ring_idx
    → d.ring_count ≡ c.ring_count
    → Holds h c
    → Holds h d
same_ring c d l i n v = record {
  size = rw l v.size;
  idx = rw i v.idx;
  count = rw n v.count;
  kept = rw l v.kept;
}

-- The collector before its latency is noted, in the order of `Wrap`.
counted :
    (f : Finished) (c : Collector)
    → let d = note_error f (count_status f.status c) in
      (d.latencies ≡ c.latencies)
      × (d.ring_idx ≡ c.ring_idx)
      × (d.ring_count ≡ c.ring_count)
      × (d.in_flight ≡ c.in_flight)
      × (d.total ≡ (c.total + 1) % 2 ^ 64)
      × (d.status_4xx
          ≡ (if client_error f.status then (c.status_4xx + 1) % 2 ^ 64 else c.status_4xx))
      × (d.status_5xx
          ≡ (if server_error f.status then (c.status_5xx + 1) % 2 ^ 64 else c.status_5xx))
      × (d.last_err ≡ (
          if leb 400 f.status
          then some (record { method = f.method; path = f.path; status = f.status; at = f.at })
          else c.last_err))
unfolding note_error count_status add_int64 record_last_error
counted f c = (
  ground arith,
  ground arith,
  ground arith,
  ground arith,
  ground arith,
  ground arith,
  ground arith,
  ground arith,
)

-- Noting the latency touches the ring alone.
noted :
    (f : Finished) (c : Collector)
    → let d = note_latency f c in
      (d.in_flight ≡ c.in_flight)
      × (d.total ≡ c.total)
      × (d.status_4xx ≡ c.status_4xx)
      × (d.status_5xx ≡ c.status_5xx)
      × (d.last_err ≡ c.last_err)
unfolding note_latency observe_latency
noted f c = (ground arith, ground arith, ground arith, ground arith, ground arith)

noted-Holds :
    (f : Finished) (c : Collector) (h : List ℕ)
    → Holds h c
    → Holds (if is_timed f.live then f.elapsed ∷ h else h) (note_latency f c)
unfolding note_latency
noted-Holds f c h v = elim (Bool-cases (is_timed f.live)) [
  | inl timed_one ↦ simp timed_one (observe_latency-Holds f.elapsed h c v)
  | inr untimed ↦ simp untimed v
]

left-Shows :
    (f : Finished) (ms : List Moment) (c : Collector)
    → Shows ms c
    → Shows (left f ∷ ms) (wrap_leave f c)
unfolding wrap_leave add_int64 exits entries timed latest_error
left-Shows f ms c v =
    let d = note_error f (count_status f.status c) in
    let (l, i, n, fl, t, s4, s5, le) = counted f c in
    let (fl', t', s4', s5', le') = noted f d in
    record {
      ring =
          same_ring (note_latency f d) (wrap_leave f c) refl refl refl
            (noted-Holds f d (timed ms) (same_ring c d l i n v.ring));
      total = omega (arith, t, t', v.total);
      status_4xx = ground (arith, s4, s4', v.status_4xx);
      status_5xx = ground (arith, s5, s5', v.status_5xx);
      in_flight = omega (arith, fl, fl', v.in_flight);
      last_err = ground (arith, le, le', v.last_err);
    }

entered-Shows :
    (ms : List Moment) (c : Collector) → Shows ms c → Shows (entered ∷ ms) (wrap_enter c)
unfolding wrap_enter add_int64 exits entries timed latest_error
entered-Shows ms c v = record {
  ring = same_ring c (wrap_enter c) refl refl refl v.ring;
  total = v.total;
  status_4xx = v.status_4xx;
  status_5xx = v.status_5xx;
  in_flight = omega (arith, v.in_flight);
  last_err = v.last_err;
}

-- After any sequence of entries and exits the counters are the numbers of the requests that left,
-- of those with a status of 400 to 499 and of those with one of 500 or more, modulo 2^64; the
-- number in flight is that of the entries less the exits, modulo 2^64; the last error is that of
-- the latest request that left with a status of 400 or more; and the ring holds the times of the
-- newest 1024 requests that were no live pulls.
pub collect-Shows : (ms : List Moment) → Shows ms (collect ms)
unfolding collect new_collector timed exits entries latest_error
collect-Shows [] = record {
  ring = new_collector-Holds;
  total = omega arith;
  status_4xx = omega arith;
  status_5xx = omega arith;
  in_flight = omega arith;
  last_err = refl;
}
collect-Shows (entered ∷ ms) = entered-Shows ms (collect ms) (collect-Shows ms)
collect-Shows (left f ∷ ms) = left-Shows f ms (collect ms) (collect-Shows ms)
