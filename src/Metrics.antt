-- ===== src/Metrics.antt =====
-- internal/metrics/metrics.go: the counters and the ring of latencies of the /v1 routes. An atomic
-- int64 is its 64 bits, and each operation under the mutex is one step.
pub mod Ring
pub mod Percentile
pub mod Traffic
pub mod Writer
use ulsync_server.Prelude.{
  ℕ, zero, suc, ◌+◌, ◌-◌, ◌*◌, ◌/◌, ◌%◌, ◌^◌, Bool, not, ◌&&◌, Option, none, some, List, [], ◌∷◌,
  Str, codes, str_eq, ltb, leb, ◌==◌, take, if◌then◌else◌,
}
use ulsync_server.Prelude.Int.{ℤ}

abbrev pub latency_buffer_cap : ℕ
latency_buffer_cap = 1024

-- `LastError`, with the parts of its text.
pub record LastError : Type 0 where
  pub method : Str
  pub path : Str
  pub status : ℕ
  pub at : ℤ

-- `Collector`; `last_err` is none while `hasErr` is false.
pub record Collector : Type 0 where
  pub in_flight : ℕ
  pub total : ℕ
  pub status_4xx : ℕ
  pub status_5xx : ℕ
  pub latencies : List ℕ
  pub ring_idx : ℕ
  pub ring_count : ℕ
  pub last_err : Option LastError

unfoldable pub zeros : ℕ → List ℕ
zeros zero = []
zeros (suc n) = 0 ∷ zeros n

-- `New`
unfoldable pub new_collector : Collector
new_collector = record {
  in_flight = 0;
  total = 0;
  status_4xx = 0;
  status_5xx = 0;
  latencies = zeros latency_buffer_cap;
  ring_idx = 0;
  ring_count = 0;
  last_err = none;
}

-- `atomic.Int64.Add`
unfoldable pub add_int64 : ℕ → ℕ → ℕ
add_int64 n k = (n + k) % 2 ^ 64

-- `c.latencies[i] = d`; the index is always in range.
unfoldable pub write_at : ℕ → ℕ → List ℕ → List ℕ
write_at i d [] = []
write_at zero d (x ∷ xs) = d ∷ xs
write_at (suc i) d (x ∷ xs) = x ∷ write_at i d xs

-- `observeLatency`
unfoldable pub observe_latency : ℕ → Collector → Collector
unfolding write_at
observe_latency d c = record c {
  latencies = write_at c.ring_idx d c.latencies;
  ring_idx = (c.ring_idx + 1) % latency_buffer_cap;
  ring_count = if ltb c.ring_count latency_buffer_cap then c.ring_count + 1 else c.ring_count;
}

-- A request at the end of `Wrap`.
pub record Finished : Type 0 where
  pub method : Str
  pub path : Str
  pub live : Str
  pub status : ℕ
  pub elapsed : ℕ
  pub at : ℤ

-- `recordLastError`
unfoldable pub record_last_error : Finished → Collector → Collector
record_last_error f c = record c {
  last_err = some (record { method = f.method; path = f.path; status = f.status; at = f.at });
}

-- The counters of `Wrap` after the request.
unfoldable pub count_status : ℕ → Collector → Collector
unfolding add_int64
count_status status c =
    if leb 500 status
    then record c { total = add_int64 c.total 1; status_5xx = add_int64 c.status_5xx 1 }
    else if leb 400 status
    then record c { total = add_int64 c.total 1; status_4xx = add_int64 c.status_4xx 1 }
    else record c { total = add_int64 c.total 1 }

unfoldable pub note_error : Finished → Collector → Collector
unfolding record_last_error
note_error f c = if leb 400 f.status then record_last_error f c else c

-- Is the request's time a latency? A live pull holds its connection open.
unfoldable pub is_timed : Str → Bool
is_timed live = not (str_eq live (codes "sse")) && not (str_eq live (codes "poll"))

unfoldable pub note_latency : Finished → Collector → Collector
unfolding observe_latency is_timed
note_latency f c = if is_timed f.live then observe_latency f.elapsed c else c

-- `Wrap` before its handler.
unfoldable pub wrap_enter : Collector → Collector
unfolding add_int64
wrap_enter c = record c { in_flight = add_int64 c.in_flight 1 }

-- `Wrap` after its handler. Adding -1 adds 2^64 - 1 to the bits.
unfoldable pub wrap_leave : Finished → Collector → Collector
unfolding note_latency note_error count_status
wrap_leave f c =
    let noted = note_latency f (note_error f (count_status f.status c)) in
    record noted { in_flight = add_int64 noted.in_flight (2 ^ 64 - 1) }

-- `sort.Slice` by `<`
unfoldable pub insert_sample : ℕ → List ℕ → List ℕ
insert_sample d [] = d ∷ []
insert_sample d (x ∷ xs) = if leb d x then d ∷ x ∷ xs else x ∷ insert_sample d xs

unfoldable pub sort_samples : List ℕ → List ℕ
unfolding insert_sample
sort_samples [] = []
sort_samples (d ∷ ds) = insert_sample d (sort_samples ds)

-- The element at an index that is in range.
unfoldable pub nth : ℕ → List ℕ → ℕ
nth i [] = 0
nth zero (x ∷ xs) = x
nth (suc i) (x ∷ xs) = nth i xs

-- `int(math.Ceil(0.95*float64(n))) - 1` with its two guards. Up to 1024 samples the product in
-- float64 is on the same side of every integer as 19 n / 20.
unfoldable pub p95_index : ℕ → ℕ
p95_index n = let idx = (19 * n + 19) / 20 - 1 in if leb n idx then n - 1 else idx

-- `P95`
unfoldable pub p95 : Collector → ℕ
unfolding sort_samples nth p95_index
p95 c =
    if c.ring_count == 0
    then 0
    else nth (p95_index c.ring_count) (sort_samples (take c.ring_count c.latencies))
