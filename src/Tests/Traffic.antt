-- ===== src/Tests/Traffic.antt =====
-- The properties of internal/metrics/metrics.go at sample requests.
use ulsync_server.Prelude.{
  none, ℕ, ◌*◌, ◌≤◌, ◌<◌, ◌≡◌, refl, [], ◌∷◌, Str, codes, arith, ltb, leb, List, str_eq,
}
use ulsync_server.Prelude.Int.{pos}
use ulsync_server.Metrics.{Collector, Finished, new_collector, wrap_enter, wrap_leave, p95}
use ulsync_server.Metrics.Percentile.{count, p95-rank}
use ulsync_server.Metrics.Traffic.{Moment, entered, left, collect, Shows, collect-Shows}

program : Unit {0}
unfolding str_eq new_collector wrap_enter wrap_leave p95 collect
program = tt

abbrev answered : Str → ℕ → ℕ → Finished
answered live status elapsed = record {
  method = codes "GET";
  path = codes "/v1/sync/pull";
  live = live;
  status = status;
  elapsed = elapsed;
  at = pos 99;
}

-- A live poll is in flight, and two pulls were answered.
abbrev moments : List Moment
moments = left (answered [] 400 7) ∷ left (answered [] 200 3) ∷ entered ∷ entered ∷ entered ∷ []

collect-Shows_example : Shows moments (collect moments)
collect-Shows_example = collect-Shows moments

counters :
    ((collect moments).in_flight ≡ 1)
    × ((collect moments).total ≡ 2)
    × ((collect moments).status_4xx ≡ 1)
unfolding program
counters = (refl, refl, refl)

-- Three samples in a collector.
abbrev sampled : Collector
sampled = record {
  in_flight = 0;
  total = 3;
  status_4xx = 0;
  status_5xx = 0;
  latencies = 9 ∷ 4 ∷ 6 ∷ 0 ∷ [];
  ring_idx = 3;
  ring_count = 3;
  last_err = none;
}

p95-rank_example :
    (19 * 3 ≤ 20 * count (λ x. leb x (p95 sampled)) (9 ∷ 4 ∷ 6 ∷ []))
    × (20 * count (λ x. ltb x (p95 sampled)) (9 ∷ 4 ∷ 6 ∷ []) < 19 * 3)
p95-rank_example = p95-rank sampled (omega arith) (omega arith)

slowest : p95 sampled ≡ 9
unfolding program
slowest = refl
