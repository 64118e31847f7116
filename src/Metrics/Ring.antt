-- ===== src/Metrics/Ring.antt =====
-- The ring of internal/metrics/metrics.go against the history of the latencies that it was given.
use ulsync_server.Prelude.{
  ℕ, zero, suc, ◌-◌, ◌%◌, ◌<◌, ◌≡◌, ◌≢◌, refl, List, [], ◌∷◌, arith, ltb, ◌==◌, length,
  if◌then◌else◌,
}
use ulsync_server.Metrics.{
  Collector, new_collector, zeros, latency_buffer_cap, write_at, observe_latency, nth,
}

length-write_at : (i d : ℕ) (xs : List ℕ) → length (write_at i d xs) ≡ length xs
unfolding write_at
length-write_at i d [] = refl
length-write_at zero d (x ∷ xs) = omega arith
length-write_at (suc i) d (x ∷ xs) = omega (arith, length-write_at i d xs)

nth-write_at :
    (i j d : ℕ) (xs : List ℕ)
    → i < length xs
    → nth j (write_at i d xs) ≡ (if j == i then d else nth j xs)
unfolding write_at nth
nth-write_at i j d [] h = absurd (omega arith)
nth-write_at zero zero d (x ∷ xs) h = refl
nth-write_at zero (suc j) d (x ∷ xs) h = ground arith
nth-write_at (suc i) zero d (x ∷ xs) h = ground arith
nth-write_at (suc i) (suc j) d (x ∷ xs) h = ground (arith, nth-write_at i j d xs (omega arith))

-- The ring after the history `h` of latencies, the newest first: the k-th newest stands where it was
-- written, as long as it is among the newest 1024.
pub record Holds (h : List ℕ) (c : Collector) : Type 0 where
  pub size : length c.latencies ≡ latency_buffer_cap
  pub idx : c.ring_idx ≡ length h % latency_buffer_cap
  pub count :
      c.ring_count ≡ (if ltb (length h) latency_buffer_cap then length h else latency_buffer_cap)
  pub kept :
      (k : ℕ)
      → k < latency_buffer_cap
      → k < length h
      → nth ((length h - 1 - k) % latency_buffer_cap) c.latencies ≡ nth k h

length-zeros : (n : ℕ) → length (zeros n) ≡ n
unfolding zeros
length-zeros zero = refl
length-zeros (suc n) = omega (arith, length-zeros n)

pub new_collector-Holds : Holds [] new_collector
unfolding new_collector
new_collector-Holds = record {
  size = length-zeros latency_buffer_cap;
  idx = omega arith;
  count = ground arith;
  kept = λ k h l. absurd (omega arith);
}

-- One more latency replaces the oldest of a full ring, and of no other.
pub observe_latency-Holds :
    (d : ℕ) (h : List ℕ) (c : Collector) → Holds h c → Holds (d ∷ h) (observe_latency d c)
unfolding observe_latency nth
observe_latency-Holds d h c r = record {
  size = omega (arith, length-write_at c.ring_idx d c.latencies, r.size);
  idx = omega (arith, r.idx);
  count = ground (arith, r.count);
  kept = go;
}
  where
    in_ring : c.ring_idx < length c.latencies
    in_ring = omega (arith, r.idx, r.size)

    newest : (p : ℕ) → p ≡ c.ring_idx → nth p (write_at c.ring_idx d c.latencies) ≡ d
    newest p e = ground (arith, e, nth-write_at c.ring_idx p d c.latencies in_ring)

    older :
        (p q k : ℕ)
        → p ≡ q
        → q ≢ c.ring_idx
        → nth q c.latencies ≡ nth k h
        → nth p (write_at c.ring_idx d c.latencies) ≡ nth k h
    older p q k e other held =
        ground (arith, e, other, held, nth-write_at c.ring_idx p d c.latencies in_ring)

    go :
        (k : ℕ)
        → k < latency_buffer_cap
        → k < suc (length h)
        → nth ((suc (length h) - 1 - k) % latency_buffer_cap) (write_at c.ring_idx d c.latencies)
          ≡ nth k (d ∷ h)
    go zero h1 h2 = newest ((suc (length h) - 1 - 0) % latency_buffer_cap) (omega (arith, r.idx))
    go (suc k) h1 h2 =
        older ((suc (length h) - 1 - suc k) % latency_buffer_cap)
          ((length h - 1 - k) % latency_buffer_cap) k (omega arith) (λ p. omega (arith, p, r.idx))
          (r.kept k (omega arith) (omega arith))
