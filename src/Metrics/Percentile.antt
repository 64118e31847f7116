-- ===== src/Metrics/Percentile.antt =====
-- The rank of the sample that `P95` of internal/metrics/metrics.go returns.
use ulsync_server.Prelude.{
  ℕ, zero, suc, ◌+◌, ◌*◌, ◌≤◌, ◌<◌, ◌≡◌, refl, Bool, List, [], ◌∷◌, arith, ltb, leb, length, take,
  if◌then◌else◌, inl, inr, Bool-cases,
}
use ulsync_server.Metrics.{Collector, insert_sample, sort_samples, nth, p95_index, p95}

-- How many samples pass the test.
abbrev pub count : (ℕ → Bool) → List ℕ → ℕ
count p [] = 0
count p (x ∷ xs) = (if p x then 1 else 0) + count p xs

abbrev Rises : ℕ → List ℕ → Type 0
Rises lo [] = Unit
Rises lo (x ∷ xs) = (lo ≤ x) × Rises x xs

insert_sample-Rises :
    (lo d : ℕ) (xs : List ℕ) → lo ≤ d → Rises lo xs → Rises lo (insert_sample d xs)
unfolding insert_sample
insert_sample-Rises lo d [] h r = (h, tt)
insert_sample-Rises lo d (x ∷ xs) h r = elim (Bool-cases (leb d x)) [
  | inl first ↦ simp first (h, (ground arith, r.1))
  | inr later ↦ simp later (r.0, insert_sample-Rises x d xs (ground arith) r.1)
]

sort_samples-Rises : (xs : List ℕ) → Rises 0 (sort_samples xs)
unfolding sort_samples
sort_samples-Rises [] = tt
sort_samples-Rises (d ∷ ds) =
    insert_sample-Rises 0 d (sort_samples ds) (omega arith) (sort_samples-Rises ds)

module _ (p : ℕ → Bool) where
  count-insert_sample : (d : ℕ) (xs : List ℕ) → count p (insert_sample d xs) ≡ count p (d ∷ xs)
  unfolding insert_sample
  count-insert_sample d [] = refl
  count-insert_sample d (x ∷ xs) = ground (arith, count-insert_sample d xs)

  count-sort_samples : (xs : List ℕ) → count p (sort_samples xs) ≡ count p xs
  unfolding sort_samples
  count-sort_samples [] = refl
  count-sort_samples (d ∷ ds) =
      omega (arith, count-insert_sample d (sort_samples ds), count-sort_samples ds)

length-insert_sample : (d : ℕ) (xs : List ℕ) → length (insert_sample d xs) ≡ length xs + 1
unfolding insert_sample
length-insert_sample d [] = omega arith
length-insert_sample d (x ∷ xs) = ground (arith, length-insert_sample d xs)

length-sort_samples : (xs : List ℕ) → length (sort_samples xs) ≡ length xs
unfolding sort_samples
length-sort_samples [] = refl
length-sort_samples (d ∷ ds) =
    omega (arith, length-insert_sample d (sort_samples ds), length-sort_samples ds)

none_below : (v lo : ℕ) (xs : List ℕ) → v ≤ lo → Rises lo xs → count (λ x. ltb x v) xs ≡ 0
none_below v lo [] h r = refl
none_below v lo (x ∷ xs) h r = ground (arith, none_below v x xs (omega arith) r.1, r.0)

-- The element at an index of a sorted list: so many are at most it, and no more are below it.
rank :
    (lo i : ℕ) (xs : List ℕ)
    → Rises lo xs
    → i < length xs
    → (lo ≤ nth i xs)
      × (i + 1 ≤ count (λ x. leb x (nth i xs)) xs)
      × (count (λ x. ltb x (nth i xs)) xs ≤ i)
unfolding nth
rank lo i [] r h = absurd (omega arith)
rank lo zero (x ∷ xs) r h = (r.0, ground arith, ground (arith, none_below x x xs (omega arith) r.1))
rank lo (suc i) (x ∷ xs) r h =
    let (a, b, c) = rank x i xs r.1 (omega arith) in
    (omega (arith, a, r.0), ground (arith, a, b), ground (arith, a, c))

module _ {ℓ} {A : Type ℓ} where
  length-take : (n : ℕ) (xs : List A) → n ≤ length xs → length (take n xs) ≡ n
  length-take zero xs h = refl
  length-take (suc n) [] h = absurd (omega arith)
  length-take (suc n) (x ∷ xs) h = omega (arith, length-take n xs (omega arith))

p95_index-bounds :
    (n : ℕ)
    → 0 < n
    → (p95_index n < n) × (19 * n ≤ 20 * (p95_index n + 1)) × (20 * p95_index n < 19 * n)
unfolding p95_index
p95_index-bounds n h = (ground arith, ground arith, ground arith)

p95_sample :
    (c : Collector)
    → 0 < c.ring_count
    → p95 c ≡ nth (p95_index c.ring_count) (sort_samples (take c.ring_count c.latencies))
unfolding p95
p95_sample c h = ground arith

-- With samples in the ring, at least 95 % of them are at most the returned duration, and less than
-- 95 % are below it.
pub p95-rank :
    (c : Collector)
    → 0 < c.ring_count
    → c.ring_count ≤ length c.latencies
    → (19 * c.ring_count ≤ 20 * count (λ x. leb x (p95 c)) (take c.ring_count c.latencies))
      × (20 * count (λ x. ltb x (p95 c)) (take c.ring_count c.latencies) < 19 * c.ring_count)
p95-rank c some_sample in_ring =
    let samples = take c.ring_count c.latencies in
    let sorted = sort_samples samples in
    let size : length sorted ≡ c.ring_count =
      omega (arith, length-sort_samples samples, length-take c.ring_count c.latencies in_ring) in
    let v = nth (p95_index c.ring_count) sorted in
    let (a, b, d) = p95_index-bounds c.ring_count some_sample in
    let (lo, at_most, below) =
      rank 0 (p95_index c.ring_count) sorted (sort_samples-Rises samples)
        (omega (arith, size, a)) in
    rw (p95_sample c some_sample) (
      omega (arith, at_most, b, count-sort_samples (λ x. leb x v) samples),
      omega (arith, below, d, count-sort_samples (λ x. ltb x v) samples),
    )
