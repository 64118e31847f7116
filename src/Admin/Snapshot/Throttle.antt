-- ===== src/Admin/Snapshot/Throttle.antt =====
-- How often internal/admin/snapshot.go counts the rows, and which counts it shows.
use ulsync_server.Prelude.{
  ℕ, ◌+◌, ◌≤◌, ◌<◌, ◌≡◌, ◌⊎◌, inl, inr, refl, true, Option, none, some, List, [], ◌∷◌, Str, arith,
  Bool-cases, Option-cases, if◌then◌else◌,
}
use ulsync_server.Store.Pools.{Stats}
use ulsync_server.Admin.Snapshot.{
  Options, stats_every, Cache, Tick, zero_stats, stale, after_stats, refresh_stats, tick, Seen,
  build_snapshot,
}

abbrev pub empty_cache : Cache
empty_cache = record { stats_cached = zero_stats []; stats_at = none }

module _ (opts : Options) (path : Str) where
  -- The cache after ticks, the newest first, from the empty one, and the ticks among them that called
  -- `Stats`.
  unfoldable pub cache_after : List Tick → Cache
  cache_after [] = empty_cache
  cache_after (t ∷ ticks) = (refresh_stats opts path t (cache_after ticks)).0

  unfoldable pub calls : List Tick → List Tick
  calls [] = []
  calls (t ∷ ticks) =
      let rest = calls ticks in
      if (refresh_stats opts path t (cache_after ticks)).1 then t ∷ rest else rest

  -- A call after another starts `statsEvery` after its end, unless that one failed and was not the
  -- first.
  abbrev pub Spaced : List Tick → Type 0
  Spaced [] = Unit
  Spaced (t ∷ []) = Unit
  Spaced (t ∷ s ∷ []) = s.done_at + stats_every opts ≤ t.checked_at
  Spaced (t ∷ s ∷ r ∷ older) =
      ((s.stats ≡ none) ⊎ (s.done_at + stats_every opts ≤ t.checked_at)) × Spaced (s ∷ r ∷ older)

  -- The result of the newest call that succeeded; zeros if none did.
  unfoldable pub newest : List Tick → Stats
  newest [] = zero_stats path
  newest (t ∷ older) = elim t.stats [ some s ↦ s | none ↦ newest older ]

  -- The time that the cache keeps: none before the first call, and then the end of the newest call,
  -- unless that one failed and was not the first.
  abbrev Kept : List Tick → Option ℕ → Type 0
  Kept [] at = at ≡ none
  Kept (t ∷ []) at = at ≡ some t.done_at
  Kept (t ∷ s ∷ older) at = (u : ℕ) × (at ≡ some u) × ((t.stats ≡ none) ⊎ (u ≡ t.done_at))

  -- The counts that the cache shows after a call.
  abbrev pub Shown : List Tick → Stats → Type 0
  Shown [] cached = Unit
  Shown (t ∷ older) cached = cached ≡ newest (t ∷ older)

  every_positive : 0 < stats_every opts
  unfolding stats_every
  every_positive = ground arith

  record Follows (called : List Tick) (cache : Cache) : Type 0 where
    kept : Kept called cache.stats_at
    spaced : Spaced called
    shown : Shown called cache.stats_cached

  module _ (t : Tick) (cache : Cache) where
    -- The first call sets the cache whatever its result is.
    first_call :
        cache.stats_at ≡ none
        → ((after_stats path t.done_at t.stats cache).stats_at ≡ some t.done_at)
          × ((after_stats path t.done_at t.stats cache).stats_cached ≡ newest (t ∷ []))
    unfolding after_stats newest
    first_call h = elim (Option-cases t.stats) [
      | inl e ↦ (ground (arith, h, e), ground (arith, h, e))
      | inr (s, e) ↦ (ground (arith, h, e), ground (arith, h, e))
    ]

    later_call :
        (older : List Tick) (u : ℕ)
        → cache.stats_at ≡ some u
        → cache.stats_cached ≡ newest older
        → ((w : ℕ) × ((after_stats path t.done_at t.stats cache).stats_at ≡ some w)
            × ((t.stats ≡ none) ⊎ (w ≡ t.done_at)))
          × ((after_stats path t.done_at t.stats cache).stats_cached ≡ newest (t ∷ older))
    unfolding after_stats newest
    later_call older u h k = elim (Option-cases t.stats) [
      | inl e ↦ ((u, ground (arith, h, e), inl e), ground (arith, h, e, k))
      | inr (s, e) ↦ ((t.done_at, ground (arith, h, e), inr refl), ground (arith, h, e))
    ]

    stale_since :
        (u : ℕ)
        → cache.stats_at ≡ some u
        → stale (stats_every opts) t.checked_at cache.stats_at ≡ true
        → u + stats_every opts ≤ t.checked_at
    unfolding stale
    stale_since u e h = let p = every_positive in ground (arith, e, h, p)

    spaced_since :
        (s : Tick) (u : ℕ)
        → cache.stats_at ≡ some u
        → (s.stats ≡ none) ⊎ (u ≡ s.done_at)
        → stale (stats_every opts) t.checked_at cache.stats_at ≡ true
        → (s.stats ≡ none) ⊎ (s.done_at + stats_every opts ≤ t.checked_at)
    spaced_since s u e (inl failed) h = inl failed
    spaced_since s u e (inr same) h = inr (omega (arith, same, stale_since u e h))

    called-Follows :
        (called : List Tick)
        → Follows called cache
        → stale (stats_every opts) t.checked_at cache.stats_at ≡ true
        → Follows (t ∷ called) (after_stats path t.done_at t.stats cache)
    called-Follows [] f h =
        let (k, n) = first_call f.kept in record { kept = k; spaced = tt; shown = n }
    called-Follows (s ∷ []) f h =
        let (k, n) = later_call (s ∷ []) s.done_at f.kept f.shown in
        record { kept = k; spaced = stale_since s.done_at f.kept h; shown = n }
    called-Follows (s ∷ r ∷ older) f h =
        let (u, e, alt) = f.kept in
        let (k, n) = later_call (s ∷ r ∷ older) u e f.shown in
        record { kept = k; spaced = (spaced_since s u e alt h, f.spaced); shown = n }

  ticks-Follows : (ticks : List Tick) → Follows (calls ticks) (cache_after ticks)
  unfolding calls cache_after refresh_stats
  ticks-Follows [] = record { kept = refl; spaced = tt; shown = tt }
  ticks-Follows (t ∷ ticks) =
      elim (Bool-cases (stale (stats_every opts) t.checked_at (cache_after ticks).stats_at)) [
        | inl h ↦
            let e : calls (t ∷ ticks) ≡ t ∷ calls ticks = ground (arith, h) in
            let k : cache_after (t ∷ ticks)
                ≡ after_stats path t.done_at t.stats (cache_after ticks) =
              ground (arith, h) in
            rw (e, k) (called-Follows t (cache_after ticks) (calls ticks) (ticks-Follows ticks) h)
        | inr h ↦
            let e : calls (t ∷ ticks) ≡ calls ticks = ground (arith, h) in
            let k : cache_after (t ∷ ticks) ≡ cache_after ticks = ground (arith, h) in
            rw (e, k) (ticks-Follows ticks)
      ]

  -- Over any ticks from the empty cache, a call of Stats starts the interval after the end of the
  -- call before it, unless that one failed and was not the first; and the frame of a tick shows the
  -- result of the newest call that succeeded, or zeros if none has.
  pub calls-Spaced :
      (t : Tick) (ticks : List Tick) (seen : Seen)
      → Spaced (calls (t ∷ ticks))
        × Shown (calls (t ∷ ticks)) (tick opts path t seen (cache_after ticks)).1.storage
  unfolding tick cache_after build_snapshot
  calls-Spaced t ticks seen = let f = ticks-Follows (t ∷ ticks) in (f.spaced, f.shown)
