-- ===== src/Auth/Refetch.antt =====
-- How often internal/auth/verifier.go reloads its keys for tokens that name an unknown kid.
use ulsync_server.Prelude.{
  ℕ, ◌+◌, ◌≤◌, ◌≡◌, subst, sym, refl, Bool, true, false, not, ◌&&◌, Option, none, some, List, [],
  ◌∷◌, Str, str_eq, arith, Bool-cases, inl, inr, ◌⊎◌, if◌then◌else◌,
}
use ulsync_server.Auth.{
  AuthSettings, Jwt, Verifier, Circumstances, unknown_kid_refetch_interval, has_key, reload,
  after_refresh, refresh_if_stale, may_refetch, refetch_unknown_kid, prepare_keys, diagnose,
}

module _ {K : Type 0} (cfg : AuthSettings) (jwt : Jwt K) where
  -- The state after calls of `Diagnose`, the newest first, and the times of the reloads for an unknown
  -- kid, the newest first.
  unfoldable pub state : List (Circumstances K × Str) → Verifier K → Verifier K
  state [] v = v
  state ((c, bearer) ∷ calls) v = (diagnose cfg jwt c bearer (state calls v)).0

  unfoldable pub refetch_times : List (Circumstances K × Str) → Verifier K → List ℕ
  refetch_times [] v = []
  refetch_times ((c, bearer) ∷ calls) v =
      let rest = refetch_times calls v in
      if (if str_eq bearer [] then false else (prepare_keys cfg jwt c bearer (state calls v)).1)
      then c.unknown_checked_at ∷ rest
      else rest

  reload-last :
      (loaded : Option (List (Str × K))) (at : ℕ) (v : Verifier K)
      → (reload cfg loaded at v).0.last_unknown_kid_fetch ≡ v.last_unknown_kid_fetch
  unfolding reload
  reload-last none at v = ground arith
  reload-last (some keys) at v = ground arith

  after_refresh-last :
      (at : ℕ) (r : Verifier K × Bool)
      → (after_refresh at r).last_unknown_kid_fetch ≡ r.0.last_unknown_kid_fetch
  unfolding after_refresh
  after_refresh-last at (v, true) = refl
  after_refresh-last at (v, false) = refl

  refresh-last :
      (c : Circumstances K) (v : Verifier K)
      → (refresh_if_stale cfg c v).last_unknown_kid_fetch ≡ v.last_unknown_kid_fetch
  unfolding refresh_if_stale
  refresh-last c v = ground (
    arith,
    reload-last c.refreshed c.refreshed_at v,
    after_refresh-last c.refreshed_at (reload cfg c.refreshed c.refreshed_at v),
  )

  -- Two reloads for an unknown kid, one after the other, are a minute apart.
  abbrev pub Spaced : List ℕ → Type 0
  Spaced [] = Unit
  Spaced (t ∷ []) = Unit
  Spaced (t ∷ s ∷ ts) = (s + unknown_kid_refetch_interval ≤ t) × Spaced (s ∷ ts)

  -- The newest of the times is the one that the verifier keeps.
  abbrev Kept : List ℕ → Option ℕ → Type 0
  Kept [] last = Unit
  Kept (t ∷ ts) last = last ≡ some t

  -- What a step does to the time that is kept: it stays, or becomes the time of an allowed reload.
  abbrev Moved : ℕ → Option ℕ → Verifier K × Bool → Type 0
  Moved now last r =
      ((r.1 ≡ false) × (r.0.last_unknown_kid_fetch ≡ last))
      ⊎ ((r.1 ≡ true) × (r.0.last_unknown_kid_fetch ≡ some now) × (may_refetch now last ≡ true))

  refetch-Moved :
      (c : Circumstances K) (v : Verifier K)
      → Moved c.unknown_checked_at v.last_unknown_kid_fetch (refetch_unknown_kid cfg c v)
  unfolding refetch_unknown_kid
  refetch-Moved c v =
      elim (Bool-cases (may_refetch c.unknown_checked_at v.last_unknown_kid_fetch)) [
        | inl allowed ↦ inr (
          ground (arith, allowed),
          ground (
            arith,
            allowed,
            reload-last c.refetched c.refetched_at
                (record v { last_unknown_kid_fetch = some c.unknown_checked_at }),
          ),
          allowed,
        )
        | inr early ↦ inl (ground (arith, early), ground (arith, early))
      ]

  prepare_keys-Moved :
      (c : Circumstances K) (bearer : Str) (v : Verifier K)
      → Moved c.unknown_checked_at v.last_unknown_kid_fetch (prepare_keys cfg jwt c bearer v)
  unfolding prepare_keys
  prepare_keys-Moved c bearer v =
      let fresh = refresh_if_stale cfg c v in
      let kid = jwt.peek_kid bearer in
      let same = refresh-last c v in
      elim (Bool-cases (not (str_eq kid []) && not (has_key kid fresh))) [
        | inl unknown ↦
            let e : refetch_unknown_kid cfg c fresh ≡ prepare_keys cfg jwt c bearer v =
              ground (arith, unknown) in
            subst (Moved c.unknown_checked_at v.last_unknown_kid_fetch) e (
              subst
                (λ (last : Option ℕ).
                  Moved c.unknown_checked_at last (refetch_unknown_kid cfg c fresh))
                same (refetch-Moved c fresh))
        | inr known ↦ inl (ground (arith, known), ground (arith, known, same))
      ]

  one_more_time :
      (now : ℕ) (last : Option ℕ) (ts : List ℕ)
      → may_refetch now last ≡ true
      → Kept ts last
      → Spaced ts
      → Spaced (now ∷ ts)
  unfolding may_refetch
  one_more_time now last [] may k s = tt
  one_more_time now last (t ∷ ts) may k s = (ground (arith, may, k), s)

  step_times :
      (now : ℕ) (last : Option ℕ) (r : Verifier K × Bool) (ts : List ℕ)
      → Moved now last r
      → Spaced ts × Kept ts last
      → let new_times = (if r.1 then now ∷ ts else ts) in
        Spaced new_times × Kept new_times r.0.last_unknown_kid_fetch
  step_times now last r ts (inl (no_reload, same)) (s, k) =
      simp no_reload (s, subst (Kept ts) (sym same) k)
  step_times now last r ts (inr (reloaded, kept, may)) (s, k) =
      simp reloaded (one_more_time now last ts may k s, kept)

  diagnose_missing :
      (c : Circumstances K) (bearer : Str) (v : Verifier K)
      → str_eq bearer [] ≡ true
      → v ≡ (diagnose cfg jwt c bearer v).0
  unfolding diagnose
  diagnose_missing c bearer v missing = ground (arith, missing)

  diagnose_present :
      (c : Circumstances K) (bearer : Str) (v : Verifier K)
      → str_eq bearer [] ≡ false
      → (prepare_keys cfg jwt c bearer v).0 ≡ (diagnose cfg jwt c bearer v).0
  unfolding diagnose
  diagnose_present c bearer v present = ground (arith, present)

  times-Spaced :
      (calls : List (Circumstances K × Str)) (v : Verifier K)
      → Spaced (refetch_times calls v)
        × Kept (refetch_times calls v) (state calls v).last_unknown_kid_fetch
  unfolding refetch_times state
  times-Spaced [] v = (tt, tt)
  times-Spaced ((c, bearer) ∷ calls) v = elim (Bool-cases (str_eq bearer [])) [
    | inl missing ↦
        let (s, k) = times-Spaced calls v in
        let e = diagnose_missing c bearer (state calls v) missing in
        simp missing (s, subst (λ x. Kept (refetch_times calls v) x.last_unknown_kid_fetch) e k)
    | inr present ↦
        let r = prepare_keys cfg jwt c bearer (state calls v) in
        let new_times =
          (if r.1 then c.unknown_checked_at ∷ refetch_times calls v else refetch_times calls v) in
        let (s, k) =
          step_times c.unknown_checked_at (state calls v).last_unknown_kid_fetch r
            (refetch_times calls v) (prepare_keys-Moved c bearer (state calls v))
            (times-Spaced calls v) in
        let e = diagnose_present c bearer (state calls v) present in
        simp present (s, subst (λ x. Kept new_times x.last_unknown_kid_fetch) e k)
  ]

  -- Over any sequence of tokens, any clock readings and any outcomes of the loads, two reloads for
  -- an unknown kid, one after the other, are at least a minute apart.
  pub refetch_times-Spaced :
      (calls : List (Circumstances K × Str)) (v : Verifier K) → Spaced (refetch_times calls v)
  refetch_times-Spaced calls v = (times-Spaced calls v).0
