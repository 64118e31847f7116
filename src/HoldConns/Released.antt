-- ===== src/HoldConns/Released.antt =====
-- What load/holdconns/main.go asks for and what it leaves open.
use ulsync_server.Prelude.{
  ℕ, zero, suc, ◌+◌, ◌%◌, ◌<◌, ◌≤◌, ◌≡◌, ◌≢◌, refl, true, false, ap, ap₂, sym, subst, ◌∙◌, Bool,
  some, List, [], ◌∷◌, ◌++◌, Str, length, arith, In, In-All, All, ◌⊎◌, inl, inr, Bool-cases,
  if_both, any, ltb, if◌then◌else◌, ◌==◌, All-append, length-append,
}
use ulsync_server.HoldConns.{
  Surroundings, Connections, HoldEnd, at_index, connected, close_all, connect, turn, hold,
  with_tokens, run_holdconns, index_out_of_range, interrupted, no_tokens, too_few, ConnectResult,
  failed, status, read_tokens, ReadTurn, context_done, line, read_failed, close_body, discard_sse,
}

-- The token of a request is the one at its number, around the list.
abbrev pub Sent : List Str → ℕ × Str → Type 0
Sent tokens a = at_index tokens (a.0 % length tokens) ≡ some a.1

-- Every body is closed, no index is out of range, and at most so many connections were asked for,
-- each with its token.
abbrev pub Released : List Str → ℕ → Connections × HoldEnd → Type 0
Released tokens m r =
    All (λ b. In b r.0.closed) r.0.bodies
    × (r.1 ≢ index_out_of_range)
    × All (Sent tokens) r.0.asked
    × (length r.0.asked ≤ m)

at_index-some :
    (tokens : List Str) (i : ℕ) → i < length tokens → (t : Str) × (at_index tokens i ≡ some t)
unfolding at_index
at_index-some [] i h = absurd (omega arith)
at_index-some (t ∷ tokens) zero h = (t, refl)
at_index-some (t ∷ tokens) (suc i) h = at_index-some tokens i (omega arith)

In-append : (b : ℕ) (xs ys : List ℕ) → In b ys → In b (xs ++ ys)
In-append b [] ys m = m
In-append b (x ∷ xs) ys m = inr (In-append b xs ys m)

asked-connected :
    (i : ℕ) (t : Str) (r : ConnectResult) (c : Connections)
    → (connected i t r c).asked ≡ c.asked ++ (i, t) ∷ []
unfolding connected
asked-connected i t failed c = refl
asked-connected i t (status s) c = elim (Bool-cases (s == 200)) [
  | inl e ↦ rw e refl
  | inr e ↦ rw e refl
]

close_all-Released :
    (tokens : List Str) (m : ℕ) (c : Connections)
    → All (Sent tokens) c.asked
    → length c.asked ≤ m
    → Released tokens m (close_all c, interrupted)
unfolding close_all
close_all-Released tokens m c h k = (
  In-All (λ b. In b (c.closed ++ c.bodies)) c.bodies (λ b. In-append b c.closed c.bodies),
  (λ e. ground arith),
  h,
  k,
)

hold-turn :
    (w : Surroundings) (tokens : List Str) (i n : ℕ) (c : Connections) {done : Bool} {t : Str}
    {built : Bool}
    → w.is_done i ≡ done
    → at_index tokens (i % length tokens) ≡ some t
    → w.builds ≡ built
    → hold w tokens i (suc n) c
      ≡ turn done (some t) built c (hold w tokens (i + 1) n (connected i t (w.responds i t) c))
unfolding hold connect
hold-turn w tokens i n c {done} {t} {built} d f b =
    ap (λ o. turn (w.is_done i) o w.builds c (hold w tokens (i + 1) n (connect w o i c))) f
    ∙ ap₂ (λ x y. turn x (some t) y c (hold w tokens (i + 1) n (connected i t (w.responds i t) c)))
        d b

Sent-connected :
    (tokens : List Str) (i : ℕ) (t : Str) (r : ConnectResult) (c : Connections)
    → at_index tokens (i % length tokens) ≡ some t
    → All (Sent tokens) c.asked
    → length c.asked ≤ i
    → All (Sent tokens) (connected i t r c).asked × (length (connected i t r c).asked ≤ i + 1)
Sent-connected tokens i t r c f h k =
    subst (λ l. All (Sent tokens) l × (length l ≤ i + 1)) (sym (asked-connected i t r c))
      (
        All-append (Sent tokens) c.asked ((i, t) ∷ []) h (f, tt),
        rw (length-append c.asked ((i, t) ∷ [])) (omega arith),
      )

none_held :
    (w : Surroundings) (c : Connections)
    → (w.builds ≡ true) ⊎ (c.bodies ≡ [])
    → w.builds ≡ false
    → All (λ b. In b c.closed) c.bodies
none_held w c (inl built) fails = absurd (ground (arith, built, fails))
none_held w c (inr none_yet) fails = rw none_yet tt

-- A turn that is not the last was built, and one that cannot be built is the first.
hold-Released :
    (w : Surroundings) (tokens : List Str) (i n : ℕ) (c : Connections)
    → 0 < length tokens
    → (w.builds ≡ true) ⊎ (c.bodies ≡ [])
    → All (Sent tokens) c.asked
    → length c.asked ≤ i
    → Released tokens (i + n) (hold w tokens i n c)
unfolding hold
hold-Released w tokens i zero c l b h k = close_all-Released tokens (i + 0) c h (omega arith)
hold-Released w tokens i (suc n) c l b h k =
    let (t, f) = at_index-some tokens (i % length tokens) (omega arith) in
    let next = connected i t (w.responds i t) c in
    elim (Bool-cases (w.is_done i)) [
      | inl done ↦
          subst (Released tokens (i + suc n)) (sym (hold-turn w tokens i n c done f refl))
            (close_all-Released tokens (i + suc n) c h (omega arith))
      | inr more ↦ elim (Bool-cases w.builds) [
        | inl built ↦
            let (h', k') = Sent-connected tokens i t (w.responds i t) c f h k in
            let p : i + 1 + n ≡ i + suc n = omega arith in
            subst (Released tokens (i + suc n)) (sym (hold-turn w tokens i n c more f built)) (
              subst (λ m. Released tokens m (hold w tokens (i + 1) n next)) p
                (hold-Released w tokens (i + 1) n next l (inl built) h' k'))
        | inr fails ↦
            subst (Released tokens (i + suc n)) (sym (hold-turn w tokens i n c more f fails))
              (none_held w c b fails, (λ e. ground arith), h, omega arith)
      ]
    ]

abbrev untouched : Connections
untouched = record { asked = []; bodies = []; closed = [] }

untouched-Released :
    (tokens : List Str) (m : ℕ) (e : HoldEnd)
    → e ≢ index_out_of_range
    → Released tokens m (untouched, e)
untouched-Released tokens m e d = (tt, d, tt, omega arith)

with_tokens-Released :
    (w : Surroundings) (wanted : ℕ) (tokens : List Str)
    → Released tokens wanted (with_tokens w wanted (some tokens))
unfolding with_tokens
with_tokens-Released w wanted tokens = elim (Bool-cases (length tokens == 0)) [
  | inl empty ↦
      subst
        (λ b.
          Released tokens wanted
            (if b then (untouched, no_tokens) else hold w tokens 0 wanted untouched))
        (sym empty) (untouched-Released tokens wanted no_tokens (λ e. ground arith))
  | inr some_there ↦
      let p : 0 + wanted ≡ wanted = omega arith in
      subst
        (λ b.
          Released tokens wanted
            (if b then (untouched, no_tokens) else hold w tokens 0 wanted untouched))
        (sym some_there)
        (subst (λ m. Released tokens m (hold w tokens 0 wanted untouched)) p
          (hold-Released w tokens 0 wanted untouched (ground arith) (inr refl) tt (omega arith)))
]

-- If the tokens file is read, then at the end of a run every body is closed, no index was out of
-- range, and at most as many connections as wanted were asked for, each with the token at its
-- number modulo the number of tokens.
pub run_holdconns-Released :
    (w : Surroundings) (wanted : ℕ) {tokens : List Str}
    → read_tokens w ≡ some tokens
    → Released tokens wanted (run_holdconns w wanted)
unfolding run_holdconns
run_holdconns-Released w wanted {tokens} h =
    if_both (Released tokens wanted) (ltb wanted 1)
      (untouched-Released tokens wanted too_few (λ e. ground arith))
      (subst (λ t. Released tokens wanted (with_tokens w wanted t)) (sym h)
        (with_tokens-Released w wanted tokens))

-- A turn that ends the reader.
abbrev ends_reader : ReadTurn → Bool
ends_reader context_done = true
ends_reader (line text) = false
ends_reader read_failed = true

-- A reader closes its body exactly once if a turn ends it, and otherwise keeps everything.
pub closed-discard_sse :
    (i : ℕ) (turns : List ReadTurn) (c : Connections)
    → (discard_sse i turns c).closed
      ≡ (if any ends_reader turns then c.closed ++ i ∷ [] else c.closed)
unfolding discard_sse close_body
closed-discard_sse i [] c = refl
closed-discard_sse i (context_done ∷ turns) c = refl
closed-discard_sse i (line text ∷ turns) c = closed-discard_sse i turns c
closed-discard_sse i (read_failed ∷ turns) c = refl
