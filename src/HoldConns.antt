-- ===== src/HoldConns.antt =====
-- load/holdconns/main.go: a client that holds live streams open. The tokens file with its decoder,
-- the interrupt and what the server answers are represented by what the calls come to; a body is the
-- number of its connection.
pub mod Released
use ulsync_server.Prelude.{
  ℕ, zero, suc, ◌+◌, ◌%◌, Bool, true, false, Option, none, some, List, [], ◌∷◌, ◌++◌, Str, length,
  ltb, ◌==◌, if◌then◌else◌,
}

pub data ConnectResult : Type 0 where
  failed : ConnectResult
  status : ℕ → ConnectResult

-- The bytes of the tokens file, if it can be read, `json.Unmarshal` into a slice of strings, whether
-- the context is done before the i-th connection, whether a request can be built for the
-- URL, which is the same each time, and what the server answers to the i-th connection with a token.
pub record Surroundings : Type 0 where
  pub tokens_file : Option Str
  pub parse_tokens : Str → Option (List Str)
  pub is_done : ℕ → Bool
  pub builds : Bool
  pub responds : ℕ → Str → ConnectResult

pub data HoldEnd : Type 0 where
  too_few tokens_unreadable no_tokens no_request index_out_of_range interrupted : HoldEnd

-- The connections that were asked for, with their tokens, the bodies that are held, and those that
-- were closed.
pub record Connections : Type 0 where
  pub asked : List (ℕ × Str)
  pub bodies : List ℕ
  pub closed : List ℕ

-- `tokens[i]`
unfoldable pub at_index : List Str → ℕ → Option Str
at_index [] i = none
at_index (t ∷ tokens) zero = some t
at_index (t ∷ tokens) (suc i) = at_index tokens i

unfoldable pub connected : ℕ → Str → ConnectResult → Connections → Connections
connected i token failed c = record c { asked = c.asked ++ (i, token) ∷ [] }
connected i token (status s) c =
    if s == 200
    then record c { asked = c.asked ++ (i, token) ∷ []; bodies = c.bodies ++ i ∷ [] }
    else record c { asked = c.asked ++ (i, token) ∷ []; closed = c.closed ++ i ∷ [] }

-- A turn of the loop of `discardSSE`: the context is done, a line is read, or the read fails.
pub data ReadTurn : Type 0 where
  context_done : ReadTurn
  line : Str → ReadTurn
  read_failed : ReadTurn

unfoldable pub close_body : ℕ → Connections → Connections
close_body i c = record c { closed = c.closed ++ i ∷ [] }

-- `discardSSE` over the body of the i-th connection; without a turn it still reads.
unfoldable pub discard_sse : ℕ → List ReadTurn → Connections → Connections
unfolding close_body
discard_sse i [] c = c
discard_sse i (context_done ∷ turns) c = close_body i c
discard_sse i (line text ∷ turns) c = discard_sse i turns c
discard_sse i (read_failed ∷ turns) c = close_body i c

-- `closeAll`
unfoldable pub close_all : Connections → Connections
close_all c = record c { closed = c.closed ++ c.bodies }

-- A turn of the loop, of whether the context is done, the token, whether the request is built, and
-- what the other turns come to.
unfoldable pub turn :
    Bool → Option Str → Bool → Connections → Connections × HoldEnd → Connections × HoldEnd
unfolding close_all
turn true token builds c rest = (close_all c, interrupted)
turn false none builds c rest = (c, index_out_of_range)
turn false (some t) true c rest = rest
turn false (some t) false c rest = (c, no_request)

module _ (w : Surroundings) where
  unfoldable pub read_tokens : Option (List Str)
  read_tokens = elim w.tokens_file [ none ↦ none | some raw ↦ w.parse_tokens raw ]

  unfoldable pub connect : Option Str → ℕ → Connections → Connections
  unfolding connected
  connect none i c = c
  connect (some token) i c = connected i token (w.responds i token) c

  -- The loop of `run`, with the number of the connections that are left; the last pause lasts
  -- until the interrupt.
  unfoldable pub hold : List Str → ℕ → ℕ → Connections → Connections × HoldEnd
  unfolding at_index close_all connect turn
  hold tokens i zero c = (close_all c, interrupted)
  hold tokens i (suc n) c =
      let token = at_index tokens (i % length tokens) in
      turn (w.is_done i) token w.builds c (hold tokens (i + 1) n (connect token i c))

  unfoldable pub with_tokens : ℕ → Option (List Str) → Connections × HoldEnd
  unfolding hold
  with_tokens wanted none = (record { asked = []; bodies = []; closed = [] }, tokens_unreadable)
  with_tokens wanted (some tokens) =
      if length tokens == 0
      then (record { asked = []; bodies = []; closed = [] }, no_tokens)
      else hold tokens 0 wanted (record { asked = []; bodies = []; closed = [] })

  -- `run`
  unfoldable pub run_holdconns : ℕ → Connections × HoldEnd
  unfolding with_tokens read_tokens
  run_holdconns wanted =
      if ltb wanted 1
      then (record { asked = []; bodies = []; closed = [] }, too_few)
      else with_tokens wanted read_tokens
