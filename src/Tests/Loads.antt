-- ===== src/Tests/Loads.antt =====
-- Runs of load/gentokens/main.go and load/holdconns/main.go.
use ulsync_server.Prelude.{
  ℕ, ◌≡◌, ◌≢◌, refl, true, false, if◌then◌else◌, ◌==◌, some, [], ◌∷◌, List, Str, codes, length,
  arith,
}
use ulsync_server.Auth.Jwks.{ecdsa, is_on_curve, parse_jwks}
use ulsync_server.Prelude.Decimal.{decimal}
use ulsync_server.GenTokens.{
  CallResults, four_digits, load_token, sign_tokens, write_tokens, write_jwks, generate,
}
use ulsync_server.HoldConns.{
  Surroundings, status, interrupted, at_index, connected, close_all, turn, connect, hold,
  with_tokens, read_tokens, run_holdconns, context_done, line, close_body, discard_sse,
}
use ulsync_server.HoldConns.Released.{Released, run_holdconns-Released}
use ulsync_server.GenTokens.Written.{get_elem?, generate-Written}

-- The base point of P-256.
abbrev base_x : ℕ
base_x = 48439561293906451759052585252797914202762949526041747995844080717082404635286

abbrev base_y : ℕ
base_y = 36134250956749795798585127919587881956611106672985015071877198253568414405109

-- A signer that writes the subject.
abbrev answers : CallResults
answers = record {
  makes_directory = true;
  key = some (base_x, base_y);
  writes_jwks = true;
  now = 1700000000;
  signed_string = λ token. some token.subject;
  writes_tokens = true;
}

four : four_digits 42 ≡ codes "0042"
unfolding four_digits decimal
four = refl

generate-Written_example :
    (parse_jwks (generate answers 2).0.jwks
      ≡ some (((load_token 1700000000 0).kid, ecdsa base_x base_y) ∷ []))
    × ((ts : List Str) × ((generate answers 2).0.tokens ≡ some ts)
        × (length ts ≡ 2)
        × (get_elem? ts 0 ≡ some (load_token 1700000000 0).subject)
        × ((load_token 1700000000 0).subject ≢ (load_token 1700000000 1).subject))
unfolding is_on_curve four_digits load_token sign_tokens write_tokens write_jwks generate
generate-Written_example =
    generate-Written answers 2 base_x base_y 0 1 refl refl refl (omega arith) (omega arith)
      (omega arith) (λ e. absurd (omega arith))

-- Two tokens, and a server that refuses the second connection.
abbrev surroundings : Surroundings
surroundings = record {
  tokens_file = some (codes "ab");
  parse_tokens = λ raw. some (codes "a" ∷ codes "b" ∷ []);
  is_done = λ i. false;
  builds = true;
  responds = λ i token. if i == 1 then status 503 else status 200;
}

three_connections : run_holdconns surroundings 3 ≡ (
  record {
    asked = (0, codes "a") ∷ (1, codes "b") ∷ (2, codes "a") ∷ [];
    bodies = 0 ∷ 2 ∷ [];
    closed = 1 ∷ 0 ∷ 2 ∷ [];
  },
  interrupted,
)
unfolding at_index connected close_all turn connect hold with_tokens read_tokens run_holdconns
three_connections = refl

released : Released (codes "a" ∷ codes "b" ∷ []) 3 (run_holdconns surroundings 3)
unfolding read_tokens
released = run_holdconns-Released surroundings 3 refl

-- The reader of the connection 0 gets a line before the interrupt.
reader_ends :
    (discard_sse 0
      (line (codes ": ping") ∷ context_done ∷ [])
      (record { asked = []; bodies = 0 ∷ []; closed = [] })).closed
    ≡ 0 ∷ []
unfolding discard_sse close_body
reader_ends = refl
