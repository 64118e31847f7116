-- ===== src/Replica/Synced.antt =====
-- A client that goes on pulling ends with what the store holds for its user.
use ulsync_server.Prelude.{
  ℕ, zero, suc, ◌-◌, ◌^◌, ◌≤◌, ◌<◌, ◌≡◌, refl, sym, ap, subst, ◌∙◌, inl, inr, true, Option, some,
  List, [], ◌∷◌, Str, arith, drop, length, ok, Bool-cases, Option-cases, In, All-In, leb, ltb,
  str_eq,
}
use mathlib.Core.Option
use ulsync_server.Prelude.Int.{ℤ}
use ulsync_server.Store.Envelope.{Envelope, Key, key_of}
use ulsync_server.Store.Db.{Db, Driver, find_row}
use ulsync_server.Store.Db.Rows.{find_row-key}
use ulsync_server.Store.Db.Valid.{IsValid, Numbered}
use ulsync_server.Store.Since.{backlog}
use ulsync_server.Store.Since.Members.{backlog-find_row, find_row-In}
use ulsync_server.Store.Since.Pages.{backlog-next_cursor}
use ulsync_server.HttpApi.Page.{
  parse_limit, bound_limit, to_pull_envelope, parse_non_negative_query_int,
}
use ulsync_server.HttpApi.Server.{Settings, Node, serve}
use ulsync_server.HttpApi.Push.Outcome.{accepted}
use ulsync_server.Replica.Pulls.{kept, pull-kept, pull-Tracks}
use ulsync_server.HttpApi.Server.Growth.{serve-Grows, serve_tables-IsValid}
use ulsync_server.Replica.{
  Client, new_client, Happening, requests, pulls, happens, happen, pull_often,
}
use ulsync_server.Replica.Tracks.{Tracks, Grows-Tracks}

small_cursor : (u : Str) (db : Db) (c : Client) → Tracks u db c → c.cursor < 2 ^ 63
small_cursor u db c t = omega (arith, t.within, t.valid.counted u)

module _ (verify : Str → Option Str) (cfg : Settings) (u : Str) where
  happens-Tracks :
      (e : Happening) (s : Node × Client)
      → Tracks u s.0.db s.1
      → Tracks u (happens verify cfg u e s).0.db (happens verify cfg u e s).1
  unfolding happens
  happens-Tracks (requests r) (node, c) t =
      Grows-Tracks u node.db (serve verify cfg r node).0.db c (serve-Grows verify cfg u r node)
        (serve_tables-IsValid verify cfg r node t.valid) t
  happens-Tracks (pulls driver now limit) (node, c) t =
      pull-Tracks cfg u driver now limit node c (small_cursor u node.db c t) t

  -- Whatever requests and pulls happen, the client tracks the rows of its user.
  happen-Tracks :
      (es : List Happening) (s : Node × Client)
      → Tracks u s.0.db s.1
      → Tracks u (happen verify cfg u es s).0.db (happen verify cfg u es s).1
  unfolding happen
  happen-Tracks [] s t = t
  happen-Tracks (e ∷ es) s t = happen-Tracks es (happens verify cfg u e s) (happens-Tracks e s t)

pub new_client-Tracks : (u : Str) (db : Db) → IsValid db → Tracks u db new_client
new_client-Tracks u db v = record {
  valid = v;
  within = omega arith;
  held = λ k e found low.
      let positive =
        (All-In (Numbered db.users) db.envelopes v.numbered
          (find_row-In u k e db.envelopes found)).0 in
      absurd (omega (arith, positive, low));
  absent = λ k h. refl;
}

length-drop : (n : ℕ) (xs : List Envelope) → 0 < n → length (drop n xs) ≤ length xs - 1
length-drop zero xs h = absurd (omega arith)
length-drop (suc n) [] h = omega arith
length-drop (suc zero) (x ∷ xs) h = omega arith
length-drop (suc (suc n)) (x ∷ xs) h = omega (arith, length-drop (suc n) xs (omega arith))

-- The rows that a client has not pulled.
abbrev pub behind : Str → Node × Client → ℕ
behind u s = length (backlog u s.1.cursor s.0.db)

In-length : (e : Envelope) (es : List Envelope) → In e es → 0 < length es
In-length e [] m = elim m [ ]
In-length e (x ∷ xs) m = omega arith

known :
    (u : Str) (k : Key) (s : Node × Client) (e : Envelope)
    → IsValid s.0.db
    → find_row u k s.0.db.envelopes ≡ some e
    → behind u s ≤ 0
    → e.server_seq ≤ s.1.cursor
known u k s e v found h = elim (Bool-cases (leb e.server_seq s.1.cursor)) [
  | inl low ↦ ground arith
  | inr high ↦
      let at : find_row u (key_of e) s.0.db.envelopes ≡ some e =
        subst (λ j. find_row u j s.0.db.envelopes ≡ some e)
          (sym (find_row-key u k s.0.db.envelopes found)) found in
      let m = (backlog-find_row u s.1.cursor s.0.db e v).1 (at, ground arith) in
      absurd (omega (arith, In-length e (backlog u s.1.cursor s.0.db) m, h))
]

-- A client that is not behind holds what the store holds.
caught_up :
    (u : Str) (s : Node × Client) (k : Key)
    → Tracks u s.0.db s.1
    → behind u s ≤ 0
    → s.1.copy k ≡ Option.map to_pull_envelope (find_row u k s.0.db.envelopes)
caught_up u s k t h = elim (Option-cases (find_row u k s.0.db.envelopes)) [
  | inl absent ↦ t.absent k absent ∙ sym (ap (Option.map to_pull_envelope) absent)
  | inr (e, found) ↦
      t.held k e found (known u k s e t.valid found h)
      ∙ sym (ap (Option.map to_pull_envelope) found)
]

default_limit :
    (def max : ℕ) → 0 < def → 0 < max → (n : ℕ) × (parse_limit def max [] ≡ ok n) × (0 < n)
unfolding parse_limit bound_limit parse_non_negative_query_int str_eq
default_limit def max h k = elim (Bool-cases (ltb max def)) [
  | inl over ↦ (max, ground arith, k)
  | inr within ↦ (def, ground arith, h)
]

kept-behind :
    (u : Str) (n : ℕ) (node : Node) (c : Client)
    → IsValid node.db
    → 0 < n
    → behind u (node, kept u n node.db c) ≤ behind u (node, c) - 1
unfolding kept
kept-behind u n node c v h =
    rw (backlog-next_cursor u c.cursor node.db v n) (length-drop n (backlog u c.cursor node.db) h)

module _ (verify : Str → Option Str) (cfg : Settings) (u : Str) (driver : Driver) (now : ℤ)
    (answers : driver.reads ≡ true) (some_rows : 0 < cfg.pull_limit_default)
    (some_room : 0 < cfg.pull_limit_max) where
  pull-behind :
      (s : Node × Client)
      → Tracks u s.0.db s.1
      → behind u (happens verify cfg u (pulls driver now []) s) ≤ behind u s - 1
  unfolding happens
  pull-behind (node, c) t =
      let (n, accepted, positive) =
        default_limit cfg.pull_limit_default cfg.pull_limit_max some_rows some_room in
      let e =
        pull-kept cfg u driver now [] node c (small_cursor u node.db c t) n accepted answers in
      subst (λ (x : Client). behind u (node, x) ≤ behind u (node, c) - 1) (sym e)
        (kept-behind u n node c t.valid positive)

  pull_often-behind :
      (n : ℕ) (s : Node × Client)
      → Tracks u s.0.db s.1
      → behind u s ≤ n
      → Tracks u
          (pull_often verify cfg u driver now n s).0.db
          (pull_often verify cfg u driver now n s).1
        × (behind u (pull_often verify cfg u driver now n s) ≤ 0)
  unfolding pull_often
  pull_often-behind zero s t h = (t, h)
  pull_often-behind (suc n) s t h =
      pull_often-behind n (happens verify cfg u (pulls driver now []) s)
        (happens-Tracks verify cfg u (pulls driver now []) s t) (omega (arith, pull-behind s t))

  -- A client that starts with nothing and keeps the pages that it pulls: whatever requests of
  -- anyone and pulls of its own happen, with whatever failures of the driver, after as many further
  -- pulls as there are rows that it has not pulled it holds, at every key, exactly the row that the
  -- store holds for its user. The tables are well formed at the start, the further pulls have a
  -- driver that answers and the default limit, and the limits are at least 1.
  pub pull_often-synced :
      (es : List Happening) (node : Node) (n : ℕ) (k : Key)
      → IsValid node.db
      → behind u (happen verify cfg u es (node, new_client)) ≤ n
      → (pull_often verify cfg u driver now n (happen verify cfg u es (node, new_client))).1.copy k
        ≡ Option.map to_pull_envelope (
            find_row u k
              (pull_often verify cfg u driver now n
                (happen verify cfg u es (node, new_client))).0.db.envelopes)
  pull_often-synced es node n k v h =
      let s = happen verify cfg u es (node, new_client) in
      let t = happen-Tracks verify cfg u es (node, new_client) (new_client-Tracks u node.db v) in
      let (t', h') = pull_often-behind n s t h in
      caught_up u (pull_often verify cfg u driver now n s) k t' h'
