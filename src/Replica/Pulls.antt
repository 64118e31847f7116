-- ===== src/Replica/Pulls.antt =====
-- A pull of the client: it keeps a page, or it changes nothing.
use ulsync_server.Prelude.{
  ℕ, ◌^◌, ◌<◌, ◌≡◌, refl, sym, ap, subst, ◌∙◌, inl, inr, true, false, [], Str, map, take, ok, err,
  ◌>>=◌, Result, Result-cases, Bool-cases, if◌then◌else◌, str_eq,
}
use ulsync_server.Prelude.Int.{ℤ}
use ulsync_server.Prelude.Decimal.{decimal}
use ulsync_server.Store.Db.{Db, Driver, failed, select}
use ulsync_server.Store.Since.{backlog, next_cursor, since_page}
use ulsync_server.HttpApi.Page.{
  Param, PullQuery, immediate, parse_limit, parse_query, parse_since, parse_live, answer_page,
  write_pull_json, to_pull_envelope,
}
use ulsync_server.HttpApi.Page.Query.{parse-decimal}
use ulsync_server.HttpApi.Pull.{pull_once, serve_mode, serve_query, pull_handler}
use ulsync_server.HttpApi.Server.{Settings, Node}
use ulsync_server.Replica.{Client, keep_rows, take_body, take_served, meets_now, pull}
use ulsync_server.Replica.Tracks.{Tracks, page-Tracks}

-- The client with a page of so many rows.
unfoldable pub kept : Str → ℕ → Db → Client → Client
kept u n db c =
    let rows = take n (backlog u c.cursor db) in
    record {
      cursor = next_cursor c.cursor rows;
      copy = keep_rows (map to_pull_envelope rows) c.copy;
    }

take_once :
    (u : Str) (driver : Driver) (now : ℤ) (n : ℕ) (db : Db) (c : Client)
    → driver.reads ≡ true
    → take_body (pull_once (record { driver = driver; db = db; now = now }) u c.cursor n).body c
      ≡ kept u n db c
unfolding pull_once since_page take_body write_pull_json kept
take_once u driver now n db c h =
    let rows = take n (backlog u c.cursor db) in
    ap
      (λ b.
        take_body
          (answer_page now
            (if b then ok (rows, next_cursor c.cursor rows) else err (failed select))).body
          c)
      h

parse_since-decimal : (n : ℕ) → n < 2 ^ 63 → parse_since (decimal 19 n) ≡ ok n
unfolding parse_since
parse_since-decimal n h = rw (parse-decimal n h, parse_since) refl

-- A query whose cursor is a number in decimal.
query : Settings → ℕ → Str → Result Param PullQuery
query cfg n limit = parse_limit cfg.pull_limit_default cfg.pull_limit_max limit >>= λ l.
    ok (record { since = n; limit = l; mode = immediate })

parse_query-decimal :
    (cfg : Settings) (n : ℕ) (limit : Str)
    → n < 2 ^ 63
    → parse_query cfg.pull_limit_default cfg.pull_limit_max (decimal 19 n) limit []
      ≡ query cfg n limit
unfolding parse_query parse_live query str_eq
parse_query-decimal cfg n limit h =
    let rest : ℕ → Result Param PullQuery = λ s.
      parse_limit cfg.pull_limit_default cfg.pull_limit_max limit >>= λ l.
      ok (record { since = s; limit = l; mode = immediate }) in
    ap (λ (r : Result Param ℕ). r >>= rest) (parse_since-decimal n h)

module _ (cfg : Settings) (u : Str) (driver : Driver) (now : ℤ) (limit : Str) (node : Node)
    (c : Client) (small : c.cursor < 2 ^ 63) where
  pull-query :
      pull cfg u driver now limit node c
      ≡ take_served
          (serve_query u (meets_now driver now node) node.registry (query cfg c.cursor limit)).1
          c
  unfolding pull pull_handler
  pull-query =
      ap (λ q. take_served (serve_query u (meets_now driver now node) node.registry q).1 c)
        (parse_query-decimal cfg c.cursor limit small)

  -- With an accepted limit and an answering driver, a pull keeps a page.
  pub pull-kept :
      (n : ℕ)
      → parse_limit cfg.pull_limit_default cfg.pull_limit_max limit ≡ ok n
      → driver.reads ≡ true
      → pull cfg u driver now limit node c ≡ kept u n node.db c
  unfolding serve_query serve_mode take_served query
  pull-kept n l h =
      pull-query
      ∙ ap
          (λ (r : Result Param ℕ).
            take_served
              (serve_query u (meets_now driver now node) node.registry
                (r >>= λ m. ok (record { since = c.cursor; limit = m; mode = immediate }))).1
              c)
          l
      ∙ take_once u driver now n node.db c h

  -- Any other pull changes nothing.
  pull-refused :
      (p : Param)
      → parse_limit cfg.pull_limit_default cfg.pull_limit_max limit ≡ err p
      → pull cfg u driver now limit node c ≡ c
  unfolding serve_query take_served take_body query
  pull-refused p l =
      pull-query
      ∙ ap
          (λ (r : Result Param ℕ).
            take_served
              (serve_query u (meets_now driver now node) node.registry
                (r >>= λ m. ok (record { since = c.cursor; limit = m; mode = immediate }))).1
              c)
          l

  pull-unanswered :
      (n : ℕ)
      → parse_limit cfg.pull_limit_default cfg.pull_limit_max limit ≡ ok n
      → driver.reads ≡ false
      → pull cfg u driver now limit node c ≡ c
  unfolding serve_query serve_mode take_served take_body query pull_once since_page
  pull-unanswered n l h =
      pull-query
      ∙ ap
          (λ (r : Result Param ℕ).
            take_served
              (serve_query u (meets_now driver now node) node.registry
                (r >>= λ m. ok (record { since = c.cursor; limit = m; mode = immediate }))).1
              c)
          l
      ∙ (let rows = take n (backlog u c.cursor node.db) in
          ap
            (λ b.
              take_body
                (answer_page now
                  (if b then ok (rows, next_cursor c.cursor rows) else err (failed select))).body
                c)
            h)

  pub pull-Tracks : Tracks u node.db c → Tracks u node.db (pull cfg u driver now limit node c)
  unfolding kept
  pull-Tracks t =
      elim (Result-cases (parse_limit cfg.pull_limit_default cfg.pull_limit_max limit)) [
        | inr (p, refused) ↦ subst (Tracks u node.db) (sym (pull-refused p refused)) t
        | inl (n, accepted) ↦ elim (Bool-cases driver.reads) [
          | inr off ↦ subst (Tracks u node.db) (sym (pull-unanswered n accepted off)) t
          | inl on ↦
              subst (Tracks u node.db) (sym (pull-kept n accepted on)) (page-Tracks u node.db c n t)
        ]
      ]
