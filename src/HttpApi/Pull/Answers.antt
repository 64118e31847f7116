-- ===== src/HttpApi/Pull/Answers.antt =====
-- What a pull of internal/httpapi/pull.go answers.
use ulsync_server.Prelude.{
  ℕ, zero, suc, ◌<◌, ◌≡◌, refl, ◌≢◌, ◌⊎◌, inl, inr, true, Option, none, some, List, [], ◌∷◌, Str,
  take, arith, Result, ok, err,
}
use ulsync_server.Store.Envelope.{Envelope}
use ulsync_server.Store.Since.{since_page, backlog, next_cursor}
use ulsync_server.Live.{Registry, members, subscribe}
use ulsync_server.Live.Valid.{IsValid, members-unsubscribe-subscribe}
use ulsync_server.HttpApi.Push.{Response}
use ulsync_server.HttpApi.Page.{
  Param, LiveMode, immediate, poll, sse, PullQuery, parse_query, PullBody, answer_page,
}
use ulsync_server.HttpApi.Sse.{Snapshot}
use ulsync_server.HttpApi.Pull.{
  PollWait, gone, timed_out, woken, pull_once, wait_poll, after_first, serve_live_poll, Meets,
  around, serve_query, pull_handler,
}

page_of_rows :
    (u : Str) (since limit : ℕ) (s : Snapshot)
    → 0 < limit
    → s.driver.reads ≡ true
    → backlog u since s.db ≢ []
    → (waited : Option (Response PullBody))
    → after_first s.now (since_page s.driver u since limit s.db) waited
      ≡ some (pull_once s u since limit)
unfolding since_page pull_once answer_page after_first
page_of_rows u since zero s h reads some_row waited = absurd (omega arith)
page_of_rows u since (suc n) s h reads some_row waited =
    rw reads (go (backlog u since s.db) some_row)
  where
    go :
        (es : List Envelope)
        → es ≢ []
        → after_first s.now (ok (take (suc n) es, next_cursor since (take (suc n) es))) waited
          ≡ some (answer_page s.now (ok (take (suc n) es, next_cursor since (take (suc n) es))))
    go [] row = absurd (row refl)
    go (e ∷ es) row = refl

no_page :
    (u : Str) (since limit : ℕ) (s : Snapshot)
    → s.driver.reads ≡ true
    → backlog u since s.db ≡ []
    → since_page s.driver u since limit s.db ≡ ok ([], since)
unfolding since_page next_cursor
no_page u since zero s reads no_row = ground (arith, reads, no_row)
no_page u since (suc n) s reads no_row = ground (arith, reads, no_row)

-- The answer of an immediate pull at the end of a wait that began over tables without a row for it.
unfoldable pub at_end : Snapshot → PollWait → Str → ℕ → ℕ → Option (Response PullBody)
at_end first gone u since limit = none
at_end first (timed_out now) u since limit =
    some (pull_once (record first { now = now }) u since limit)
at_end first (woken s) u since limit = some (pull_once s u since limit)

wait_poll-at_end :
    (u : Str) (since limit : ℕ) (s : Snapshot) (wait : PollWait)
    → s.driver.reads ≡ true
    → backlog u since s.db ≡ []
    → wait_poll wait u since limit ≡ at_end s wait u since limit
unfolding wait_poll at_end pull_once answer_page
wait_poll-at_end u since limit s gone reads no_row = refl
wait_poll-at_end u since limit s (woken t) reads no_row = refl
wait_poll-at_end u since limit s (timed_out now) reads no_row =
    ground (arith, no_page u since limit s reads no_row)

-- What a live poll promises, from the rows that wait for it.
unfoldable pub live_answer :
    Snapshot → PollWait → Str → ℕ → ℕ → List Envelope → Option (Response PullBody)
live_answer first wait u since limit [] = at_end first wait u since limit
live_answer first wait u since limit (e ∷ es) = some (pull_once first u since limit)

-- A live poll whose first query succeeds, with a limit of at least 1, answers as an immediate pull:
-- at once if there is a row for it; otherwise over the tables at the wakeup, or over the first
-- tables when the timer ends the wait; and not at all when the client is gone.
pub serve_live_poll-live_answer :
    (u : Str) (since limit : ℕ) (first : Snapshot) (wait : PollWait)
    → 0 < limit
    → first.driver.reads ≡ true
    → serve_live_poll first wait u since limit
      ≡ live_answer first wait u since limit (backlog u since first.db)
unfolding serve_live_poll after_first live_answer
serve_live_poll-live_answer u since limit first wait h reads =
    elim (List-cases (backlog u since first.db)) [
      | inl no_row ↦
          rw (no_row, no_page u since limit first reads no_row)
            (wait_poll-at_end u since limit first wait reads no_row)
      | inr (e, es, row) ↦ rw row (
          page_of_rows u since limit first h reads (λ p. ground (arith, row, p))
            (wait_poll wait u since limit))
    ]
  where
    List-cases :
        (es : List Envelope) → (es ≡ []) ⊎ ((x : Envelope) × (xs : List Envelope) × (es ≡ x ∷ xs))
    List-cases [] = inl refl
    List-cases (x ∷ xs) = inr (x, xs, refl)

-- A pull during which nobody else touches a well-formed registry leaves the set of waiters of every
-- user as it was, whatever its query is.
pub members-pull_handler :
    (default_limit max_limit : ℕ) (u : Str) (since limit live : Str) (m : Meets) (r : Registry)
    → IsValid r
    → ((q : Registry) → m.others q ≡ q)
    → (v : Str)
    → members v (pull_handler default_limit max_limit u since limit live m r).0.waiters
      ≡ members v r.waiters
unfolding pull_handler serve_query around
members-pull_handler default_limit max_limit u since limit live m r valid alone v =
    served (parse_query default_limit max_limit since limit live)
  where
    kept : (mode : LiveMode) → members v (around mode u m r).waiters ≡ members v r.waiters
    kept immediate = rw (alone r) refl
    kept poll = rw (alone (subscribe u r).0) (members-unsubscribe-subscribe u r valid v)
    kept sse = rw (alone (subscribe u r).0) (members-unsubscribe-subscribe u r valid v)

    served :
        (q : Result Param PullQuery)
        → members v (serve_query u m r q).0.waiters ≡ members v r.waiters
    served (err p) = refl
    served (ok q) = kept q.mode
