-- ===== src/HttpApi/Sse/Complete.antt =====
-- The catch-up of internal/httpapi/sse.go over tables that stay as they are.
use mathlib.Core.List.{append_assoc, append-nil}
use ulsync_server.Prelude.{
  ℕ, zero, suc, ◌+◌, ◌≤◌, ◌<◌, ◌≡◌, refl, sym, ap, ap₂, ◌∙◌, subst, Bool, true, List, [], ◌∷◌, ◌++◌,
  Str, ltb, length, map, take, drop, arith, inl, inr, Bool-cases, if◌then◌else◌,
}
use ulsync_server.Prelude.Int.{ℤ}
use ulsync_server.Store.Envelope.{Envelope}
use ulsync_server.Store.Db.{Db}
use ulsync_server.Store.Db.Valid.{IsValid}
use ulsync_server.Store.Since.{since_page, backlog, next_cursor}
use ulsync_server.Store.Since.Pages.{backlog-next_cursor}
use ulsync_server.HttpApi.Page.{to_pull_envelope}
use ulsync_server.HttpApi.Sse.{
  Frame, envelope, cursor, Snapshot, Ending, caught_up, after_page, after_query, write_frames,
  page_frames, prepend, stream_catch_up, envelopes_in,
}
use ulsync_server.HttpApi.Sse.Rising.{envelopes_in-append, envelopes_in-page_frames}

write_frames_all :
    (writes : ℕ → Bool) (n : ℕ) (fs : List Frame)
    → ((m : ℕ) → writes m ≡ true)
    → write_frames writes n fs ≡ (fs, true)
unfolding write_frames
write_frames_all writes n [] w = refl
write_frames_all writes n (f ∷ fs) w = ground (arith, w n, write_frames_all writes (n + 1) fs w)

module _ {ℓ κ} {A : Type ℓ} {B : Type κ} (f : A → B) where
  map-split : (n : ℕ) (xs : List A) → map f (take n xs) ++ map f (drop n xs) ≡ map f xs
  map-split zero xs = refl
  map-split (suc n) [] = refl
  map-split (suc n) (x ∷ xs) = ap (λ ys. f x ∷ ys) (map-split n xs)

module _ {ℓ} {A : Type ℓ} where
  pub drop-short : (n : ℕ) (xs : List A) → length (take n xs) < n → drop n xs ≡ []
  drop-short zero xs h = absurd (omega arith)
  drop-short (suc n) [] h = refl
  drop-short (suc n) (x ∷ xs) h = drop-short n xs (omega arith)

  length-drop-full :
      (n : ℕ) (xs : List A) → n ≤ length (take n xs) → length (drop n xs) + n ≡ length xs
  length-drop-full zero xs h = omega arith
  length-drop-full (suc n) [] h = omega arith
  length-drop-full (suc n) (x ∷ xs) h = omega (arith, length-drop-full n xs)

-- A burst that caught up: it carries exactly the rows after `since` and closes with a cursor after
-- which there are none.
pub record CaughtUp (u : Str) (db : Db) (now : ℤ) (since : ℕ) (r : List Frame × Ending)
    : Type 0 where
  pub next : ℕ
  pub ending : r.1 ≡ caught_up next
  pub carried : envelopes_in r.0 ≡ map to_pull_envelope (backlog u since db)
  pub before : List Frame
  pub closing : r.0 ≡ before ++ cursor next now ∷ []
  pub nothing_left : backlog u next db ≡ []

module _ (u : Str) (db : Db) (now : ℤ) (limit since next : ℕ)
    (left : backlog u next db ≡ drop limit (backlog u since db)) where
  abbrev page : List Frame
  page = page_frames now (take limit (backlog u since db)) next

  -- A page below the limit is the last.
  last_page :
      length (take limit (backlog u since db)) < limit
      → CaughtUp u db now since (page, caught_up next)
  last_page short =
      let done = drop-short limit (backlog u since db) short in
      record {
        next = next;
        ending = refl;
        carried =
            envelopes_in-page_frames now (take limit (backlog u since db)) next
            ∙ whole (take limit (backlog u since db)) (drop limit (backlog u since db)) done
            ∙ map-split to_pull_envelope limit (backlog u since db);
        before = map (λ env. envelope (to_pull_envelope env)) (take limit (backlog u since db));
        closing = unfold page_frames in refl;
        nothing_left = left ∙ done;
      }
    where
      whole :
          (xs ys : List Envelope)
          → ys ≡ []
          → map to_pull_envelope xs ≡ map to_pull_envelope xs ++ map to_pull_envelope ys
      whole xs ys e = rw e (sym (append-nil (map to_pull_envelope xs)))

  -- A full page and the burst from its cursor.
  more_pages :
      (r : List Frame × Ending)
      → CaughtUp u db now next r
      → CaughtUp u db now since (prepend page r)
  more_pages (fs, ending) c = record {
    next = c.next;
    ending = c.ending;
    carried =
        envelopes_in-append page fs
        ∙ ap₂ (λ ps qs. ps ++ qs)
            (envelopes_in-page_frames now (take limit (backlog u since db)) next)
            (c.carried ∙ ap (map to_pull_envelope) left)
        ∙ map-split to_pull_envelope limit (backlog u since db);
    before = page ++ c.before;
    closing =
        ap (λ gs. page ++ gs) c.closing ∙ sym (append_assoc page c.before (cursor c.next now ∷ []));
    nothing_left = c.nothing_left;
  }

module _ (writes : ℕ → Bool) (w : (m : ℕ) → writes m ≡ true) (u : Str) (limit : ℕ) (s : Snapshot)
    (v : IsValid s.db) (reads : s.driver.reads ≡ true) where
  page_sent :
      (n since : ℕ) (go : ℕ → ℕ → List Frame × Ending)
      → let rows = take limit (backlog u since s.db) in
        let next = next_cursor since rows in
        let fs = page_frames s.now rows next in
        after_query writes limit s.now n (since_page s.driver u since limit s.db) go ≡ (
          if ltb (length rows) limit
          then (fs, caught_up next)
          else prepend fs (go next (length fs)))
  unfolding after_query since_page after_page
  page_sent n since go =
      let rows = take limit (backlog u since s.db) in
      let fs = page_frames s.now rows (next_cursor since rows) in
      ground (arith, reads, write_frames_all writes n fs w)

  -- Over well-formed tables that do not change and with a driver and a writer that do not fail, the
  -- catch-up ends, with more fuel than there are rows and a limit of at least 1: it sends exactly
  -- the rows of the user after the cursor, in their order, and then a cursor after which there are
  -- none.
  pub stream_catch_up_complete :
      (fuel i n since : ℕ)
      → 0 < limit
      → length (backlog u since s.db) < fuel
      → CaughtUp u s.db s.now since (stream_catch_up writes u limit fuel (λ j. s) i n since)
  unfolding stream_catch_up
  stream_catch_up_complete zero i n since h k = absurd (omega arith)
  stream_catch_up_complete (suc fuel) i n since h k =
      let es = backlog u since s.db in
      let next = next_cursor since (take limit es) in
      let left = backlog-next_cursor u since s.db v limit in
      let go = λ (c m : ℕ). stream_catch_up writes u limit fuel (λ j. s) (i + 1) (n + m) c in
      let fs = page_frames s.now (take limit es) next in
      subst (CaughtUp u s.db s.now since) (sym (page_sent n since go))
        (elim (Bool-cases (ltb (length (take limit es)) limit)) [
          | inl short ↦ simp short (last_page u s.db s.now limit since next left (ground arith))
          | inr full ↦ simp full (
              more_pages u s.db s.now limit since next left (go next (length fs)) (
                stream_catch_up_complete fuel (i + 1) (n + length fs) next h
                  (omega (arith, ap length left, length-drop-full limit es (ground arith)))))
        ])
