-- ===== src/Replica/Tracks.antt =====
-- What a client knows of the rows of its user: up to its cursor, everything.
use ulsync_server.Prelude.{
  ℕ, zero, suc, ◌≤◌, ◌≡◌, refl, sym, ap, subst, ◌∙◌, ◌⊎◌, inl, inr, none, some, List, [], ◌∷◌, Str,
  arith, map, take, drop, In, All-In, Bool-cases, leb,
}
use ulsync_server.Store.Envelope.{Envelope, Key, key_of}
use ulsync_server.Store.Db.{Db, find_row, next_seq}
use ulsync_server.Store.Db.Rows.{find_row-key}
use ulsync_server.Store.Db.Valid.{IsValid, Numbered}
use ulsync_server.Store.Since.{backlog, next_cursor}
use ulsync_server.Store.Since.Members.{backlog-find_row, find_row-In}
use ulsync_server.Store.Since.Pages.{backlog-next_cursor}
use ulsync_server.Store.Upsert.Grows.{Grows}
use ulsync_server.HttpApi.Page.{to_pull_envelope}
use ulsync_server.Replica.{Client, keep_rows}
use ulsync_server.Replica.Keeps.{keep_rows_other, keep_rows_one}

-- Every row of the user up to the cursor is held, and nothing is held at a key without a row.
pub record Tracks (u : Str) (db : Db) (c : Client) : Type 0 where
  pub valid : IsValid db
  pub within : c.cursor ≤ next_seq u db.users
  pub held :
      (k : Key) (e : Envelope)
      → find_row u k db.envelopes ≡ some e
      → e.server_seq ≤ c.cursor
      → c.copy k ≡ some (to_pull_envelope e)
  pub absent : (k : Key) → find_row u k db.envelopes ≡ none → c.copy k ≡ none

-- What anyone writes leaves it so.
pub Grows-Tracks :
    (u : Str) (a b : Db) (c : Client) → Grows u a b → IsValid b → Tracks u a c → Tracks u b c
Grows-Tracks u a b c g v t = record {
  valid = v;
  within = omega (arith, g.counter, t.within);
  held = λ k e found low. elim (g.rows k) [
    | inl same ↦ t.held k e (sym same ∙ found) low
    | inr (x, there, above) ↦
        let p : x ≡ e = ground (arith, there, found) in
        absurd (omega (arith, above, low, t.within, ap (λ (y : Envelope). y.server_seq) p))
  ];
  absent = λ k none_there. elim (g.rows k) [
    | inl same ↦ t.absent k (sym same ∙ none_there)
    | inr (x, there, above) ↦ absurd (ground (arith, there, none_there))
  ];
}

In-take : (n : ℕ) (x : Envelope) (xs : List Envelope) → In x (take n xs) → In x xs
In-take zero x xs m = elim m [ ]
In-take (suc n) x [] m = m
In-take (suc n) x (y ∷ ys) (inl p) = inl p
In-take (suc n) x (y ∷ ys) (inr m) = inr (In-take n x ys m)

In-split :
    (n : ℕ) (x : Envelope) (xs : List Envelope) → In x xs → In x (take n xs) ⊎ In x (drop n xs)
In-split zero x xs m = inr m
In-split (suc n) x [] m = inl m
In-split (suc n) x (y ∷ ys) (inl p) = inl (inl p)
In-split (suc n) x (y ∷ ys) (inr m) = elim (In-split n x ys m) [
  | inl p ↦ inl (inr p)
  | inr p ↦ inr p
]

next_cursor-bound :
    (lo m : ℕ) (es : List Envelope)
    → lo ≤ m
    → ((e : Envelope) → In e es → e.server_seq ≤ m)
    → next_cursor lo es ≤ m
unfolding next_cursor
next_cursor-bound lo m [] h k = h
next_cursor-bound lo m (e ∷ es) h k =
    next_cursor-bound e.server_seq m es (k e (inl refl)) (λ x p. k x (inr p))

find_row-counter :
    (u : Str) (k : Key) (db : Db) (e : Envelope)
    → IsValid db
    → find_row u k db.envelopes ≡ some e
    → e.server_seq ≤ next_seq u db.users
find_row-counter u k db e v found =
    (All-In (Numbered db.users) db.envelopes v.numbered (find_row-In u k e db.envelopes found)).1

-- Rows of the store, kept, with a cursor up to which they or the copy before have every row.
rows-Tracks :
    (u : Str) (db : Db) (c : Client) (t : Tracks u db c) (rows : List Envelope) (next : ℕ)
    → ((e : Envelope) → In e rows → find_row u (key_of e) db.envelopes ≡ some e)
    → next ≤ next_seq u db.users
    → ((k : Key) (e : Envelope)
        → find_row u k db.envelopes ≡ some e
        → e.server_seq ≤ next
        → In e rows ⊎ (c.copy k ≡ some (to_pull_envelope e)))
    → Tracks u db (record { cursor = next; copy = keep_rows (map to_pull_envelope rows) c.copy })
rows-Tracks u db c t rows next stored within covers = record {
  valid = t.valid;
  within = within;
  held = λ k e found low.
      keep_rows_one k rows c.copy e (find_row-key u k db.envelopes found)
        (λ y m p.
          let q : find_row u k db.envelopes ≡ some y =
            subst (λ j. find_row u j db.envelopes ≡ some y) p (stored y m) in
          ground (arith, q, found))
        (covers k e found low);
  absent = λ k none_there.
      keep_rows_other k rows c.copy (λ e m p.
        let q : find_row u k db.envelopes ≡ some e =
          subst (λ j. find_row u j db.envelopes ≡ some e) p (stored e m) in
        ground (arith, q, none_there))
      ∙ t.absent k none_there;
}

module _ (u : Str) (db : Db) (c : Client) (n : ℕ) (t : Tracks u db c) where
  abbrev page : List Envelope
  page = take n (backlog u c.cursor db)

  -- A page is of rows of the user.
  page-find_row : (e : Envelope) → In e page → find_row u (key_of e) db.envelopes ≡ some e
  page-find_row e m =
      ((backlog-find_row u c.cursor db e t.valid).0 (In-take n e (backlog u c.cursor db) m)).0

  -- A row up to the next cursor is in the page or was held before.
  page_or_held :
      (k : Key) (e : Envelope)
      → find_row u k db.envelopes ≡ some e
      → e.server_seq ≤ next_cursor c.cursor page
      → In e page ⊎ (c.copy k ≡ some (to_pull_envelope e))
  page_or_held k e found low = elim (Bool-cases (leb e.server_seq c.cursor)) [
    | inl old ↦ inr (t.held k e found (ground arith))
    | inr new ↦
        let at : find_row u (key_of e) db.envelopes ≡ some e =
          subst (λ j. find_row u j db.envelopes ≡ some e)
            (sym (find_row-key u k db.envelopes found)) found in
        let m = (backlog-find_row u c.cursor db e t.valid).1 (at, ground arith) in
        elim (In-split n e (backlog u c.cursor db) m) [
          | inl first ↦ inl first
          | inr left ↦
              let later = subst (In e) (sym (backlog-next_cursor u c.cursor db t.valid n)) left in
              let above =
                ((backlog-find_row u (next_cursor c.cursor page) db e t.valid).0 later).1 in
              absurd (omega (arith, above, low))
        ]
  ]

  -- A page of any length, kept, leaves it so.
  pub page-Tracks : Tracks u db (record {
    cursor = next_cursor c.cursor page;
    copy = keep_rows (map to_pull_envelope page) c.copy;
  })
  page-Tracks =
      rows-Tracks u db c t page (next_cursor c.cursor page) page-find_row
        (next_cursor-bound c.cursor (next_seq u db.users) page t.within
          (λ e m. find_row-counter u (key_of e) db e t.valid (page-find_row e m)))
        page_or_held

  -- So do some first rows of it, with the cursor before.
  pub part-Tracks :
      (j : ℕ)
      → Tracks u db (record c { copy = keep_rows (map to_pull_envelope (take j page)) c.copy })
  part-Tracks j =
      rows-Tracks u db c t (take j page) c.cursor (λ e m. page-find_row e (In-take j e page m))
        t.within (λ k e found low. inr (t.held k e found low))
