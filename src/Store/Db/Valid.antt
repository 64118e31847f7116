-- ===== src/Store/Db/Valid.antt =====
-- The well-formedness of the tables of internal/store/migrations: primary keys and the sequence
-- numbers of one user are unique, and no number is above the user's counter.
use ulsync_server.Prelude.{
  ℕ, ◌≤◌, ◌<◌, ◌≡◌, ◌≢◌, sym, ◌∙◌, true, false, none, List, [], ◌∷◌, Str, str_eq_iff, arith, inl,
  inr, Bool-cases, All, All-zip, Pairwise,
}
use ulsync_server.Store.Envelope.{Envelope, Key, key_eq_iff, key_of}
use ulsync_server.Store.Db.{Row, Db, is_row, find_row, replace_row, next_seq, max_int64}

-- Two rows of one user differ in the key and in the number.
abbrev pub Apart : Row → Row → Type 0
Apart r s =
    r.user_id ≡ s.user_id → (key_of r.env ≢ key_of s.env) × (r.env.server_seq ≢ s.env.server_seq)

abbrev pub Numbered : List (Str × ℕ) → Row → Type 0
Numbered users r = (0 < r.env.server_seq) × (r.env.server_seq ≤ next_seq r.user_id users)

pub record IsValid (db : Db) : Type 0 where
  pub apart : Pairwise Apart db.envelopes
  pub numbered : All (Numbered db.users) db.envelopes
  pub counted : (u : Str) → next_seq u db.users ≤ max_int64

-- No row of the user has a number above `n`.
abbrev pub Below : Str → ℕ → Row → Type 0
Below u n r = r.user_id ≡ u → r.env.server_seq ≤ n

is_row-eq :
    (u : Str) (k : Key) (r : Row) → is_row u k r ≡ true → (r.user_id ≡ u) × (key_of r.env ≡ k)
unfolding is_row
is_row-eq u k r h = ground (arith, str_eq_iff r.user_id u, key_eq_iff (key_of r.env) k)

is_row-ne : (u : Str) (k : Key) (r : Row) → is_row u k r ≡ false → r.user_id ≡ u → key_of r.env ≢ k
unfolding is_row
is_row-ne u k r h e = λ p. ground (arith, str_eq_iff r.user_id u, key_eq_iff (key_of r.env) k)

module _ (u : Str) (k : Key) (env : Envelope) where
  pub All-replace_row :
      (P : Row → Type 0)
      → ((r : Row) → r.user_id ≡ u → key_of r.env ≡ k → P (record r { env = env }))
      → (rows : List Row) → All P rows
      → All P (replace_row u k env rows)
  unfolding replace_row
  All-replace_row P new [] h = tt
  All-replace_row P new (r ∷ rows) h = elim (Bool-cases (is_row u k r)) [
    | inl hit ↦ let (e, f) = is_row-eq u k r hit in rw (hit, replace_row) (new r e f, h.1)
    | inr miss ↦ rw (miss, replace_row) (h.0, All-replace_row P new rows h.1)
  ]

  module _ (n : ℕ) (keyed : key_of env ≡ k) (above : n < env.server_seq) where
    -- The row that replaces `r` is apart from the rows that `r` is apart from.
    Apart-new :
        (r : Row)
        → r.user_id ≡ u
        → key_of r.env ≡ k
        → (s : Row) → Apart r s × Below u n s
        → Apart (record r { env = env }) s
    Apart-new r e f s (a, b) =
        λ same. (λ p. (a same).0 (f ∙ sym keyed ∙ p), λ p. absurd (omega (arith, b (sym same ∙ e))))

    Apart-old :
        (r : Row)
        → is_row u k r ≡ false
        → Below u n r
        → (s : Row) → s.user_id ≡ u
        → key_of s.env ≡ k
        → Apart r (record s { env = env })
    Apart-old r miss b s e f = λ same. (
      λ p. is_row-ne u k r miss (same ∙ e) (p ∙ keyed),
      λ p. absurd (omega (arith, b (same ∙ e))),
    )

    pub Pairwise-replace_row :
        (rows : List Row)
        → Pairwise Apart rows
        → All (Below u n) rows
        → Pairwise Apart (replace_row u k env rows)
    unfolding replace_row
    Pairwise-replace_row [] p b = tt
    Pairwise-replace_row (r ∷ rows) p b = elim (Bool-cases (is_row u k r)) [
      | inl hit ↦
          let (e, f) = is_row-eq u k r hit in
          rw (hit, replace_row)
            (
              All-zip (Apart r) (Below u n) (Apart (record r { env = env })) (Apart-new r e f) rows
                  p.0 b.1,
              p.1,
            )
      | inr miss ↦
          rw (miss, replace_row)
            (
              All-replace_row (Apart r) (Apart-old r miss b.0) rows p.0,
              Pairwise-replace_row rows p.1 b.1,
            )
    ]

    pub Apart-snoc :
        (rows : List Row)
        → find_row u k rows ≡ none
        → All (Below u n) rows
        → All (λ r. Apart r (record { user_id = u; env = env })) rows
    unfolding find_row
    Apart-snoc [] h b = tt
    Apart-snoc (r ∷ rows) h b = elim (Bool-cases (is_row u k r)) [
      | inl hit ↦ absurd (ground arith)
      | inr miss ↦ (
        λ same. (λ p. is_row-ne u k r miss same (p ∙ keyed), λ p. absurd (omega (arith, b.0 same))),
        Apart-snoc rows (ground arith) b.1,
      )
    ]
