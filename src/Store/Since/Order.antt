-- ===== src/Store/Since/Order.antt =====
-- The order of the rows that internal/store/since.go returns.
use ulsync_server.Prelude.{
  ℕ, ◌<◌, ◌≡◌, ◌≢◌, sym, ◌∙◌, ◌&&◌, List, [], ◌∷◌, Str, str_eq, str_eq_iff, ltb, leb, arith, inl,
  inr, Bool-cases, All, Pairwise,
}
use ulsync_server.Store.Envelope.{Envelope}
use ulsync_server.Store.Db.{Row, Db}
use ulsync_server.Store.Db.Valid.{Apart, IsValid}
use ulsync_server.Store.Since.{rows_after, insert_by_seq, order_by_seq, backlog}

-- The numbers rise strictly from above `lo`.
abbrev pub Ascends : ℕ → List Envelope → Type 0
Ascends lo [] = Unit
Ascends lo (e ∷ es) = (lo < e.server_seq) × Ascends e.server_seq es

abbrev Differ : Envelope → Envelope → Type 0
Differ e f = e.server_seq ≢ f.server_seq

All-insert_by_seq :
    (P : Envelope → Type 0) (e : Envelope) (es : List Envelope)
    → P e
    → All P es
    → All P (insert_by_seq e es)
unfolding insert_by_seq
All-insert_by_seq P e [] p h = (p, tt)
All-insert_by_seq P e (x ∷ xs) p h = elim (Bool-cases (leb e.server_seq x.server_seq)) [
  | inl first ↦ simp first (p, h)
  | inr later ↦ simp later (h.0, All-insert_by_seq P e xs p h.1)
]

All-order_by_seq : (P : Envelope → Type 0) (es : List Envelope) → All P es → All P (order_by_seq es)
unfolding order_by_seq
All-order_by_seq P [] h = tt
All-order_by_seq P (e ∷ es) h =
    All-insert_by_seq P e (order_by_seq es) h.0 (All-order_by_seq P es h.1)

insert_by_seq-Ascends :
    (lo : ℕ) (e : Envelope) (es : List Envelope)
    → lo < e.server_seq
    → All (Differ e) es
    → Ascends lo es
    → Ascends lo (insert_by_seq e es)
unfolding insert_by_seq
insert_by_seq-Ascends lo e [] h d a = (h, tt)
insert_by_seq-Ascends lo e (x ∷ xs) h d a = elim (Bool-cases (leb e.server_seq x.server_seq)) [
  | inl first ↦ simp first (h, (ground (arith, d.0), a.1))
  | inr later ↦ simp later (a.0, insert_by_seq-Ascends x.server_seq e xs (ground arith) d.1 a.1)
]

order_by_seq-Ascends :
    (lo : ℕ) (es : List Envelope)
    → All (λ e. lo < e.server_seq) es
    → Pairwise Differ es
    → Ascends lo (order_by_seq es)
unfolding order_by_seq
order_by_seq-Ascends lo [] h d = tt
order_by_seq-Ascends lo (e ∷ es) h d =
    insert_by_seq-Ascends lo e (order_by_seq es) h.0 (All-order_by_seq (Differ e) es d.0)
      (order_by_seq-Ascends lo es h.1 d.1)

module _ (u : Str) (since : ℕ) where
  All-rows_after :
      (P : Row → Type 0) (Q : Envelope → Type 0)
      → ((r : Row) → r.user_id ≡ u → since < r.env.server_seq → P r → Q r.env)
      → (rows : List Row) → All P rows
      → All Q (rows_after u since rows)
  unfolding rows_after
  All-rows_after P Q f [] h = tt
  All-rows_after P Q f (r ∷ rows) h =
      elim (Bool-cases (str_eq r.user_id u && ltb since r.env.server_seq)) [
        | inl hit ↦ simp hit (
          f r (ground (arith, str_eq_iff r.user_id u)) (ground arith) h.0,
          All-rows_after P Q f rows h.1,
        )
        | inr miss ↦ simp miss (All-rows_after P Q f rows h.1)
      ]

  rows_after-above : (rows : List Row) → All (λ e. since < e.server_seq) (rows_after u since rows)
  unfolding rows_after
  rows_after-above [] = tt
  rows_after-above (r ∷ rows) =
      elim (Bool-cases (str_eq r.user_id u && ltb since r.env.server_seq)) [
        | inl hit ↦ simp hit (ground arith, rows_after-above rows)
        | inr miss ↦ simp miss (rows_after-above rows)
      ]

  rows_after-Differ :
      (rows : List Row) → Pairwise Apart rows → Pairwise Differ (rows_after u since rows)
  unfolding rows_after
  rows_after-Differ [] p = tt
  rows_after-Differ (r ∷ rows) p =
      elim (Bool-cases (str_eq r.user_id u && ltb since r.env.server_seq)) [
        | inl hit ↦
            let own : r.user_id ≡ u = ground (arith, str_eq_iff r.user_id u) in
            simp hit (
              All-rows_after (Apart r) (Differ r.env)
                  (λ s same above apart. (apart (own ∙ sym same)).1) rows p.0,
              rows_after-Differ rows p.1,
            )
        | inr miss ↦ simp miss (rows_after-Differ rows p.1)
      ]

  -- In well-formed tables the rows that Since selects have strictly rising numbers, all above the
  -- cursor.
  pub backlog-Ascends : (db : Db) → IsValid db → Ascends since (backlog u since db)
  unfolding backlog
  backlog-Ascends db v =
      order_by_seq-Ascends since (rows_after u since db.envelopes) (rows_after-above db.envelopes)
        (rows_after-Differ db.envelopes v.apart)
