-- ===== src/Store/Since/Members.antt =====
-- Which rows internal/store/since.go returns: those of the user above the cursor, and no others.
use ulsync_server.Prelude.{
  ℕ, ◌<◌, ◌≡◌, sym, ap, ◌↔◌, ◌⊎◌, true, false, ◌&&◌, some, List, [], ◌∷◌, Str, str_eq, str_eq_iff,
  ltb, leb, arith, inl, inr, Bool-cases, In, All, Pairwise, All-In,
}
use ulsync_server.Store.Envelope.{Envelope, Key, key_eq, key_eq_iff, key_of}
use ulsync_server.Store.Db.{Row, Db, is_row, find_row}
use ulsync_server.Store.Db.Valid.{Apart, IsValid}
use ulsync_server.Store.Since.{rows_after, insert_by_seq, order_by_seq, backlog}

In-insert_by_seq :
    (x e : Envelope) (es : List Envelope) → In x (insert_by_seq e es) ↔ ((x ≡ e) ⊎ In x es)
unfolding insert_by_seq
In-insert_by_seq x e [] = (λ h. h, λ h. h)
In-insert_by_seq x e (y ∷ ys) = elim (Bool-cases (leb e.server_seq y.server_seq)) [
  | inl first ↦ simp first (λ h. h, λ h. h)
  | inr later ↦ simp later (to (In-insert_by_seq x e ys).0, from (In-insert_by_seq x e ys).1)
]
  where
    to : {P : Type 0} → (P → (x ≡ e) ⊎ In x ys) → (x ≡ y) ⊎ P → (x ≡ e) ⊎ ((x ≡ y) ⊎ In x ys)
    to f (inl p) = inr (inl p)
    to f (inr p) = elim (f p) [ inl q ↦ inl q | inr q ↦ inr (inr q) ]

    from : {P : Type 0} → ((x ≡ e) ⊎ In x ys → P) → (x ≡ e) ⊎ ((x ≡ y) ⊎ In x ys) → (x ≡ y) ⊎ P
    from f (inl p) = inr (f (inl p))
    from f (inr p) = elim p [ inl q ↦ inl q | inr q ↦ inr (f (inr q)) ]

In-order_by_seq : (x : Envelope) (es : List Envelope) → In x (order_by_seq es) ↔ In x es
unfolding order_by_seq
In-order_by_seq x [] = (λ h. h, λ h. h)
In-order_by_seq x (e ∷ es) =
    let (to, from) = In-order_by_seq x es in
    let (f, g) = In-insert_by_seq x e (order_by_seq es) in
    (
      λ h. elim (f h) [ inl p ↦ inl p | inr p ↦ inr (to p) ],
      λ h. elim h [ inl p ↦ g (inl p) | inr p ↦ g (inr (from p)) ],
    )

module _ (u : Str) (since : ℕ) (x : Envelope) where
  rows_after-row :
      (rows : List Row)
      → In x (rows_after u since rows)
      → In (record { user_id = u; env = x }) rows × (since < x.server_seq)
  unfolding rows_after
  rows_after-row [] m = elim m [ ]
  rows_after-row (r ∷ rows) m =
      elim (Bool-cases (str_eq r.user_id u && ltb since r.env.server_seq)) [
        | inr miss ↦ let (h, k) = rows_after-row rows (simp miss at m) in (inr h, k)
        | inl hit ↦
            here (ground (arith, str_eq_iff r.user_id u)) (ground arith) (rows_after-row rows)
              (simp hit at m)
      ]
    where
      here :
          r.user_id ≡ u
          → since < r.env.server_seq
          → (In x (rows_after u since rows)
              → In (record { user_id = u; env = x }) rows × (since < x.server_seq))
          → (x ≡ r.env) ⊎ In x (rows_after u since rows)
          → ((record { user_id = u; env = x }) ≡ r ⊎ In (record { user_id = u; env = x }) rows)
            × (since < x.server_seq)
      here own more rec (inl p) =
          (inl (λ i. record { user_id = sym own i; env = p i }), ground arith)
      here own more rec (inr p) = let (h, k) = rec p in (inr h, k)

  row-rows_after :
      (rows : List Row)
      → In (record { user_id = u; env = x }) rows
      → since < x.server_seq
      → In x (rows_after u since rows)
  unfolding rows_after
  row-rows_after [] m h = elim m [ ]
  row-rows_after (r ∷ rows) (inl p) h =
      let own : r.user_id ≡ u = ap (λ (s : Row). s.user_id) (sym p) in
      let same : x ≡ r.env = ap (λ (s : Row). s.env) p in
      let hit : (str_eq r.user_id u && ltb since r.env.server_seq) ≡ true =
        ground (arith, str_eq_iff r.user_id u) in
      simp hit (inl same)
  row-rows_after (r ∷ rows) (inr m) h =
      elim (Bool-cases (str_eq r.user_id u && ltb since r.env.server_seq)) [
        | inl hit ↦ simp hit (inr (row-rows_after rows m h))
        | inr miss ↦ simp miss (row-rows_after rows m h)
      ]

pub find_row-In :
    (u : Str) (k : Key) (e : Envelope) (rows : List Row)
    → find_row u k rows ≡ some e
    → In (record { user_id = u; env = e }) rows
unfolding find_row is_row
find_row-In u k e [] h = absurd (ground arith)
find_row-In u k e (r ∷ rows) h = elim (Bool-cases (is_row u k r)) [
  | inl hit ↦
      let own : u ≡ r.user_id = ground (arith, str_eq_iff r.user_id u) in
      let same : e ≡ r.env = ground arith in inl (λ i. record { user_id = own i; env = same i })
  | inr miss ↦ inr (find_row-In u k e rows (ground arith))
]

-- A later row of the same user has another key.
other_key :
    (u : Str) (e : Envelope) (r : Row) (rows : List Row)
    → All (Apart r) rows
    → In (record { user_id = u; env = e }) rows
    → is_row u (key_of e) r ≡ false
unfolding is_row
other_key u e r rows a m =
    elim (Bool-cases (str_eq r.user_id u && key_eq (key_of r.env) (key_of e))) [
      | inr miss ↦ miss
      | inl hit ↦ absurd (
          (All-In (Apart r) rows a m (ground (arith, str_eq_iff r.user_id u))).0
            (ground (arith, key_eq_iff (key_of r.env) (key_of e))))
    ]

In-find_row :
    (u : Str) (e : Envelope) (rows : List Row)
    → Pairwise Apart rows
    → In (record { user_id = u; env = e }) rows
    → find_row u (key_of e) rows ≡ some e
unfolding find_row
In-find_row u e [] p m = elim m [ ]
In-find_row u e (r ∷ rows) p (inl q) =
    let own : r.user_id ≡ u = ap (λ (s : Row). s.user_id) (sym q) in
    let same : r.env ≡ e = ap (λ (s : Row). s.env) (sym q) in
    unfold is_row in
    ground (arith, str_eq_iff r.user_id u, key_eq_iff (key_of r.env) (key_of e), ap key_of same)
In-find_row u e (r ∷ rows) p (inr m) =
    ground (arith, other_key u e r rows p.0 m, In-find_row u e rows p.1 m)

-- In well-formed tables a record is among the rows that Since selects, before the limit, exactly if
-- the store holds it at its key for the user and its number is above the cursor.
pub backlog-find_row :
    (u : Str) (since : ℕ) (db : Db) (e : Envelope)
    → IsValid db
    → In e (backlog u since db)
      ↔ ((find_row u (key_of e) db.envelopes ≡ some e) × (since < e.server_seq))
unfolding backlog
backlog-find_row u since db e v =
    let (to, from) = In-order_by_seq e (rows_after u since db.envelopes) in
    (
      λ m.
          let (m', h) = rows_after-row u since e db.envelopes (to m) in
          (In-find_row u e db.envelopes v.apart m', h),
      λ p.
          from (
            row-rows_after u since e db.envelopes (find_row-In u (key_of e) e db.envelopes p.0)
              p.1),
    )
