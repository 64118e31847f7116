-- ===== src/Store/Since/Pages.antt =====
-- Pages of internal/store/since.go: what one page leaves is what the next cursor selects.
use ulsync_server.Prelude.{
  ℕ, zero, suc, ◌≤◌, ◌≡◌, refl, sym, ap, ◌∙◌, List, [], ◌∷◌, Str, ltb, arith, take, drop,
  if◌then◌else◌,
}
use ulsync_server.Store.Envelope.{Envelope}
use ulsync_server.Store.Db.{Row, Db}
use ulsync_server.Store.Db.Valid.{IsValid}
use ulsync_server.Store.Since.{rows_after, insert_by_seq, order_by_seq, backlog, next_cursor}
use ulsync_server.Store.Since.Order.{Ascends, backlog-Ascends}

-- The envelopes with a number above the cursor.
unfoldable above : ℕ → List Envelope → List Envelope
above c [] = []
above c (e ∷ es) = if ltb c e.server_seq then e ∷ above c es else above c es

above-rows_after :
    (u : Str) (since c : ℕ) (rows : List Row)
    → since ≤ c
    → rows_after u c rows ≡ above c (rows_after u since rows)
unfolding rows_after above
above-rows_after u since c [] h = refl
above-rows_after u since c (r ∷ rows) h = ground (arith, above-rows_after u since c rows)

above-insert_by_seq :
    (c : ℕ) (e : Envelope) (es : List Envelope)
    → above c (insert_by_seq e es)
      ≡ (if ltb c e.server_seq then insert_by_seq e (above c es) else above c es)
unfolding insert_by_seq above
above-insert_by_seq c e [] = ground arith
above-insert_by_seq c e (x ∷ xs) = ground (arith, above-insert_by_seq c e xs)

above-order_by_seq :
    (c : ℕ) (es : List Envelope) → above c (order_by_seq es) ≡ order_by_seq (above c es)
unfolding order_by_seq above
above-order_by_seq c [] = refl
above-order_by_seq c (e ∷ es) =
    ground (arith, above-insert_by_seq c e (order_by_seq es), above-order_by_seq c es)

above-Ascends : (lo : ℕ) (es : List Envelope) → Ascends lo es → (c : ℕ) → c ≤ lo → above c es ≡ es
unfolding above
above-Ascends lo [] a c h = refl
above-Ascends lo (e ∷ es) a c h = ground (arith, above-Ascends e.server_seq es a.1 c)

-- The next cursor is never behind the one before.
pub next_cursor-le :
    (lo n : ℕ) (es : List Envelope) → Ascends lo es → lo ≤ next_cursor lo (take n es)
unfolding next_cursor
next_cursor-le lo zero es a = omega arith
next_cursor-le lo (suc n) [] a = omega arith
next_cursor-le lo (suc n) (e ∷ es) a = omega (arith, next_cursor-le e.server_seq n es a.1)

above-drop :
    (lo n : ℕ) (es : List Envelope)
    → Ascends lo es
    → above (next_cursor lo (take n es)) es ≡ drop n es
unfolding next_cursor above
above-drop lo zero es a = above-Ascends lo es a lo (omega arith)
above-drop lo (suc n) [] a = refl
above-drop lo (suc n) (e ∷ es) a =
    ground (arith, above-drop e.server_seq n es a.1, next_cursor-le e.server_seq n es a.1)

module _ (u : Str) (since : ℕ) (db : Db) (v : IsValid db) where
  -- In well-formed tables the rows after the next cursor of a page are those that the page left
  -- out, in the same order: no row is skipped and none comes twice.
  pub backlog-next_cursor :
      (limit : ℕ)
      → backlog u (next_cursor since (take limit (backlog u since db))) db
        ≡ drop limit (backlog u since db)
  unfolding backlog
  backlog-next_cursor limit =
      let rows = rows_after u since db.envelopes in
      let c = next_cursor since (take limit (order_by_seq rows)) in
      ap order_by_seq (
        above-rows_after u since c db.envelopes
          (next_cursor-le since limit (order_by_seq rows) (backlog-Ascends u since db v)))
      ∙ sym (above-order_by_seq c rows)
      ∙ above-drop since limit (order_by_seq rows) (backlog-Ascends u since db v)
