-- ===== src/Store/Upsert/Lww.antt =====
-- The detailed upsert of internal/store/upsert.go implements the register of each key.
use ulsync_server.Prelude.{
  ℕ, ◌+◌, ◌≡◌, refl, true, false, List, [], ◌∷◌, Str, str_eq, str_eq_iff, arith, if◌then◌else◌, inl,
  inr, Option-cases,
}
use ulsync_server.Store.Conflict.Order.{wins-where_clause}
use ulsync_server.Store.Envelope.{Envelope, Key, key_eq_iff, key_of, ranks_of}
use ulsync_server.Store.Db.{Row, Db, find_row, next_seq}
use ulsync_server.Store.Db.Rows.{
  same_key, find_row-key, find_row-append, find_row-replace_row, next_seq-bump_seq,
}
use ulsync_server.Store.Upsert.{upsert_envelope, inserted, updated}
use ulsync_server.Store.Upsert.Spec.{apply_one, apply_all, accepts, settle}

pub same_key-eq : (u v : Str) (k j : Key) → same_key u k v j ≡ true → (u ≡ v) × (k ≡ j)
unfolding same_key
same_key-eq u v k j h = ground (arith, str_eq_iff u v, key_eq_iff k j)

module _ (u : Str) (seq : ℕ) (e : Envelope) (rows : List Row) where
  pub accepts-upsert_envelope :
      (upsert_envelope u seq e rows).1 ≡ accepts (find_row u (key_of e) rows) e
  unfolding upsert_envelope accepts
  accepts-upsert_envelope = elim (Option-cases (find_row u (key_of e) rows)) [
    | inl absent ↦ ground arith
    | inr (old, found) ↦ ground (arith, wins-where_clause (ranks_of e) (ranks_of old))
  ]

  -- The columns that DO UPDATE SET names leave of the old row its creation time alone.
  updated-same_key :
      (old : Envelope)
      → key_of old ≡ key_of e
      → updated seq e old ≡ record e { created_at_ms = old.created_at_ms; server_seq = seq }
  unfolding updated
  updated-same_key old same =
      λ i. record (updated seq e old) { id = (same i).id; part = (same i).part }

  -- The written key holds what `settle` says, and every other key what it held.
  pub find_row-upsert_envelope :
      (v : Str) (j : Key)
      → find_row v j (upsert_envelope u seq e rows).0 ≡ (
          if same_key u (key_of e) v j
          then settle (find_row u (key_of e) rows) seq e
          else find_row v j rows)
  unfolding upsert_envelope settle inserted
  find_row-upsert_envelope v j = elim (Option-cases (find_row u (key_of e) rows)) [
    | inl absent ↦
        ground (arith, find_row-append u v (key_of e) (inserted seq e) rows refl absent j)
    | inr (old, found) ↦ ground (
      arith,
      find_row-key u (key_of e) rows found,
      updated-same_key old (find_row-key u (key_of e) rows found),
      wins-where_clause (ranks_of e) (ranks_of old),
      find_row-replace_row u v (key_of e) j (updated seq e old) old rows
          (find_row-key u (key_of e) rows found) found,
      key_eq_iff (key_of e) j,
      str_eq_iff u v,
      same_key-eq u v (key_of e) j,
    )
  ]

module _ (u : Str) (e : Envelope) (db : Db) where
  pub accepts-apply_one : (apply_one u e db).1 ≡ accepts (find_row u (key_of e) db.envelopes) e
  unfolding apply_one
  accepts-apply_one = accepts-upsert_envelope u (next_seq u db.users + 1) e db.envelopes

  -- After a write the written key holds, if there was no row, the incoming envelope under the next
  -- number of the user; if there was one that the envelope beats, the same with the creation time
  -- of that row; and otherwise what it held. Every other key of every user holds what it held.
  pub find_row-apply_one :
      (v : Str) (j : Key)
      → find_row v j (apply_one u e db).0.envelopes ≡ (
          if same_key u (key_of e) v j
          then settle (find_row u (key_of e) db.envelopes) (next_seq u db.users + 1) e
          else find_row v j db.envelopes)
  unfolding apply_one
  find_row-apply_one v j = find_row-upsert_envelope u (next_seq u db.users + 1) e db.envelopes v j

  pub next_seq-apply_one :
      (v : Str)
      → next_seq v (apply_one u e db).0.users
        ≡ (if str_eq u v then next_seq v db.users + 1 else next_seq v db.users)
  unfolding apply_one
  next_seq-apply_one v = next_seq-bump_seq u v db.users

-- A write of one user changes no row of another.
pub apply_all_other_user :
    (u v : Str) (es : List Envelope) (db : Db) (j : Key)
    → str_eq u v ≡ false
    → find_row v j (apply_all u es db).0.envelopes ≡ find_row v j db.envelopes
unfolding apply_all same_key
apply_all_other_user u v [] db j h = refl
apply_all_other_user u v (e ∷ es) db j h =
    ground
      (arith, apply_all_other_user u v es (apply_one u e db).0 j h, find_row-apply_one u e db v j)
