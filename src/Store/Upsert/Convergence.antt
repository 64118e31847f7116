-- ===== src/Store/Upsert/Convergence.antt =====
-- The ranks that internal/store/upsert.go leaves at a key do not depend on the order of arrival.
use mathlib.Core.List.{Perm, Permᴰ}
use mathlib.Core.Logic.{∥∥₁_elim}
use mathlib.Core.Option
use ulsync_server.Prelude.{
  ℕ, ◌+◌, ◌≡◌, refl, sym, ◌∙◌, ap, Option, none, some, List, [], ◌∷◌, Str, str_eq_refl, arith,
}
use ulsync_server.Store.Conflict.{Ranks}
use ulsync_server.Store.Conflict.Order.{wins_trans, wins_tri, wins_asym}
use ulsync_server.Store.Envelope.{Envelope, Key, key_eq_iff, key_of, ranks_of}
use ulsync_server.Store.Db.{Db, find_row, next_seq}
use ulsync_server.Store.Db.Rows.{same_key}
use ulsync_server.Store.Upsert.Spec.{apply_one, apply_all, settle, keep, keep_at, keep_all}
use ulsync_server.Store.Upsert.Lww.{find_row-apply_one}

-- The ranks that the store holds at a key.
abbrev pub stored_at : Str → Key → Db → Option Ranks
stored_at u k db = Option.map ranks_of (find_row u k db.envelopes)

ranks_of-settle :
    (o : Option Envelope) (seq : ℕ) (e : Envelope)
    → Option.map ranks_of (settle o seq e) ≡ keep (Option.map ranks_of o) (ranks_of e)
unfolding settle keep
ranks_of-settle none seq e = refl
ranks_of-settle (some old) seq e = ground arith

stored_at-apply_one :
    (u : Str) (k : Key) (e : Envelope) (db : Db)
    → stored_at u k (apply_one u e db).0 ≡ keep_at k (stored_at u k db) e
unfolding same_key keep_at
stored_at-apply_one u k e db = ground (
  arith,
  find_row-apply_one u e db u k,
  str_eq_refl u,
  key_eq_iff (key_of e) k,
  ranks_of-settle (find_row u k db.envelopes) (next_seq u db.users + 1) e,
)

-- A batch leaves at each key the best of what was there and what arrived for it.
pub stored_at-apply_all :
    (u : Str) (k : Key) (es : List Envelope) (db : Db)
    → stored_at u k (apply_all u es db).0 ≡ keep_all k (stored_at u k db) es
unfolding apply_all keep_all
stored_at-apply_all u k [] db = refl
stored_at-apply_all u k (e ∷ es) db =
    stored_at-apply_all u k es (apply_one u e db).0
    ∙ ap (λ o. keep_all k o es) (stored_at-apply_one u k e db)

keep_comm : (o : Option Ranks) (a b : Ranks) → keep (keep o a) b ≡ keep (keep o b) a
unfolding keep
keep_comm none a b = ground (arith, wins_tri a b, wins_asym a b)
keep_comm (some s) a b =
    ground (arith, wins_tri a b, wins_asym a b, wins_trans a b s, wins_trans b a s)

keep_at_comm :
    (k : Key) (o : Option Ranks) (e f : Envelope)
    → keep_at k (keep_at k o e) f ≡ keep_at k (keep_at k o f) e
unfolding keep_at
keep_at_comm k o e f = ground (arith, keep_comm o (ranks_of e) (ranks_of f))

keep_all-permᴰ :
    (k : Key) {es fs : List Envelope}
    → Permᴰ es fs
    → (o : Option Ranks) → keep_all k o es ≡ keep_all k o fs
unfolding keep_all
keep_all-permᴰ k Permᴰ.nil o = refl
keep_all-permᴰ k (Permᴰ.cons {b = b} {l₁ = es} e p) o = rw e (keep_all-permᴰ k p (keep_at k o b))
keep_all-permᴰ k (Permᴰ.swap {a = a} {b = b} {l = es} d e) o = rw (← d, ← e, keep_at_comm k o a b)
keep_all-permᴰ k (Permᴰ.trans p q) o = keep_all-permᴰ k p o ∙ keep_all-permᴰ k q o

Ranks-set : IsSet (Option Ranks)
Ranks-set = hlevel

-- Whatever the order in which the same envelopes arrive, each key ends with the same ranks.
pub apply_all-converges :
    (u : Str) (k : Key) (es fs : List Envelope) (db : Db)
    → Perm es fs
    → stored_at u k (apply_all u es db).0 ≡ stored_at u k (apply_all u fs db).0
apply_all-converges u k es fs db p =
    stored_at-apply_all u k es db
    ∙ ∥∥₁_elim p (Ranks-set _ _) (λ q. keep_all-permᴰ k q (stored_at u k db))
    ∙ sym (stored_at-apply_all u k fs db)
