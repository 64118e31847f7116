-- ===== src/Live/Laws.antt =====
-- Counts, members and signals after the operations of internal/live/registry.go.
use ulsync_server.Prelude.{
  ℕ, ◌+◌, ◌≡◌, refl, true, some, List, [], ◌∷◌, Str, str_eq, str_eq_iff, arith, length, inl, inr,
  Option-cases, if◌then◌else◌,
}
use ulsync_server.Live.{
  Registry, Waiter, Buckets, bucket, delete_waiter, members, shrink, contains, subscribe,
  unsubscribe, notify, len, count_waiters,
}
use ulsync_server.Live.Buckets.{
  Once, bucket-put_bucket, bucket-delete_bucket, count-put_bucket, count-delete_bucket,
  length-delete_waiter,
}

-- One more waiter is counted.
pub len-subscribe : (u : Str) (r : Registry) → len (subscribe u r).0 ≡ len r + 1
unfolding len subscribe
len-subscribe u r = omega (arith, count-put_bucket u (r.made ∷ members u r.waiters) r.waiters)

members-shrink :
    (u v : Str) (set : List ℕ) (b : Buckets)
    → Once b
    → members v (shrink u set b) ≡ (if str_eq u v then set else members v b)
unfolding shrink
members-shrink u v [] b o = ground (arith, bucket-delete_bucket u v b o)
members-shrink u v (c ∷ set) b o = ground (arith, bucket-put_bucket u v (c ∷ set) b)

count-shrink :
    (u : Str) (set : List ℕ) (b : Buckets)
    → count_waiters (shrink u set b) + length (members u b) ≡ count_waiters b + length set
unfolding shrink
count-shrink u [] b = omega (arith, count-delete_bucket u b)
count-shrink u (c ∷ set) b = count-put_bucket u (c ∷ set) b

-- A waiter that is registered is no longer counted after it unsubscribes, and an unsubscription of
-- any other waiter changes no count.
pub len-unsubscribe :
    (w : Waiter) (r : Registry)
    → len (unsubscribe (some w) r) + (if contains w.ch (members w.user_id r.waiters) then 1 else 0)
      ≡ len r
unfolding len unsubscribe
len-unsubscribe w r = elim (Option-cases (bucket w.user_id r.waiters)) [
  | inl absent ↦ ground (arith, absent)
  | inr (set, found) ↦ ground (
    arith,
    found,
    length-delete_waiter w.ch set,
    count-shrink w.user_id (delete_waiter w.ch set) r.waiters,
  )
]

pub members-subscribe :
    (u v : Str) (r : Registry)
    → members v (subscribe u r).0.waiters
      ≡ (if str_eq u v then r.made ∷ members u r.waiters else members v r.waiters)
unfolding subscribe
members-subscribe u v r =
    ground (arith, bucket-put_bucket u v (r.made ∷ members u r.waiters) r.waiters)

pub members-unsubscribe :
    (w : Waiter) (v : Str) (r : Registry)
    → Once r.waiters
    → members v (unsubscribe (some w) r).waiters ≡ (
        if str_eq w.user_id v
        then delete_waiter w.ch (members v r.waiters)
        else members v r.waiters)
unfolding unsubscribe
members-unsubscribe w v r o = elim (Option-cases (bucket w.user_id r.waiters)) [
  | inl absent ↦ unfold delete_waiter in ground (arith, absent, str_eq_iff w.user_id v)
  | inr (set, found) ↦ ground (
    arith,
    found,
    str_eq_iff w.user_id v,
    members-shrink w.user_id v (delete_waiter w.ch set) r.waiters o,
  )
]

-- After a notify the channels of the user's waiters are full, and the others are as they were.
pub signals-notify :
    (u : Str) (r : Registry) (c : ℕ)
    → (notify u r).signals c ≡ (if contains c (members u r.waiters) then true else r.signals c)
unfolding notify
signals-notify u r c = refl
