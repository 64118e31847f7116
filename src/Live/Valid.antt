-- ===== src/Live/Valid.antt =====
-- The well-formedness of the registry of internal/live/registry.go.
use ulsync_server.Prelude.{
  ℕ, ◌<◌, ◌≡◌, ◌≢◌, ◌⊎◌, subst, refl, sym, ◌∙◌, Bool, true, false, Option, none, some, List, [],
  ◌∷◌, Str, str_eq, str_eq_iff, arith, inl, inr, Bool-cases, Option-cases,
}
use ulsync_server.Live.{
  Registry, Waiter, bucket, delete_waiter, members, shrink, contains, new, subscribe, unsubscribe,
  notify, receive,
}
use ulsync_server.Live.Buckets.{
  Once, Distinct, bucket-put_bucket, bucket-delete_bucket, put_bucket-Once, delete_bucket-Once,
  contains-delete_waiter, delete_waiter-Distinct,
}
use ulsync_server.Live.Laws.{members-subscribe, members-unsubscribe, signals-notify}

-- Each user has one bucket, which is not empty; a waiter stands in one bucket, once, and its
-- channel was made.
pub record IsValid (r : Registry) : Type 0 where
  pub once : Once r.waiters
  pub filled : (u : Str) → bucket u r.waiters ≢ some []
  pub made : (u : Str) (c : ℕ) → contains c (members u r.waiters) ≡ true → c < r.made
  pub owner :
      (u v : Str) (c : ℕ)
      → contains c (members u r.waiters) ≡ true
      → contains c (members v r.waiters) ≡ true
      → u ≡ v
  pub distinct : (u : Str) → Distinct (members u r.waiters)

pub new-IsValid : IsValid new
unfolding new bucket
new-IsValid = record {
  once = tt;
  filled = λ u h. ground arith;
  made = λ u c h. absurd (ground arith);
  owner = λ u v c h k. absurd (ground arith);
  distinct = λ u. tt;
}

same_waiters :
    {r : Registry} {signals : ℕ → Bool} → IsValid r → IsValid (record r { signals = signals })
same_waiters v = record {
  once = v.once;
  filled = v.filled;
  made = v.made;
  owner = v.owner;
  distinct = v.distinct;
}

pub subscribed_waiter :
    (u : Str) (r : Registry) → (subscribe u r).1 ≡ record { user_id = u; ch = r.made }
unfolding subscribe
subscribed_waiter u r = refl

delete_waiter_head : (c : ℕ) (set : List ℕ) → delete_waiter c (c ∷ set) ≡ set
unfolding delete_waiter
delete_waiter_head c set = ground arith

module _ (u : Str) (r : Registry) (v : IsValid r) where
  members_subscribed :
      (w : Str) (c : ℕ)
      → contains c (members w (subscribe u r).0.waiters) ≡ true
      → (contains c (members w r.waiters) ≡ true) ⊎ ((c ≡ r.made) × (u ≡ w))
  members_subscribed w c h = elim (Bool-cases (contains c (members w r.waiters))) [
    | inl old ↦ inl old
    | inr fresh_one ↦ inr (
      ground (arith, members-subscribe u w r, str_eq_iff u w),
      ground (arith, members-subscribe u w r, str_eq_iff u w),
    )
  ]

  unused_channel : (w : Str) → contains r.made (members w r.waiters) ≡ false
  unused_channel w = elim (Bool-cases (contains r.made (members w r.waiters))) [
    | inl h ↦ absurd (omega (arith, v.made w r.made h))
    | inr h ↦ h
  ]

  pub subscribe-IsValid : IsValid (subscribe u r).0
  subscribe-IsValid = record {
    once = unfold subscribe in put_bucket-Once u (r.made ∷ members u r.waiters) r.waiters v.once;
    filled = λ w h.
        unfold subscribe in
        ground (arith, bucket-put_bucket u w (r.made ∷ members u r.waiters) r.waiters, v.filled w);
    made = λ w c h. elim (members_subscribed w c h) [
      | inl old ↦ unfold subscribe in omega (arith, v.made w c old)
      | inr (e, same) ↦ unfold subscribe in omega arith
    ];
    owner = λ w x c h k. elim (members_subscribed w c h) [
      | inl old ↦ elim (members_subscribed x c k) [
        | inl old' ↦ v.owner w x c old old'
        | inr (e, same) ↦ absurd (omega (arith, v.made w c old))
      ]
      | inr (e, same) ↦ elim (members_subscribed x c k) [
        | inl old ↦ absurd (omega (arith, v.made x c old))
        | inr (e', same') ↦ sym same ∙ same'
      ]
    ];
    distinct = λ w. elim (Bool-cases (str_eq u w)) [
      | inl same ↦
          let e : r.made ∷ members u r.waiters ≡ members w (subscribe u r).0.waiters =
            ground (arith, members-subscribe u w r) in
          subst Distinct e (unused_channel u, v.distinct u)
      | inr other ↦
          let e : members w r.waiters ≡ members w (subscribe u r).0.waiters =
            ground (arith, members-subscribe u w r) in
          subst Distinct e (v.distinct w)
    ];
  }

  -- A live pull that subscribes and unsubscribes leaves every user's set as it was.
  pub members-unsubscribe-subscribe :
      (w : Str)
      → members w (unsubscribe (some (subscribe u r).1) (subscribe u r).0).waiters
        ≡ members w r.waiters
  members-unsubscribe-subscribe w =
      let s = subscribe u r in
      ground (
        arith,
        members-unsubscribe s.1 w s.0 subscribe-IsValid.once,
        members-subscribe u w r,
        subscribed_waiter u r,
        str_eq_iff u w,
        delete_waiter_head r.made (members u r.waiters),
      )

  -- In a well-formed registry a notify of one user fills no channel of a waiter of another user.
  pub notify_other_user :
      (w : Str) (c : ℕ)
      → str_eq u w ≡ false
      → contains c (members w r.waiters) ≡ true
      → (notify u r).signals c ≡ r.signals c
  notify_other_user w c other h =
      ground (arith, signals-notify u r c, v.owner u w c, str_eq_iff u w)

module _ (w : Waiter) (r : Registry) (v : IsValid r) where
  bucket-unsubscribe : (x : Str) → bucket x (unsubscribe (some w) r).waiters ≢ some []
  unfolding unsubscribe shrink
  bucket-unsubscribe x h = elim (Option-cases (bucket w.user_id r.waiters)) [
    | inl absent ↦ ground (arith, absent, v.filled x)
    | inr (set, found) ↦ no_empty x (delete_waiter w.ch set) (ground arith)
  ]
    where
      no_empty : (x : Str) (set : List ℕ) → bucket x (shrink w.user_id set r.waiters) ≢ some []
      no_empty x [] =
          λ k. ground (arith, bucket-delete_bucket w.user_id x r.waiters v.once, v.filled x)
      no_empty x (c ∷ set) =
          λ k. ground (arith, bucket-put_bucket w.user_id x (c ∷ set) r.waiters, v.filled x)

  Once-unsubscribe : Once (unsubscribe (some w) r).waiters
  unfolding unsubscribe
  Once-unsubscribe = elim (Option-cases (bucket w.user_id r.waiters)) [
    | inl absent ↦
        let e : r.waiters ≡ (unsubscribe (some w) r).waiters = ground (arith, absent) in
        subst Once e v.once
    | inr (set, found) ↦
        let e : shrink w.user_id (delete_waiter w.ch set) r.waiters
            ≡ (unsubscribe (some w) r).waiters =
          ground (arith, found) in
        subst Once e (shrunk (delete_waiter w.ch set))
  ]
    where
      shrunk : (set : List ℕ) → Once (shrink w.user_id set r.waiters)
      shrunk [] = unfold shrink in delete_bucket-Once w.user_id r.waiters v.once
      shrunk (c ∷ set) = unfold shrink in put_bucket-Once w.user_id (c ∷ set) r.waiters v.once

  members_left :
      (x : Str) (c : ℕ)
      → contains c (members x (unsubscribe (some w) r).waiters) ≡ true
      → contains c (members x r.waiters) ≡ true
  members_left x c h =
      ground (
        arith,
        members-unsubscribe w x r v.once,
        contains-delete_waiter w.ch c (members x r.waiters),
      )

  made-unsubscribe : (unsubscribe (some w) r).made ≡ r.made
  unfolding unsubscribe
  made-unsubscribe = ground arith

  unsubscribe_one-IsValid : IsValid (unsubscribe (some w) r)
  unsubscribe_one-IsValid = record {
    once = Once-unsubscribe;
    filled = bucket-unsubscribe;
    made = λ x c h. omega (arith, made-unsubscribe, v.made x c (members_left x c h));
    owner = λ x y c h k. v.owner x y c (members_left x c h) (members_left y c k);
    distinct = λ x. elim (Bool-cases (str_eq w.user_id x)) [
      | inl same ↦
          let e : delete_waiter w.ch (members x r.waiters)
              ≡ members x (unsubscribe (some w) r).waiters =
            ground (arith, members-unsubscribe w x r v.once) in
          subst Distinct e (delete_waiter-Distinct w.ch (members x r.waiters) (v.distinct x))
      | inr other ↦
          let e : members x r.waiters ≡ members x (unsubscribe (some w) r).waiters =
            ground (arith, members-unsubscribe w x r v.once) in
          subst Distinct e (v.distinct x)
    ];
  }

pub unsubscribe-IsValid : (w : Option Waiter) (r : Registry) → IsValid r → IsValid (unsubscribe w r)
unfolding unsubscribe
unsubscribe-IsValid none r v = v
unsubscribe-IsValid (some w) r v = unsubscribe_one-IsValid w r v

pub notify-IsValid : (u : Str) (r : Registry) → IsValid r → IsValid (notify u r)
unfolding notify
notify-IsValid u r v = same_waiters v

pub receive-IsValid : (w : Waiter) (r : Registry) → IsValid r → IsValid (receive w r)
unfolding receive
receive-IsValid w r v = same_waiters v

-- The registries that the operations reach from the empty one.
pub data Reachable : Registry → Type 0 where
  start : Reachable new
  subscribed : {r : Registry} (u : Str) → Reachable r → Reachable (subscribe u r).0
  unsubscribed : {r : Registry} (w : Option Waiter) → Reachable r → Reachable (unsubscribe w r)
  notified : {r : Registry} (u : Str) → Reachable r → Reachable (notify u r)
  received : {r : Registry} (w : Waiter) → Reachable r → Reachable (receive w r)

-- Every registry that the operations reach from the empty one has one bucket for a user, never an
-- empty one, and each waiter in one bucket, once.
pub Reachable-IsValid : {r : Registry} → Reachable r → IsValid r
Reachable-IsValid start = new-IsValid
Reachable-IsValid (subscribed {r = r} u h) = subscribe-IsValid u r (Reachable-IsValid h)
Reachable-IsValid (unsubscribed {r = r} w h) = unsubscribe-IsValid w r (Reachable-IsValid h)
Reachable-IsValid (notified {r = r} u h) = notify-IsValid u r (Reachable-IsValid h)
Reachable-IsValid (received {r = r} w h) = receive-IsValid w r (Reachable-IsValid h)
