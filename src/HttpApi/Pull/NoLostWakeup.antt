-- ===== src/HttpApi/Pull/NoLostWakeup.antt =====
-- No wakeup of internal/httpapi/pull.go is lost between its subscription, its query and its wait.
use ulsync_server.Prelude.{
  ℕ, ◌≡◌, ◌≢◌, ◌⊎◌, inl, inr, true, some, [], Str, str_eq_iff, str_eq_refl, arith, In,
}
use ulsync_server.Store.Since.{backlog}
use ulsync_server.Live.{
  Registry, Waiter, members, contains, subscribe, unsubscribe, notify, receive, set_signal,
}
use ulsync_server.Live.Buckets.{contains-delete_other}
use ulsync_server.Live.Laws.{members-subscribe, members-unsubscribe}
use ulsync_server.Live.Valid.{
  IsValid, subscribed_waiter, subscribe-IsValid, unsubscribe-IsValid, notify-IsValid,
  receive-IsValid,
}
use ulsync_server.HttpApi.Pull.Wakeup.{
  Server, pushing, Step, push_committed, push_notified, other_subscribed, other_unsubscribed,
  other_received, Steps, none_taken, and_then, Signalled, Registered, push_committed-Signalled,
  push_notified-Signalled, registry-Signalled,
}

module _ (w : Waiter) where
  notify-Registered : (u : Str) (r : Registry) → Registered w r → Registered w (notify u r)
  notify-Registered u r a = record {
    valid = notify-IsValid u r a.valid;
    made = unfold notify in a.made;
    member = unfold notify in a.member;
  }

  subscribe-Registered : (u : Str) (r : Registry) → Registered w r → Registered w (subscribe u r).0
  subscribe-Registered u r a = record {
    valid = subscribe-IsValid u r a.valid;
    made = unfold subscribe in omega (arith, a.made);
    member = ground (arith, a.member, members-subscribe u w.user_id r, str_eq_iff u w.user_id);
  }

  unsubscribe-Registered :
      (x : Waiter) (r : Registry)
      → x.ch ≢ w.ch
      → Registered w r
      → Registered w (unsubscribe (some x) r)
  unsubscribe-Registered x r other a = record {
    valid = unsubscribe-IsValid (some x) r a.valid;
    made = unfold unsubscribe in ground (arith, a.made);
    member = ground (
      arith,
      a.member,
      members-unsubscribe x w.user_id r a.valid.once,
      contains-delete_other x.ch w.ch (members w.user_id r.waiters),
    );
  }

  receive-Registered : (x : Waiter) (r : Registry) → Registered w r → Registered w (receive x r)
  receive-Registered x r a = record {
    valid = receive-IsValid x r a.valid;
    made = unfold receive in a.made;
    member = unfold receive in a.member;
  }

  Step-Registered : {s t : Server} → Step w s t → Registered w s.registry → Registered w t.registry
  unfolding pushing
  Step-Registered (push_committed s d max u now request) a = a
  Step-Registered (push_notified s before after u e) a = notify-Registered u s.registry a
  Step-Registered (other_subscribed s u) a = subscribe-Registered u s.registry a
  Step-Registered (other_unsubscribed s x other) a = unsubscribe-Registered x s.registry other a
  Step-Registered (other_received s x other) a = receive-Registered x s.registry a

  Steps-Registered :
      {s t : Server} → Steps w s t → Registered w s.registry → Registered w t.registry
  Steps-Registered (none_taken s) a = a
  Steps-Registered (and_then s t r before step) a = Step-Registered step (Steps-Registered before a)

  module _ (since : ℕ) where
    subscribe_signal :
        (u : Str) (r : Registry)
        → Registered w r
        → r.signals w.ch ≡ true
        → (subscribe u r).0.signals w.ch ≡ true
    unfolding subscribe set_signal
    subscribe_signal u r a h = ground (arith, h, a.made)

    unsubscribe_signal :
        (x : Waiter) (r : Registry)
        → r.signals w.ch ≡ true
        → (unsubscribe (some x) r).signals w.ch ≡ true
    unfolding unsubscribe
    unsubscribe_signal x r h = ground (arith, h)

    receive_signal :
        (x : Waiter) (r : Registry)
        → x.ch ≢ w.ch
        → r.signals w.ch ≡ true
        → (receive x r).signals w.ch ≡ true
    unfolding receive set_signal
    receive_signal x r other h = ground (arith, h, other)

    Step-Signalled :
        {s t : Server}
        → Step w s t
        → Registered w s.registry
        → Signalled w since s
        → Signalled w since t
    Step-Signalled (push_committed s d max u now request) a =
        push_committed-Signalled w since s d max u now request
    Step-Signalled (push_notified s before after u e) a =
        push_notified-Signalled w since s before after u e a
    Step-Signalled (other_subscribed s u) a =
        registry-Signalled w since s (subscribe u s.registry).0 (subscribe_signal u s.registry a)
    Step-Signalled (other_unsubscribed s x other) a =
        registry-Signalled w since s (unsubscribe (some x) s.registry)
          (unsubscribe_signal x s.registry)
    Step-Signalled (other_received s x other) a =
        registry-Signalled w since s (receive x s.registry) (receive_signal x s.registry other)

    Steps-Signalled :
        {s t : Server}
        → Steps w s t
        → Registered w s.registry
        → Signalled w since s
        → Signalled w since t
    Steps-Signalled (none_taken s) a h = h
    Steps-Signalled (and_then s t r before step) a h =
        Step-Signalled step (Steps-Registered before a) (Steps-Signalled before a h)

subscribed-Registered :
    (u : Str) (r : Registry) → IsValid r → Registered (subscribe u r).1 (subscribe u r).0
subscribed-Registered u r v = record {
  valid = subscribe-IsValid u r v;
  made = unfold subscribe in omega arith;
  member = own;
}
  where
    own :
        contains (subscribe u r).1.ch (members (subscribe u r).1.user_id (subscribe u r).0.waiters)
        ≡ true
    own = ground (arith, subscribed_waiter u r, members-subscribe u u r, str_eq_refl u)

-- A live pull that subscribes, finds no row at its query and waits: whenever there is a row after
-- its cursor, its channel is full or a push of its user is committed and about to notify, for every
-- interleaving with pushes, notifies and the subscriptions, unsubscriptions and receives of others,
-- from a well-formed registry.
pub no_lost_wakeup :
    (u : Str) (since : ℕ) (start at_query later : Server)
    → IsValid start.registry
    → Steps
        (subscribe u start.registry).1
        (record start { registry = (subscribe u start.registry).0 })
        at_query
    → backlog u since at_query.db ≡ []
    → Steps (subscribe u start.registry).1 at_query later
    → backlog u since later.db ≢ []
    → In u later.pending ⊎ (later.registry.signals (subscribe u start.registry).1.ch ≡ true)
unfolding subscribe
no_lost_wakeup u since start at_query later v before empty after row =
    let w = (subscribe u start.registry).1 in
    let a = Steps-Registered w before (subscribed-Registered u start.registry v) in
    elim (Steps-Signalled w since after a (inl empty)) [
      | inl none_left ↦ absurd (row none_left)
      | inr woken ↦ woken
    ]
