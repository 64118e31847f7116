-- ===== src/HttpApi/Pull/Wakeup.antt =====
-- The order of internal/httpapi/pull.go: it subscribes before it queries, and internal/httpapi/push.go
-- notifies after it commits. Other requests run between any two of these steps.
use ulsync_server.Prelude.{
  ℕ, ◌≡◌, refl, sym, ◌∙◌, ◌≢◌, subst, ◌<◌, ◌⊎◌, inl, inr, true, some, List, [], ◌∷◌, ◌++◌, Str,
  str_eq, str_eq_iff, arith, In, any, Bool-cases, if◌then◌else◌,
}
use ulsync_server.Prelude.Int.{ℤ}
use ulsync_server.Store.Db.{Db, Driver}
use ulsync_server.Store.Since.{backlog}
use ulsync_server.Store.Upsert.Spec.{apply_all}
use ulsync_server.Store.Upsert.Quiet.{backlog-apply_all, backlog-unapplied}
use ulsync_server.Live.{
  Registry, Waiter, members, contains, subscribe, unsubscribe, notify, receive,
}
use ulsync_server.Live.Laws.{signals-notify}
use ulsync_server.Live.Valid.{IsValid}
use ulsync_server.HttpApi.Push.{WireEnvelope, Decoded, Pushed, push_handler, refused}
use ulsync_server.HttpApi.Push.Outcome.{Outcome, accepted, push_handler-Outcome}

-- The tables, the registry, and the users whose pushes are committed and have not called `Notify`
-- yet.
pub record Server : Type 0 where
  pub db : Db
  pub registry : Registry
  pub pending : List Str

-- The server after a push up to its commit.
unfoldable pub pushing : Str → Pushed → Server → Server
pushing u p s = record s { db = p.db; pending = if p.notified then u ∷ s.pending else s.pending }

-- What others do while the waiter `w` is registered: they push, notify after a push, subscribe,
-- unsubscribe and receive, each with their own waiter.
pub data Step (w : Waiter) : Server → Server → Type 0 where
  push_committed :
      (s : Server) (d : Driver) (max : ℤ) (u : Str) (now : ℤ) (request : Decoded WireEnvelope)
      → Step w s (pushing u (push_handler d max u now request s.db) s)
  push_notified :
      (s : Server) (before after : List Str) (u : Str)
      → s.pending ≡ before ++ u ∷ after
      → Step w s (record s { registry = notify u s.registry; pending = before ++ after })
  other_subscribed :
      (s : Server) (u : Str) → Step w s (record s { registry = (subscribe u s.registry).0 })
  other_unsubscribed :
      (s : Server) (x : Waiter)
      → x.ch ≢ w.ch
      → Step w s (record s { registry = unsubscribe (some x) s.registry })
  other_received :
      (s : Server) (x : Waiter)
      → x.ch ≢ w.ch
      → Step w s (record s { registry = receive x s.registry })

pub data Steps (w : Waiter) : Server → Server → Type 0 where
  none_taken : (s : Server) → Steps w s s
  and_then : (s t r : Server) → Steps w s t → Step w t r → Steps w s r

-- A push leaves a user's backlog as it was, or it is the user's and will notify.
backlog-push_handler :
    (d : Driver) (max : ℤ) (u v : Str) (now : ℤ) (request : Decoded WireEnvelope) (since : ℕ)
    (db : Db)
    → let p = push_handler d max u now request db in
      (backlog v since p.db ≡ backlog v since db) ⊎ ((u ≡ v) × (p.notified ≡ true))
unfolding accepted refused
backlog-push_handler d max u v now request since db =
    go (push_handler d max u now request db) (push_handler-Outcome d max u now request db)
  where
    go :
        (p : Pushed)
        → Outcome u now request db p
        → (backlog v since p.db ≡ backlog v since db) ⊎ ((u ≡ v) × (p.notified ≡ true))
    go p (inr (status, body, e, h)) = inl (rw (e, refused) refl)
    go p (inl (ws, es, e, f, c, done)) = elim (Bool-cases (str_eq u v)) [
      | inr other ↦ inl (rw (done, accepted) (backlog-apply_all u v other since es db))
      | inl same ↦ elim (Bool-cases (any (λ a. a) (apply_all u es db).1)) [
        | inl applied ↦ inr ((str_eq_iff u v).0 same, rw (done, accepted) applied)
        | inr silent ↦ inl (rw (done, accepted) (backlog-unapplied u v since es db silent))
      ]
    ]

In-append-left : (x : Str) (xs ys : List Str) → In x xs → In x (xs ++ ys)
In-append-left x [] ys m = elim m [ ]
In-append-left x (y ∷ xs) ys (inl e) = inl e
In-append-left x (y ∷ xs) ys (inr m) = inr (In-append-left x xs ys m)

In-append-right : (x : Str) (xs ys : List Str) → In x ys → In x (xs ++ ys)
In-append-right x [] ys m = m
In-append-right x (y ∷ xs) ys m = inr (In-append-right x xs ys m)

-- A notify takes one user from the list.
In-removed :
    (x u : Str) (before after : List Str)
    → In x (before ++ u ∷ after)
    → (x ≡ u) ⊎ In x (before ++ after)
In-removed x u [] after (inl e) = inl e
In-removed x u [] after (inr m) = inr m
In-removed x u (b ∷ before) after (inl e) = inr (inl e)
In-removed x u (b ∷ before) after (inr m) = elim (In-removed x u before after m) [
  | inl e ↦ inl e
  | inr m' ↦ inr (inr m')
]

-- If there is a row after the cursor then the waiter's channel is full or a push of its user is about
-- to notify.
abbrev pub Signalled : Waiter → ℕ → Server → Type 0
Signalled w since s =
    (backlog w.user_id since s.db ≡ [])
    ⊎ (In w.user_id s.pending ⊎ (s.registry.signals w.ch ≡ true))

pub record Registered (w : Waiter) (r : Registry) : Type 0 where
  pub valid : IsValid r
  pub made : w.ch < r.made
  pub member : contains w.ch (members w.user_id r.waiters) ≡ true

module _ (w : Waiter) (since : ℕ) where
  pushing-Signalled :
      (u : Str) (p : Pushed) (s : Server)
      → (backlog w.user_id since p.db ≡ backlog w.user_id since s.db)
        ⊎ ((u ≡ w.user_id) × (p.notified ≡ true))
      → Signalled w since s
      → Signalled w since (pushing u p s)
  unfolding pushing
  pushing-Signalled u p s (inl same) (inl empty) = inl (same ∙ empty)
  pushing-Signalled u p s (inr (own, notifies)) (inl empty) =
      inr (inl (simp notifies (inl (sym own))))
  pushing-Signalled u p s e (inr (inr full)) = inr (inr full)
  pushing-Signalled u p s e (inr (inl m)) = elim (Bool-cases p.notified) [
    | inl notifies ↦ inr (inl (simp notifies (inr m)))
    | inr silent ↦ inr (inl (simp silent m))
  ]

  pub push_committed-Signalled :
      (s : Server) (d : Driver) (max : ℤ) (u : Str) (now : ℤ) (request : Decoded WireEnvelope)
      → Signalled w since s
      → Signalled w since (pushing u (push_handler d max u now request s.db) s)
  push_committed-Signalled s d max u now request =
      pushing-Signalled u (push_handler d max u now request s.db) s
        (backlog-push_handler d max u w.user_id now request since s.db)

  pub push_notified-Signalled :
      (s : Server) (before after : List Str) (u : Str)
      → s.pending ≡ before ++ u ∷ after
      → Registered w s.registry
      → Signalled w since s
      → Signalled w since (record s { registry = notify u s.registry; pending = before ++ after })
  push_notified-Signalled s before after u e a = go
    where
      full : s.registry.signals w.ch ≡ true → (notify u s.registry).signals w.ch ≡ true
      full h = ground (arith, h, signals-notify u s.registry w.ch)

      own : w.user_id ≡ u → (notify u s.registry).signals w.ch ≡ true
      own same = ground (arith, same, a.member, signals-notify u s.registry w.ch)

      go :
          Signalled w since s
          → Signalled w since
              (record s { registry = notify u s.registry; pending = before ++ after })
      go (inl empty) = inl empty
      go (inr (inr h)) = inr (inr (full h))
      go (inr (inl m)) = elim (In-removed w.user_id u before after (subst (In w.user_id) e m)) [
        | inl same ↦ inr (inr (own same))
        | inr m' ↦ inr (inl m')
      ]

  -- A step that touches the registry alone and does not empty the waiter's channel.
  pub registry-Signalled :
      (s : Server) (r : Registry)
      → (s.registry.signals w.ch ≡ true → r.signals w.ch ≡ true)
      → Signalled w since s
      → Signalled w since (record s { registry = r })
  registry-Signalled s r f (inl empty) = inl empty
  registry-Signalled s r f (inr (inl m)) = inr (inl m)
  registry-Signalled s r f (inr (inr full)) = inr (inr (f full))
