-- ===== src/Live.antt =====
-- internal/live/registry.go: the waiters of live pulls and their wakeup signals. A pointer to a
-- waiter is its number; the mutex makes each operation one step.
pub mod Buckets
pub mod Laws
pub mod Valid
use ulsync_server.Prelude.{
  ℕ, ◌+◌, Bool, true, false, not, Option, none, some, List, [], ◌∷◌, Str, str_eq, ◌==◌, length, any,
  if◌then◌else◌,
}

-- The buckets of `waiters`: a Go map from user to set.
abbrev pub Buckets : Type 0
Buckets = List (Str × List ℕ)

-- `Waiter`; its channel is a signal of the registry below.
pub record Waiter : Type 0 where
  pub user_id : Str
  pub ch : ℕ

-- `Registry`, with the channels that were made: `signals c` says that channel `c`, of capacity 1,
-- is full. `made` counts them.
pub record Registry : Type 0 where
  pub waiters : Buckets
  pub signals : ℕ → Bool
  pub made : ℕ

-- `r.waiters[userID]`
unfoldable pub bucket : Str → Buckets → Option (List ℕ)
bucket user_id [] = none
bucket user_id ((u, set) ∷ rest) = if str_eq u user_id then some set else bucket user_id rest

-- `r.waiters[userID] = set`
unfoldable pub put_bucket : Str → List ℕ → Buckets → Buckets
put_bucket user_id set [] = (user_id, set) ∷ []
put_bucket user_id set ((u, old) ∷ rest) =
    if str_eq u user_id then (u, set) ∷ rest else (u, old) ∷ put_bucket user_id set rest

-- `delete(r.waiters, userID)`
unfoldable pub delete_bucket : Str → Buckets → Buckets
delete_bucket user_id [] = []
delete_bucket user_id ((u, set) ∷ rest) =
    if str_eq u user_id then rest else (u, set) ∷ delete_bucket user_id rest

-- `delete(set, w)`
unfoldable pub delete_waiter : ℕ → List ℕ → List ℕ
delete_waiter c [] = []
delete_waiter c (d ∷ set) = if d == c then set else d ∷ delete_waiter c set

unfoldable pub set_signal : ℕ → Bool → (ℕ → Bool) → ℕ → Bool
set_signal c b signals d = if d == c then b else signals d

-- `New`
unfoldable pub new : Registry
new = record { waiters = []; signals = λ c. false; made = 0 }

-- The set that `Subscribe` adds to: the user's, or an empty one.
abbrev pub members : Str → Buckets → List ℕ
members user_id buckets = elim (bucket user_id buckets) [ none ↦ [] | some set ↦ set ]

-- `Subscribe`
unfoldable pub subscribe : Str → Registry → Registry × Waiter
unfolding put_bucket set_signal
subscribe user_id r = (
  record {
    waiters = put_bucket user_id (r.made ∷ members user_id r.waiters) r.waiters;
    signals = set_signal r.made false r.signals;
    made = r.made + 1;
  },
  record { user_id = user_id; ch = r.made },
)

-- The user's bucket without the waiter; an empty bucket is deleted.
unfoldable pub shrink : Str → List ℕ → Buckets → Buckets
shrink user_id [] buckets = delete_bucket user_id buckets
shrink user_id (c ∷ set) buckets = put_bucket user_id (c ∷ set) buckets

-- `Unsubscribe`; `none` is nil.
unfoldable pub unsubscribe : Option Waiter → Registry → Registry
unfolding shrink delete_waiter
unsubscribe none r = r
unsubscribe (some w) r = elim (bucket w.user_id r.waiters) [
  | none ↦ r
  | some set ↦ record r { waiters = shrink w.user_id (delete_waiter w.ch set) r.waiters }
]

abbrev pub contains : ℕ → List ℕ → Bool
contains c set = any (λ d. d == c) set

-- The sends of `Notify`: each channel of the bucket is full afterwards.
unfoldable pub signal_all : List ℕ → (ℕ → Bool) → ℕ → Bool
signal_all set signals c = if contains c set then true else signals c

-- `Notify`
unfoldable pub notify : Str → Registry → Registry
unfolding signal_all
notify user_id r = record r { signals = signal_all (members user_id r.waiters) r.signals }

-- A receive from the channel of a waiter: it empties the channel.
unfoldable pub receive : Waiter → Registry → Registry
unfolding set_signal
receive w r = record r { signals = set_signal w.ch false r.signals }

-- `Len`
unfoldable pub count_waiters : Buckets → ℕ
count_waiters [] = 0
count_waiters ((u, set) ∷ rest) = length set + count_waiters rest

unfoldable pub len : Registry → ℕ
unfolding count_waiters
len r = count_waiters r.waiters
