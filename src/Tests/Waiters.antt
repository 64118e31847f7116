-- ===== src/Tests/Waiters.antt =====
-- The properties of internal/live/registry.go and of the wakeups of internal/httpapi/pull.go at
-- sample registries.
use ulsync_server.Prelude.{
  ◌≡◌, ◌⊎◌, refl, true, some, [], ◌∷◌, codes, arith, str_eq, str_lt, In, if◌then◌else◌,
}
use ulsync_server.Prelude.Int.{pos}
use ulsync_server.Store.Conflict.{where_clause}
use ulsync_server.Store.Envelope.{key_eq}
use ulsync_server.Store.Db.{find_row, next_seq, bump_seq, replace_row, is_row, allocate_seq}
use ulsync_server.Store.Upsert.{upsert_many, upsert_envelope, upsert_one_in_tx, upsert_loop}
use ulsync_server.Store.Since.{backlog, rows_after, order_by_seq}
use ulsync_server.Live.{
  Registry, Waiter, members, contains, new, bucket, put_bucket, delete_bucket, delete_waiter,
  subscribe, unsubscribe, notify, receive, len,
}
use ulsync_server.Live.Laws.{signals-notify}
use ulsync_server.Live.Valid.{
  IsValid, new-IsValid, subscribe-IsValid, start, subscribed, unsubscribed, notified, received,
  Reachable-IsValid,
}
use ulsync_server.HttpApi.Base64.{decode}
use ulsync_server.HttpApi.Push.{
  decoded, push_handler, respond, prepare, wire_to_envelope, to_envelope, validate_wire_envelope,
  bad_name, dup_key,
}
use ulsync_server.HttpApi.Pull.Wakeup.{
  Server, pushing, push_committed, other_subscribed, none_taken, and_then,
}
use ulsync_server.HttpApi.Pull.NoLostWakeup.{no_lost_wakeup}
use ulsync_server.Tests.Data.{ann, bob, no_rows, answering, wire}

program : Unit {0}
unfolding str_eq str_lt key_eq where_clause is_row find_row replace_row next_seq bump_seq
    allocate_seq upsert_envelope upsert_one_in_tx upsert_loop upsert_many backlog decode dup_key
    bad_name validate_wire_envelope to_envelope wire_to_envelope prepare push_handler new bucket
    put_bucket delete_bucket delete_waiter subscribe unsubscribe notify receive len pushing respond
    order_by_seq rows_after
program = tt

abbrev two_users : Registry
two_users = (subscribe bob (subscribe ann new).0).0

abbrev ann_waits : Waiter
ann_waits = record { user_id = ann; ch = 0 }

two_users-IsValid : IsValid two_users
two_users-IsValid =
    subscribe-IsValid bob (subscribe ann new).0 (subscribe-IsValid ann new new-IsValid)

left_alone : len (unsubscribe (some ann_waits) two_users) ≡ 1
unfolding program
left_alone = refl

signals-notify_example :
    (notify ann two_users).signals 0
    ≡ (if contains 0 (members ann two_users.waiters) then true else two_users.signals 0)
signals-notify_example = signals-notify ann two_users 0

Reachable-IsValid_example :
    IsValid (receive ann_waits (notify ann (unsubscribe (some ann_waits) two_users)))
Reachable-IsValid_example = Reachable-IsValid (
    received ann_waits
      (notified ann (unsubscribed (some ann_waits) (subscribed bob (subscribed ann start)))))

abbrev quiet : Server
quiet = record { db = no_rows; registry = new; pending = [] }

abbrev asking : Server
asking = record quiet { registry = (subscribe ann new).0 }

abbrev asked : Server
asked = record asking { registry = (subscribe bob (subscribe ann new).0).0 }

abbrev pushed : Server
pushed =
    pushing ann
      (push_handler answering (pos 500) ann (pos 99) (decoded (wire (codes "a") 10 ∷ [])) no_rows)
      asked

no_lost_wakeup_example :
    In ann pushed.pending ⊎ (pushed.registry.signals (subscribe ann new).1.ch ≡ true)
unfolding program
no_lost_wakeup_example =
    no_lost_wakeup ann 0 quiet asked pushed new-IsValid
      (and_then asking asking asked (none_taken asking) (other_subscribed asking bob)) refl
      (and_then asked asked pushed (none_taken asked) (
        push_committed asked answering (pos 500) ann (pos 99) (decoded (wire (codes "a") 10 ∷ []))))
      (λ h. ground arith)
