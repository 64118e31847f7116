-- ===== src/HttpApi/Diff/Report.antt =====
-- What internal/httpapi/diff.go reports is what a push of internal/httpapi/push.go would apply.
use mathlib.Core.Option
use ulsync_server.Prelude.{
  ◌+◌, ◌≤◌, ◌≡◌, refl, sym, ap, subst, All, All-map, Bool, true, false, ◌&&◌, ◌||◌, Option, none,
  some, List, [], ◌∷◌, Str, arith, ok, any, inl, inr, Bool-cases, Result-cases, length, ltb,
}
use ulsync_server.Prelude.Int.{ℤ, pos, ◌≤ℤ◌}
use ulsync_server.Store.Conflict.{Ranks, wins}
use ulsync_server.Store.Envelope.{Envelope, Key, key_eq, key_eq_iff, key_of, ranks_of}
use ulsync_server.Store.Db.{Db, Driver, find_row, next_seq, max_int64}
use ulsync_server.Store.KeyMap.{lookup}
use ulsync_server.Store.Ranks.{stored_ranks}
use ulsync_server.Store.Ranks.Answers.{asked, lookup-stored_ranks}
use ulsync_server.Store.Upsert.Spec.{apply_one, apply_all, accepts}
use ulsync_server.Store.Upsert.Lww.{accepts-apply_one}
use ulsync_server.Store.Upsert.Outcome.{Answers}
use ulsync_server.HttpApi.Push.{
  WireEnvelope, decoded, Response, push_response, wire_to_envelope, results_of, push_handler,
}
use ulsync_server.HttpApi.Push.Outcome.{accepted, push_handler-accepted}
use ulsync_server.HttpApi.Diff.{
  DiffItem, StaleEntry, DiffBody, diff_response, max_diff_items, item_ranks, validate_diff_items,
  incoming_at, compare_key, compare_keys, diff_validated, diff_handler,
}
use ulsync_server.HttpApi.Diff.Items.{first_item, validate_diff_items-first}

-- Does the response name the key?
unfoldable pub reports : Key → List Key × List StaleEntry → Bool
reports key (missing, stale) = asked key missing || any (λ e. key_eq e.key key) stale

-- Would an incoming copy replace what the server has?
unfoldable pub beats : DiffItem → Option Ranks → Bool
beats item none = true
beats item (some server) = wins (item_ranks item) server

reports-compare_key :
    (k key : Key) (item : DiffItem) (o : Option Ranks) (r : List Key × List StaleEntry)
    → reports k (compare_key key item o r) ≡ (key_eq key k && beats item o || reports k r)
unfolding reports compare_key beats
reports-compare_key k key item none r = ground arith
reports-compare_key k key item (some server) r = ground arith

reports-compare_keys :
    (k : Key) (order : List Key) (incoming : List (Key × DiffItem)) (stored : List (Key × Ranks))
    → reports k (compare_keys order incoming stored)
      ≡ (asked k order && beats (incoming_at k incoming) (lookup k stored))
unfolding compare_keys
reports-compare_keys k [] incoming stored = unfold reports in refl
reports-compare_keys k (key ∷ order) incoming stored = ground (
  arith,
  reports-compare_key k key (incoming_at key incoming) (lookup key stored)
      (compare_keys order incoming stored),
  reports-compare_keys k order incoming stored,
  key_eq_iff key k,
)

abbrev FromMap : List (Key × Ranks) → StaleEntry → Type 0
FromMap stored s = lookup s.key stored ≡ some s.ranks

stale-FromMap :
    (order : List Key) (incoming : List (Key × DiffItem)) (stored : List (Key × Ranks))
    → All (FromMap stored) (compare_keys order incoming stored).1
unfolding compare_keys
stale-FromMap [] incoming stored = tt
stale-FromMap (key ∷ order) incoming stored =
    one (incoming_at key incoming) (lookup key stored) refl (compare_keys order incoming stored)
      (stale-FromMap order incoming stored)
  where
    one :
        (item : DiffItem) (o : Option Ranks)
        → lookup key stored ≡ o
        → (r : List Key × List StaleEntry) → All (FromMap stored) r.1
        → All (FromMap stored) (compare_key key item o r).1
    one item none p r h = h
    one item (some server) p r h = elim (Bool-cases (wins (item_ranks item) server)) [
      | inl won ↦ rw won (p, h)
      | inr lost ↦ rw lost h
    ]

-- What a successful response comes from.
pub record Answered (d : Driver) (u : Str) (now : ℤ) (items : List DiffItem) (db : Db)
    (missing : List Key) (stale : List StaleEntry) : Type 0 where
  pub order : List Key
  pub incoming : List (Key × DiffItem)
  pub stored : List (Key × Ranks)
  pub validated : validate_diff_items [] [] [] items ≡ ok (order, incoming)
  pub read : stored_ranks d u order db ≡ ok stored
  pub compared : (missing, stale) ≡ compare_keys order incoming stored

abbrev pub replied : List Key → List StaleEntry → ℤ → Response DiffBody
replied missing stale now = record { status = 200; body = diff_response missing stale now }

-- A handler that answers 200 went through the whole request.
diff_handler-validated :
    (d : Driver) (u : Str) (now : ℤ) (items : List DiffItem) (db : Db) {missing : List Key}
    {stale : List StaleEntry}
    → diff_handler d u now (decoded items) db ≡ replied missing stale now
    → diff_validated d u now db (validate_diff_items [] [] [] items) ≡ replied missing stale now
unfolding diff_handler
diff_handler-validated d u now [] db h = absurd (ground arith)
diff_handler-validated d u now (i ∷ is) db h =
    elim (Bool-cases (ltb max_diff_items (length (i ∷ is)))) [
      | inl over ↦ absurd (ground arith)
      | inr fits ↦ ground arith
    ]

module _ (d : Driver) (u : Str) (now : ℤ) (items : List DiffItem) (db : Db) (missing : List Key)
    (stale : List StaleEntry) where
  diff_validated-Answered :
      diff_validated d u now db (validate_diff_items [] [] [] items) ≡ replied missing stale now
      → Answered d u now items db missing stale
  unfolding diff_validated
  diff_validated-Answered h = elim (Result-cases (validate_diff_items [] [] [] items)) [
    | inr (f, bad) ↦ absurd (ground arith)
    | inl ((order, incoming), good) ↦ elim (Result-cases (stored_ranks d u order db)) [
      | inr (e, bad) ↦ absurd (ground arith)
      | inl (stored, read) ↦ record {
        order = order;
        incoming = incoming;
        stored = stored;
        validated = good;
        read = read;
        compared = ground arith;
      }
    ]
  ]

  module _ (h : diff_handler d u now (decoded items) db ≡ replied missing stale now) where
    answer : Answered d u now items db missing stale
    answer = diff_validated-Answered (diff_handler-validated d u now items db h)

    -- A successful diff names exactly those keys of the request that have no row for the user or
    -- whose first item beats the stored ranks.
    pub diff_reports :
        (k : Key)
        → reports k (missing, stale) ≡ (elim (first_item k items) [
          | none ↦ false
          | some item ↦ beats item (Option.map ranks_of (find_row u k db.envelopes))
        ])
    unfolding incoming_at
    diff_reports k =
        let a = answer in
        ground (
          arith,
          ap (reports k) a.compared,
          reports-compare_keys k a.order a.incoming a.stored,
          validate_diff_items-first items a.order a.incoming a.validated k,
          lookup-stored_ranks d u a.order db a.read k,
        )

    -- A key of a successful diff is named exactly if a write of an envelope with the ranks of the
    -- first item of that key is applied.
    reports-apply_one :
        (item : DiffItem) (e : Envelope)
        → first_item (key_of e) items ≡ some item
        → ranks_of e ≡ item_ranks item
        → reports (key_of e) (missing, stale) ≡ (apply_one u e db).1
    unfolding beats accepts
    reports-apply_one item e first same =
        ground (arith, diff_reports (key_of e), accepts-apply_one u e db, same)

    -- A key of a successful diff is named, as missing or stale, exactly if a push over the same
    -- tables, of one envelope with the ranks of the first item of that key, is applied: the push is
    -- answered 200, and the flag of its result and its wakeup say so. The envelope passes the
    -- checks of a push, the driver carries out every statement, the batch limit is at least 1, and
    -- the counter of the user has room.
    pub diff_predicts_push :
        (f : Driver) (max now' : ℤ) (item : DiffItem) (w : WireEnvelope) (e : Envelope)
        → first_item (key_of e) items ≡ some item
        → ranks_of e ≡ item_ranks item
        → wire_to_envelope w ≡ ok e
        → Answers f
        → pos 1 ≤ℤ max
        → next_seq u db.users + 1 ≤ max_int64
        → let pushed = push_handler f max u now' (decoded (w ∷ [])) db in
          let named = reports (key_of e) (missing, stale) in
          (pushed.notified ≡ named)
          × (pushed.response ≡ record {
            status = 200;
            body = push_response (record { id = e.id; part = e.part; applied = named } ∷ []) now';
          })
    unfolding accepted apply_all results_of
    diff_predicts_push f max now' item w e first same converts answers fits room =
        let pushed =
          push_handler-accepted f max u now' w [] e [] db answers fits (refl, tt) (converts, tt)
            room in
        let named = reports-apply_one item e first same in rw (pushed, named) (ground arith, refl)

    -- Each stale entry of a successful diff carries the ranks of the stored row of its key.
    pub diff_stale_ranks :
        All (λ s. Option.map ranks_of (find_row u s.key db.envelopes) ≡ some s.ranks) stale
    diff_stale_ranks =
        let a = answer in
        subst (All Stored) (sym (ap (λ (p : List Key × List StaleEntry). p.1) a.compared)) (
          All-map (FromMap a.stored) Stored
            (λ s found. ground (arith, found, lookup-stored_ranks d u a.order db a.read s.key))
            (compare_keys a.order a.incoming a.stored).1
            (stale-FromMap a.order a.incoming a.stored))
      where
        Stored : StaleEntry → Type 0
        Stored s = Option.map ranks_of (find_row u s.key db.envelopes) ≡ some s.ranks
