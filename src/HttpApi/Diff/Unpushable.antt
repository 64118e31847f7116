-- ===== src/HttpApi/Diff/Unpushable.antt =====
-- The ranks that internal/httpapi/diff.go takes and internal/httpapi/push.go does not.
use ulsync_server.Prelude.{
  ◌≡◌, ◌⊎◌, refl, true, false, none, some, List, [], ◌∷◌, Str, arith, err, inl, inr, Result-cases,
}
use ulsync_server.Prelude.Int.{ℤ, pos, ltb_ℤ, ◌≤ℤ◌, ◌<ℤ◌}
use ulsync_server.Store.Envelope.{Key}
use ulsync_server.Store.Db.{Db, Driver, find_row}
use ulsync_server.HttpApi.Push.{
  WireEnvelope, Field, decoded, wire_to_envelope, prepare, refused, store_batch, push_handler,
  invalid_envelope,
}
use ulsync_server.HttpApi.Push.Fields.{wire_to_envelope_iff}
use ulsync_server.HttpApi.Diff.{DiffItem, StaleEntry, diff_handler}
use ulsync_server.HttpApi.Diff.Items.{first_item}
use ulsync_server.HttpApi.Diff.Report.{reports, replied, beats, diff_reports}

-- Ranks that no envelope of a push may have.
abbrev pub Unpushable : ℤ → ℤ → Type 0
Unpushable last_edited_at_ms revision = (last_edited_at_ms ≤ℤ pos 0) ⊎ (revision <ℤ pos 1)

not_converted :
    (w : WireEnvelope)
    → Unpushable w.last_edited_at_ms w.revision
    → (f : Field) × (wire_to_envelope w ≡ err f)
not_converted w bad = elim (Result-cases (wire_to_envelope w)) [
  | inr refusal ↦ refusal
  | inl (e, good) ↦
      let (wf, bytes) = (wire_to_envelope_iff w e).0 good in
      let edited = wf.last_edited_at_ms in let revised = wf.revision in absurd (ground arith)
]

push_refused :
    (f : Driver) (max : ℤ) (u : Str) (now : ℤ) (w : WireEnvelope) (db : Db)
    → Unpushable w.last_edited_at_ms w.revision
    → pos 1 ≤ℤ max
    → (field : Field) × (push_handler f max u now (decoded (w ∷ [])) db
        ≡ refused db 400 (invalid_envelope field))
unfolding push_handler store_batch prepare
push_refused f max u now w db bad fits =
    let (field, failed) = not_converted w bad in
    let within : ltb_ℤ max (pos 1) ≡ false = ground arith in (field, rw (within, failed) refl)

-- A successful diff names a key without a row although the first item of that key has ranks that no
-- push may have, a last edit of 0 or less or a revision below 1: every push of one envelope with
-- such ranks is answered 400 as invalid and leaves the tables, if the batch limit is at least 1.
pub named_but_refused :
    (d f : Driver) (u : Str) (now max now' : ℤ) (items : List DiffItem) (db : Db)
    (missing : List Key) (stale : List StaleEntry) (k : Key) (item : DiffItem) (w : WireEnvelope)
    → diff_handler d u now (decoded items) db ≡ replied missing stale now
    → first_item k items ≡ some item
    → find_row u k db.envelopes ≡ none
    → Unpushable item.last_edited_at_ms item.revision
    → w.last_edited_at_ms ≡ item.last_edited_at_ms
    → w.revision ≡ item.revision
    → pos 1 ≤ℤ max
    → (reports k (missing, stale) ≡ true)
      × ((field : Field) × (push_handler f max u now' (decoded (w ∷ [])) db
            ≡ refused db 400 (invalid_envelope field)))
unfolding beats
named_but_refused d f u now max now' items db missing stale k item w answer first absent bad edited
      revised fits =
    (
      ground (arith, diff_reports d u now items db missing stale answer k, first, absent),
      push_refused f max u now' w db (rw (edited, revised) bad) fits,
    )
