-- ===== src/HttpApi/Push/Outcome.antt =====
-- What a push of internal/httpapi/push.go answers and stores.
use ulsync_server.Prelude.{
  ℕ, ◌+◌, ◌≤◌, ◌≡◌, ◌↔◌, ◌⊎◌, refl, false, List, [], ◌∷◌, Str, str_eq, arith, ok, Result-cases,
  length, any, inl, inr, Bool-cases,
}
use ulsync_server.Prelude.Int.{ℤ, pos, ltb_ℤ, ◌≤ℤ◌}
use ulsync_server.Store.Envelope.{Envelope}
use ulsync_server.Store.Db.{Db, Driver, next_seq, max_int64}
use ulsync_server.Store.Upsert.{upsert_many}
use ulsync_server.Store.Upsert.Spec.{apply_all}
use ulsync_server.Store.Upsert.Outcome.{Answers, upsert_many-atomic, upsert_many-Answers}
use ulsync_server.HttpApi.Push.{
  WireEnvelope, Decoded, too_large, malformed, decoded, PushBody, Pushed, push_response,
  storage_unavailable, body_too_large, invalid_json, no_envelopes, too_many_envelopes,
  wire_to_envelope, dup_key, prepare, results_of, refused, respond, store_batch, push_handler,
}

-- Each envelope is the conversion of its wire form.
abbrev pub Copies : List WireEnvelope → List Envelope → Type 0
Copies [] [] = Unit
Copies (w ∷ ws) (e ∷ es) = (wire_to_envelope w ≡ ok e) × Copies ws es
Copies _ _ = ⊥

-- No key joined from id and part comes twice.
abbrev pub Fresh : List Str → List WireEnvelope → Type 0
Fresh seen [] = Unit
Fresh seen (w ∷ ws) = (any (str_eq (dup_key w)) seen ≡ false) × Fresh (dup_key w ∷ seen) ws

prepare-ok :
    (seen : List Str) (ws : List WireEnvelope) (es : List Envelope)
    → prepare seen ws ≡ ok es
    → Fresh seen ws × Copies ws es
unfolding prepare
prepare-ok seen [] [] h = (tt, tt)
prepare-ok seen [] (e ∷ es) h = absurd (ground arith)
prepare-ok seen (w ∷ ws) es h = elim (Bool-cases (any (str_eq (dup_key w)) seen)) [
  | inl dup ↦ absurd (ground arith)
  | inr new ↦ elim (Result-cases (wire_to_envelope w)) [
    | inr (f, bad) ↦ absurd (ground arith)
    | inl (e, good) ↦ elim (Result-cases (prepare (dup_key w ∷ seen) ws)) [
      | inr (b, bad) ↦ absurd (ground arith)
      | inl (rest, done) ↦
          finish es (ground arith) new good (prepare-ok (dup_key w ∷ seen) ws rest done)
    ]
  ]
]
  where
    finish :
        (fs : List Envelope) {e : Envelope} {rest : List Envelope}
        → e ∷ rest ≡ fs
        → any (str_eq (dup_key w)) seen ≡ false
        → wire_to_envelope w ≡ ok e
        → Fresh (dup_key w ∷ seen) ws × Copies ws rest
        → Fresh seen (w ∷ ws) × Copies (w ∷ ws) fs
    finish fs p new good done = rw (← p) ((new, done.0), (good, done.1))

prepare-of_Copies :
    (seen : List Str) (ws : List WireEnvelope) (es : List Envelope)
    → Fresh seen ws
    → Copies ws es
    → prepare seen ws ≡ ok es
unfolding prepare
prepare-of_Copies seen [] [] f c = refl
prepare-of_Copies seen [] (e ∷ es) f c = elim c [ ]
prepare-of_Copies seen (w ∷ ws) [] f c = elim c [ ]
prepare-of_Copies seen (w ∷ ws) (e ∷ es) f c =
    ground (arith, f.0, c.0, prepare-of_Copies (dup_key w ∷ seen) ws es f.1 c.1)

-- A batch passes exactly if its joined keys are distinct and each envelope converts.
pub prepare_iff :
    (ws : List WireEnvelope) (es : List Envelope)
    → (prepare [] ws ≡ ok es) ↔ (Fresh [] ws × Copies ws es)
prepare_iff ws es = (prepare-ok [] ws es, λ (f, c). prepare-of_Copies [] ws es f c)

-- A push that was applied: the tables, the wakeup and the response.
unfoldable pub accepted : Str → ℤ → List Envelope → Db → Pushed
accepted u now es db = record {
  db = (apply_all u es db).0;
  notified = any (λ a. a) (apply_all u es db).1;
  response = record {
    status = 200;
    body = push_response (results_of es (apply_all u es db).1) now;
  };
}

-- Either the whole batch is stored under the user and answered, or nothing is.
abbrev pub Outcome : Str → ℤ → Decoded WireEnvelope → Db → Pushed → Type 0
Outcome u now request db p =
    ((ws : List WireEnvelope) × (es : List Envelope) × (request ≡ decoded ws)
      × Fresh [] ws
      × Copies ws es
      × (p ≡ accepted u now es db))
    ⊎ ((status : ℕ) × (body : PushBody) × (p ≡ refused db status body) × (400 ≤ status))

module _ (d : Driver) (u : Str) (now : ℤ) (db : Db) where
  respond-Outcome :
      (ws : List WireEnvelope) (es : List Envelope)
      → Fresh [] ws × Copies ws es
      → Outcome u now (decoded ws) db (respond now es (upsert_many d u es db))
  unfolding respond accepted
  respond-Outcome ws es c = elim (upsert_many-atomic d u es db) [
    | inl done ↦ inl (ws, es, refl, c.0, c.1, rw done refl)
    | inr (x, bad) ↦ inr (503, storage_unavailable, rw bad refl, omega arith)
  ]

  store_batch-Outcome :
      (ws : List WireEnvelope)
      → Outcome u now (decoded ws) db (store_batch d u now db (prepare [] ws))
  unfolding store_batch
  store_batch-Outcome ws = elim (Result-cases (prepare [] ws)) [
    | inr (body, bad) ↦ inr (400, body, rw bad refl, omega arith)
    | inl (es, good) ↦ rw (good, store_batch) (respond-Outcome ws es (prepare-ok [] ws es good))
  ]

-- Every push either stores its whole batch under the user, as last-write-wins says, and answers 200
-- with a result for each envelope and a wakeup exactly if one was applied; or it answers an error
-- status, leaves the tables as they were and wakes nobody.
pub push_handler-Outcome :
    (d : Driver) (max : ℤ) (u : Str) (now : ℤ) (request : Decoded WireEnvelope) (db : Db)
    → Outcome u now request db (push_handler d max u now request db)
unfolding push_handler
push_handler-Outcome d max u now too_large db = inr (413, body_too_large, refl, omega arith)
push_handler-Outcome d max u now malformed db = inr (400, invalid_json, refl, omega arith)
push_handler-Outcome d max u now (decoded []) db = inr (400, no_envelopes, refl, omega arith)
push_handler-Outcome d max u now (decoded (w ∷ ws)) db =
    elim (Bool-cases (ltb_ℤ max (pos (length (w ∷ ws))))) [
      | inl over ↦ inr (413, too_many_envelopes max, rw over refl, omega arith)
      | inr fits ↦ rw fits (store_batch-Outcome d u now db (w ∷ ws))
    ]

length-Copies : (ws : List WireEnvelope) (es : List Envelope) → Copies ws es → length es ≡ length ws
length-Copies [] [] c = refl
length-Copies [] (e ∷ es) c = elim c [ ]
length-Copies (w ∷ ws) [] c = elim c [ ]
length-Copies (w ∷ ws) (e ∷ es) c = omega (arith, length-Copies ws es c.1)

-- A batch that is not empty and is within the limit, whose envelopes convert under distinct joined
-- keys, is stored and answered 200, if the driver carries out every statement and the counter of
-- the user has room.
pub push_handler-accepted :
    (d : Driver) (max : ℤ) (u : Str) (now : ℤ) (w : WireEnvelope) (ws : List WireEnvelope)
    (e : Envelope) (es : List Envelope) (db : Db)
    → Answers d
    → pos (length (w ∷ ws)) ≤ℤ max
    → Fresh [] (w ∷ ws)
    → Copies (w ∷ ws) (e ∷ es)
    → next_seq u db.users + length (w ∷ ws) ≤ max_int64
    → push_handler d max u now (decoded (w ∷ ws)) db ≡ accepted u now (e ∷ es) db
unfolding push_handler accepted respond
push_handler-accepted d max u now w ws e es db a fits fresh copies room =
    let within : ltb_ℤ max (pos (length (w ∷ ws))) ≡ false = ground arith in
    let same : next_seq u db.users + length (e ∷ es) ≤ max_int64 =
      omega (arith, length-Copies (w ∷ ws) (e ∷ es) copies) in
    rw
      (
        within,
        prepare-of_Copies [] (w ∷ ws) (e ∷ es) fresh copies,
        store_batch,
        upsert_many-Answers d u e es db a same,
      )
      refl
