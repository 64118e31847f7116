-- ===== src/Metrics/Writer.antt =====
-- The `statusWriter` of internal/metrics/metrics.go over the writer of net/http, which sends the first
-- status that it is given, and 200 with the first byte or flush that comes without one.
use ulsync_server.Prelude.{
  ℕ, ◌≡◌, refl, Bool, true, false, not, Option, none, some, List, [], ◌∷◌, arith, if◌then◌else◌,
}

-- `sent` is the status that the writer underneath has sent.
pub record StatusWriter : Type 0 where
  pub status : ℕ
  pub wrote : Bool
  pub sent : Option ℕ

pub data WriterCall : Type 0 where
  write_header : ℕ → WriterCall
  write flush : WriterCall

-- In `Wrap`
abbrev pub new_status_writer : StatusWriter
new_status_writer = record { status = 200; wrote = false; sent = none }

-- `ResponseWriter.WriteHeader`, of a status of 200 or more.
unfoldable pub first_sent : ℕ → Option ℕ → Option ℕ
first_sent code none = some code
first_sent code (some old) = some old

-- `WriteHeader`, `Write` and `Flush`
unfoldable pub status_call : WriterCall → StatusWriter → StatusWriter
unfolding first_sent
status_call (write_header code) sw = record {
  status = code;
  wrote = true;
  sent = first_sent code sw.sent;
}
status_call write sw = record sw {
  wrote = if not sw.wrote then true else sw.wrote;
  sent = first_sent 200 sw.sent;
}
status_call flush sw = record sw { sent = first_sent 200 sw.sent }

-- The calls of a handler.
unfoldable pub status_calls : List WriterCall → StatusWriter → StatusWriter
unfolding status_call
status_calls [] sw = sw
status_calls (c ∷ calls) sw = status_calls calls (status_call c sw)

-- The status of the response: 200 if the handler returns without one.
unfoldable pub response_status : StatusWriter → ℕ
response_status sw = elim sw.sent [ none ↦ 200 | some code ↦ code ]

abbrev pub NoHeader : List WriterCall → Type 0
NoHeader [] = Unit
NoHeader (write_header code ∷ calls) = ⊥
NoHeader (write ∷ calls) = NoHeader calls
NoHeader (flush ∷ calls) = NoHeader calls

-- Once the status is sent, calls without a header keep what is recorded and what is sent.
body_calls :
    (calls : List WriterCall) (sw : StatusWriter)
    → NoHeader calls
    → sw.sent ≡ some sw.status
    → response_status (status_calls calls sw) ≡ (status_calls calls sw).status
unfolding status_calls first_sent response_status
body_calls [] sw h e = rw e refl
body_calls (write_header code ∷ calls) sw h e = elim h [ ]
body_calls (write ∷ calls) sw h e = body_calls calls (status_call write sw) h (ground arith)
body_calls (flush ∷ calls) sw h e = body_calls calls (status_call flush sw) h (ground arith)

no_header :
    (calls : List WriterCall)
    → NoHeader calls
    → response_status (status_calls calls new_status_writer)
      ≡ (status_calls calls new_status_writer).status
unfolding status_calls first_sent response_status
no_header [] h = refl
no_header (write_header code ∷ calls) h = elim h [ ]
no_header (write ∷ calls) h = body_calls calls (status_call write new_status_writer) h refl
no_header (flush ∷ calls) h = body_calls calls (status_call flush new_status_writer) h refl

-- The recorded status is the one that the client gets, if the handler sends at most one status and
-- sends it first.
pub recorded_status :
    (calls : List WriterCall)
    → NoHeader calls
    → (code : ℕ)
    → (response_status (status_calls (write_header code ∷ calls) new_status_writer)
        ≡ (status_calls (write_header code ∷ calls) new_status_writer).status)
      × (response_status (status_calls calls new_status_writer)
          ≡ (status_calls calls new_status_writer).status)
unfolding status_calls first_sent response_status
recorded_status calls h code =
    (body_calls calls (status_call (write_header code) new_status_writer) h refl, no_header calls h)
