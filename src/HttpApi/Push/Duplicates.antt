-- ===== src/HttpApi/Push/Duplicates.antt =====
-- The key by which internal/httpapi/push.go finds duplicates in a batch.
use ulsync_server.Prelude.{
  ◌≤◌, ◌≡◌, ◌≢◌, ◌↔◌, refl, sym, ap, true, false, [], ◌∷◌, ◌++◌, Str, str_eq, str_eq_iff, arith, ok,
  length, length-append, All,
}
use ulsync_server.Prelude.Int.{ℤ, pos, ltb_ℤ, ◌≤ℤ◌}
use ulsync_server.Store.Envelope.{Envelope}
use ulsync_server.Store.Db.{Db, Driver}
use ulsync_server.HttpApi.Push.{
  WireEnvelope, decoded, duplicate_envelope_key, wire_to_envelope, dup_key, prepare, refused,
  push_handler,
}

abbrev pub NoNul : Str → Type 0
NoNul = All (λ c. 1 ≤ c)

join-injective : (s t a b : Str) → NoNul s → NoNul t → s ++ 0 ∷ a ≡ t ++ 0 ∷ b → (s ≡ t) × (a ≡ b)
join-injective [] [] a b p q h = ground arith
join-injective [] (y ∷ t) a b p q h = absurd (ground (arith, q.0))
join-injective (x ∷ s) [] a b p q h = absurd (ground (arith, p.0))
join-injective (x ∷ s) (y ∷ t) a b p q h = ground (arith, join-injective s t a b p.1 q.1)

-- Among ids without a NUL byte the joined keys of two envelopes are equal exactly if id and part
-- are.
pub dup_key_iff :
    (v w : WireEnvelope)
    → NoNul v.id
    → NoNul w.id
    → (dup_key v ≡ dup_key w) ↔ ((v.id ≡ w.id) × (v.part ≡ w.part))
unfolding dup_key
dup_key_iff v w p q = (join-injective v.id w.id v.part w.part p q, λ (e, f) i. e i ++ 0 ∷ f i)

append_nul : (x y z : Str) → x ++ 0 ∷ (y ++ 0 ∷ z) ≡ (x ++ 0 ∷ y) ++ 0 ∷ z
append_nul [] y z = refl
append_nul (a ∷ x) y z = ap (◌∷◌ a) (append_nul x y z)

longer : (x y : Str) → x ≢ x ++ 0 ∷ y
longer x y = λ h. absurd (omega (arith, length-append {0} x (0 ∷ y), ap length h))

-- With a NUL byte in an id, a push of two valid envelopes of different ids is refused as a
-- duplicate.
pub nul_collision :
    (d : Driver) (max : ℤ) (u : Str) (now : ℤ) (w : WireEnvelope) (x y z : Str) (e : Envelope)
    (db : Db)
    → pos 2 ≤ℤ max
    → wire_to_envelope (record w { id = x; part = y ++ 0 ∷ z }) ≡ ok e
    → let first = record w { id = x; part = y ++ 0 ∷ z } in
      let second = record w { id = x ++ 0 ∷ y; part = z } in
      (first.id ≢ second.id)
      × (push_handler d max u now (decoded (first ∷ second ∷ [])) db
          ≡ refused db 400 duplicate_envelope_key)
unfolding push_handler prepare dup_key
nul_collision d max u now w x y z e db fits good =
    let same : str_eq ((x ++ 0 ∷ y) ++ 0 ∷ z) (x ++ 0 ∷ (y ++ 0 ∷ z)) ≡ true =
      (str_eq_iff _ _).1 (sym (append_nul x y z)) in
    let within : ltb_ℤ max (pos 2) ≡ false = ground arith in
    (longer x y, rw (within, good, same) refl)
