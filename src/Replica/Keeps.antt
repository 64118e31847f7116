-- ===== src/Replica/Keeps.antt =====
-- What the copy of a client holds after a page.
use ulsync_server.Prelude.{
  ◌≡◌, ◌≢◌, refl, sym, ap, ◌∙◌, ◌⊎◌, inl, inr, Option, some, List, [], ◌∷◌, arith, map, In,
  Bool-cases,
}
use ulsync_server.Store.Envelope.{Envelope, Key, key_eq, key_eq_iff, key_of}
use ulsync_server.HttpApi.Page.{PullEnvelope, to_pull_envelope}
use ulsync_server.Replica.{put, keep_rows}

module _ (k : Key) where
  put_other :
      (e : Envelope) (copy : Key → Option PullEnvelope)
      → key_of e ≢ k
      → put (to_pull_envelope e) copy k ≡ copy k
  unfolding put to_pull_envelope
  put_other e copy d = ground (arith, key_eq_iff (key_of e) k)

  put_here :
      (e : Envelope) (copy : Key → Option PullEnvelope)
      → key_of e ≡ k
      → put (to_pull_envelope e) copy k ≡ some (to_pull_envelope e)
  unfolding put to_pull_envelope
  put_here e copy p = ground (arith, key_eq_iff (key_of e) k)

  -- A page without the key leaves what is held at it.
  pub keep_rows_other :
      (es : List Envelope) (copy : Key → Option PullEnvelope)
      → ((e : Envelope) → In e es → key_of e ≢ k)
      → keep_rows (map to_pull_envelope es) copy k ≡ copy k
  unfolding keep_rows
  keep_rows_other [] copy h = refl
  keep_rows_other (e ∷ es) copy h =
      keep_rows_other es (put (to_pull_envelope e) copy) (λ x m. h x (inr m))
      ∙ put_other e copy (h e (inl refl))

  -- If every envelope of a page with the key is the same one, it is held after the page that has it.
  pub keep_rows_one :
      (es : List Envelope) (copy : Key → Option PullEnvelope) (x : Envelope)
      → key_of x ≡ k
      → ((e : Envelope) → In e es → key_of e ≡ k → e ≡ x)
      → (In x es ⊎ (copy k ≡ some (to_pull_envelope x)))
      → keep_rows (map to_pull_envelope es) copy k ≡ some (to_pull_envelope x)
  unfolding keep_rows
  keep_rows_one [] copy x own same (inl m) = elim m [ ]
  keep_rows_one [] copy x own same (inr held) = held
  keep_rows_one (e ∷ es) copy x own same there =
      keep_rows_one es (put (to_pull_envelope e) copy) x own (λ y m. same y (inr m))
        (elim (Bool-cases (key_eq (key_of e) k)) [
          | inl hit ↦
              let here : key_of e ≡ k = (key_eq_iff (key_of e) k).0 hit in
              inr (
                put_here e copy here ∙ ap (λ y. some (to_pull_envelope y)) (same e (inl refl) here))
          | inr miss ↦
              let d : key_of e ≢ k = λ p. ground (arith, miss, key_eq_iff (key_of e) k) in
              elim there [
                | inr held ↦ inr (put_other e copy d ∙ held)
                | inl m ↦ elim m [
                  | inl p ↦ absurd (d (sym (ap key_of p) ∙ own))
                  | inr later ↦ inl later
                ]
              ]
        ])
