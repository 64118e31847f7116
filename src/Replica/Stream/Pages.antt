-- ===== src/Replica/Stream/Pages.antt =====
-- What a client of a stream holds after the frames of a page, also if a write fails among them.
use ulsync_server.Prelude.{
  ℕ, suc, ◌+◌, ◌≡◌, refl, sym, ap, subst, ◌∙◌, ◌⊎◌, inl, inr, Bool, true, false, List, [], ◌∷◌,
  ◌++◌, Str, map, take, Bool-cases,
}
use ulsync_server.Prelude.Int.{ℤ}
use ulsync_server.Store.Envelope.{Envelope}
use ulsync_server.Store.Db.{Db}
use ulsync_server.Store.Since.{backlog, next_cursor}
use ulsync_server.HttpApi.Page.{to_pull_envelope}
use ulsync_server.HttpApi.Sse.{Frame, envelope, cursor, ping, write_frames, page_frames}
use ulsync_server.Replica.{Client, keep_rows}
use ulsync_server.Replica.Tracks.{Tracks, part-Tracks}
use ulsync_server.Replica.Pulls.{kept}
use ulsync_server.Replica.Stream.{take_frames}

-- The frames of rows.
abbrev pub row_frames : List Envelope → List Frame
row_frames rows = map (λ env. envelope (to_pull_envelope env)) rows

pub take_frames-append :
    (fs gs : List Frame) (c : Client) → take_frames (fs ++ gs) c ≡ take_frames gs (take_frames fs c)
unfolding take_frames
take_frames-append [] gs c = refl
take_frames-append (envelope p ∷ fs) gs c = take_frames-append fs gs _
take_frames-append (cursor next now ∷ fs) gs c = take_frames-append fs gs _
take_frames-append (ping ∷ fs) gs c = take_frames-append fs gs c

take_frames-rows :
    (rows : List Envelope) (c : Client)
    → take_frames (row_frames rows) c
      ≡ record c { copy = keep_rows (map to_pull_envelope rows) c.copy }
unfolding take_frames keep_rows
take_frames-rows [] c = refl
take_frames-rows (e ∷ rows) c = take_frames-rows rows _

-- All is written, or some first rows of the page.
Written : List Envelope → List Frame → List Frame × Bool → Type 0
Written rows page written =
    (written ≡ (page, true)) ⊎ ((j : ℕ) × (written ≡ (row_frames (take j rows), false)))

write_frames-Written :
    (writes : ℕ → Bool) (n : ℕ) (now : ℤ) (rows : List Envelope) (next : ℕ)
    → Written rows (page_frames now rows next) (write_frames writes n (page_frames now rows next))
unfolding write_frames page_frames Written
write_frames-Written writes n now [] next = elim (Bool-cases (writes n)) [
  | inl on ↦ inl (rw on refl)
  | inr off ↦ inr (0, rw off refl)
]
write_frames-Written writes n now (e ∷ rows) next = elim (Bool-cases (writes n)) [
  | inr off ↦ inr (0, rw off refl)
  | inl on ↦ elim (write_frames-Written writes (n + 1) now rows next) [
    | inl all ↦ inl (rw (on, all) refl)
    | inr (j, some_rows) ↦ inr (suc j, rw (on, some_rows) refl)
  ]
]

-- How a page ends: its rows and its cursor are there, or some of its rows.
abbrev pub PageEnds : Str → ℕ → Db → Client → List Frame × Bool → Type 0
PageEnds u limit db c written =
    ((written.1 ≡ true) × (take_frames written.0 c ≡ kept u limit db c))
    ⊎ ((written.1 ≡ false) × Tracks u db (take_frames written.0 c))

take_frames-page :
    (u : Str) (limit : ℕ) (now : ℤ) (db : Db) (c : Client)
    → let rows = take limit (backlog u c.cursor db) in
      take_frames (page_frames now rows (next_cursor c.cursor rows)) c ≡ kept u limit db c
unfolding page_frames kept
take_frames-page u limit now db c =
    let rows = take limit (backlog u c.cursor db) in
    take_frames-append (row_frames rows) (cursor (next_cursor c.cursor rows) now ∷ []) c
    ∙ ap (λ x. take_frames (cursor (next_cursor c.cursor rows) now ∷ []) x)
        (take_frames-rows rows c)
    ∙ (unfold take_frames in refl)

pub write_frames-PageEnds :
    (writes : ℕ → Bool) (n : ℕ) (u : Str) (limit : ℕ) (now : ℤ) (db : Db) (c : Client)
    → Tracks u db c
    → let rows = take limit (backlog u c.cursor db) in
      PageEnds u limit db c
        (write_frames writes n (page_frames now rows (next_cursor c.cursor rows)))
unfolding Written
write_frames-PageEnds writes n u limit now db c t =
    let rows = take limit (backlog u c.cursor db) in
    let fs = page_frames now rows (next_cursor c.cursor rows) in
    elim (write_frames-Written writes n now rows (next_cursor c.cursor rows)) [
      | inl all ↦
          subst (PageEnds u limit db c) (sym all) (inl (refl, take_frames-page u limit now db c))
      | inr (j, some_rows) ↦ subst (PageEnds u limit db c) (sym some_rows) (
          inr (
            refl,
            subst (Tracks u db) (sym (take_frames-rows (take j rows) c))
                (part-Tracks u db c limit t j),
          ))
    ]
