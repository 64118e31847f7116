-- ===== src/Prelude/Trim.antt =====
-- What `strings.TrimSpace` leaves starts and ends with no white space.
use mathlib.Core.List.{reverse, reverse_aux, reverse-append, reverse-reverse, append_assoc}
use Prim.Native.Nat.{ℕ, zero, suc, ◌≤◌, ◌+◌}
use mathlib.Core.Path.{◌≡◌, refl, sym, ap, ◌∙◌, subst}
use mathlib.Core.Logic.{inl, inr}
use mathlib.Core.Bool.{false}
use mathlib.Core.List.{[], ◌∷◌, ◌++◌}
use native.Mathlib.Omega.{arith}
use ulsync_server.Prelude.Tests.{◌==◌, Bool-cases}
use ulsync_server.Prelude.Lists.{length, take, drop}
use ulsync_server.Prelude.Text.{Str}
use ulsync_server.Prelude.Space.{
  leading_space, trailing_space, space_of_one, space_of_two, space_of_three, drop_spaces,
  trim_space,
}

take-drop : (n : ℕ) (s : Str) → take n s ++ drop n s ≡ s
take-drop zero s = refl
take-drop (suc n) [] = refl
take-drop (suc n) (a ∷ s) = ap (λ t. a ∷ t) (take-drop n s)

length-drop_le : (n : ℕ) (s : Str) → length (drop n s) ≤ length s
length-drop_le zero s = omega arith
length-drop_le (suc n) [] = omega arith
length-drop_le (suc n) (a ∷ s) = omega (arith, length-drop_le n s)

length-drop_fuel :
    (n fuel : ℕ) (s : Str) → (n == 0) ≡ false → length s ≤ suc fuel → length (drop n s) ≤ fuel
length-drop_fuel zero fuel s h k = absurd (ground arith)
length-drop_fuel (suc n) fuel [] h k = omega arith
length-drop_fuel (suc n) fuel (a ∷ s) h k = omega (arith, length-drop_le n s)

length-reverse_aux : (s t : Str) → length (reverse_aux s t) ≡ length s + length t
length-reverse_aux [] t = omega arith
length-reverse_aux (a ∷ s) t = omega (arith, length-reverse_aux s (a ∷ t))

length-reverse : (s : Str) → length (reverse s) ≡ length s
length-reverse s = omega (arith, length-reverse_aux s [])

module _ (space : Str → ℕ) (at_end : space [] ≡ 0) where
  drop_spaces_ends : (fuel : ℕ) (s : Str) → length s ≤ fuel → space (drop_spaces space fuel s) ≡ 0
  unfolding drop_spaces
  drop_spaces_ends zero [] h = at_end
  drop_spaces_ends zero (a ∷ s) h = absurd (omega arith)
  drop_spaces_ends (suc fuel) s h = elim (Bool-cases (space s == 0)) [
    | inl z ↦ ground (arith, z)
    | inr z ↦
        ground (
          arith,
          z,
          drop_spaces_ends fuel (drop (space s) s) (length-drop_fuel (space s) fuel s z h),
        )
  ]

  drop_spaces_rest : (fuel : ℕ) (s : Str) → (w : Str) × (w ++ drop_spaces space fuel s ≡ s)
  unfolding drop_spaces
  drop_spaces_rest zero s = ([], refl)
  drop_spaces_rest (suc fuel) s =
      let (w, e) = drop_spaces_rest fuel (drop (space s) s) in
      elim (Bool-cases (space s == 0)) [
        | inl z ↦ ([], ground (arith, z))
        | inr z ↦ (
          take (space s) s ++ w,
          let e' : drop_spaces space (suc fuel) s ≡ drop_spaces space fuel (drop (space s) s) =
                ground (arith, z) in
              ap (λ t. (take (space s) s ++ w) ++ t) e'
              ∙ append_assoc (take (space s) s) w _
              ∙ ap (λ t. take (space s) s ++ t) e
              ∙ take-drop (space s) s,
        )
      ]

  drop_spaces_none : (fuel : ℕ) (s : Str) → space s ≡ 0 → drop_spaces space fuel s ≡ s
  unfolding drop_spaces
  drop_spaces_none zero s h = refl
  drop_spaces_none (suc fuel) s h = ground (arith, h)

leading_space_of_prefix : (p w : Str) → leading_space (p ++ w) ≡ 0 → leading_space p ≡ 0
unfolding leading_space space_of_one space_of_two space_of_three
leading_space_of_prefix [] w h = refl
leading_space_of_prefix (a ∷ []) [] h = h
leading_space_of_prefix (a ∷ []) (b ∷ []) h = ground (arith, h)
leading_space_of_prefix (a ∷ []) (b ∷ c ∷ w) h = ground (arith, h)
leading_space_of_prefix (a ∷ b ∷ []) [] h = h
leading_space_of_prefix (a ∷ b ∷ []) (c ∷ w) h = ground (arith, h)
leading_space_of_prefix (a ∷ b ∷ c ∷ p) w h = h

pub trim_space-trim_space : (s : Str) → trim_space (trim_space s) ≡ trim_space s
unfolding trim_space
trim_space-trim_space s =
    let left = drop_spaces leading_space (length s) s in
    let r = drop_spaces trailing_space (length left) (reverse left) in
    let (w, e) = drop_spaces_rest trailing_space refl (length left) (reverse left) in
    let split : left ≡ reverse r ++ reverse w =
      sym (reverse-reverse left) ∙ ap reverse (sym e) ∙ reverse-append w r in
    let start : leading_space left ≡ 0 =
      drop_spaces_ends leading_space refl (length s) s (omega arith) in
    let kept : leading_space (reverse r) ≡ 0 =
      leading_space_of_prefix (reverse r) (reverse w)
        (subst (λ t. leading_space t ≡ 0) split start) in
    let ends : trailing_space r ≡ 0 =
      drop_spaces_ends trailing_space refl (length left) (reverse left)
        (omega (arith, length-reverse left)) in
    rw
      (drop_spaces_none leading_space refl (length (reverse r)) (reverse r) kept, reverse-reverse r)
      (ap reverse (drop_spaces_none trailing_space refl (length (reverse r)) r ends))
