-- ===== src/Prelude/Space.antt =====
-- `strings.TrimSpace`
use mathlib.Core.List.{reverse}
use Prim.Native.Nat.{ℕ, zero, suc}
use mathlib.Core.Bool.{Bool, ◌&&◌, ◌||◌}
use mathlib.Core.List.{[], ◌∷◌}
use ulsync_server.Prelude.Tests.{leb, ◌==◌, if◌then◌else◌}
use ulsync_server.Prelude.Lists.{length, drop}
use ulsync_server.Prelude.Text.{Str}

-- The white space of one, two and three bytes that `strings.TrimSpace` removes.
unfoldable pub space_of_one : ℕ → Bool
space_of_one a = a == 32 || leb 9 a && leb a 13

unfoldable pub space_of_two : ℕ → ℕ → Bool
space_of_two a b = a == 194 && (b == 133 || b == 160)

unfoldable pub space_of_three : ℕ → ℕ → ℕ → Bool
space_of_three a b c =
    a == 225 && b == 154 && c == 128
    || a == 226 && b == 128 && (leb 128 c && leb c 138 || c == 168 || c == 169 || c == 175)
    || a == 226 && b == 129 && c == 159
    || a == 227 && b == 128 && c == 128

-- The bytes of the white space that a string starts with, and that a reversed string ends with.
unfoldable pub leading_space : Str → ℕ
unfolding space_of_one space_of_two space_of_three
leading_space [] = 0
leading_space (a ∷ []) = if space_of_one a then 1 else 0
leading_space (a ∷ b ∷ []) = if space_of_one a then 1 else if space_of_two a b then 2 else 0
leading_space (a ∷ b ∷ c ∷ s) =
    if space_of_one a
    then 1
    else if space_of_two a b
    then 2
    else if space_of_three a b c
    then 3
    else 0

unfoldable pub trailing_space : Str → ℕ
unfolding space_of_one space_of_two space_of_three
trailing_space [] = 0
trailing_space (c ∷ []) = if space_of_one c then 1 else 0
trailing_space (c ∷ b ∷ []) = if space_of_one c then 1 else if space_of_two b c then 2 else 0
trailing_space (c ∷ b ∷ a ∷ s) =
    if space_of_one c
    then 1
    else if space_of_two b c
    then 2
    else if space_of_three a b c
    then 3
    else 0

-- Characters of white space are dropped one by one; the length of the string is enough fuel.
unfoldable pub drop_spaces : (Str → ℕ) → ℕ → Str → Str
drop_spaces space zero s = s
drop_spaces space (suc fuel) s =
    let rest = drop_spaces space fuel (drop (space s) s) in if space s == 0 then s else rest

-- `strings.TrimSpace`
unfoldable pub trim_space : Str → Str
unfolding drop_spaces leading_space trailing_space
trim_space s =
    let left = drop_spaces leading_space (length s) s in
    reverse (drop_spaces trailing_space (length left) (reverse left))
