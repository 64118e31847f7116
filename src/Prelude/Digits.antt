-- ===== src/Prelude/Digits.antt =====
-- Decimal digits, as `strconv` reads them.
use Prim.Native.Nat.{ℕ, ◌+◌, ◌-◌, ◌*◌}
use mathlib.Core.Bool.{Bool, true, ◌&&◌}
use mathlib.Core.List.{[], ◌∷◌}
use ulsync_server.Prelude.Tests.{leb}
use ulsync_server.Prelude.Text.{Str}

unfoldable pub all_digits : Str → Bool
all_digits [] = true
all_digits (c ∷ s) = leb b'0' c && leb c b'9' && all_digits s

-- The number that digits denote, after the digits read so far.
unfoldable pub digits_value : ℕ → Str → ℕ
digits_value n [] = n
digits_value n (c ∷ s) = digits_value (n * 10 + (c - b'0')) s
