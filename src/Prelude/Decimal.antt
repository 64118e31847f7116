-- ===== src/Prelude/Decimal.antt =====
-- Decimal numbers, as the `fmt` package writes them, read back.
use ulsync_server.Prelude.{
  all_digits, digits_value, ℕ, zero, suc, ◌+◌, ◌-◌, ◌*◌, ◌/◌, ◌%◌, ◌^◌, ◌<◌, ◌≡◌, ◌≢◌, true, [],
  ◌∷◌, ◌++◌, Str, arith, ltb, if◌then◌else◌,
}

all_digits-snoc :
    (s : Str) (d : ℕ) → all_digits s ≡ true → d < 10 → all_digits (s ++ (b'0' + d) ∷ []) ≡ true
unfolding all_digits
all_digits-snoc [] d h k = ground arith
all_digits-snoc (c ∷ s) d h k = ground (arith, all_digits-snoc s d)

digits_value-snoc :
    (n : ℕ) (s : Str) (d : ℕ) → digits_value n (s ++ (b'0' + d) ∷ []) ≡ digits_value n s * 10 + d
unfolding digits_value
digits_value-snoc n [] d = omega arith
digits_value-snoc n (c ∷ s) d = digits_value-snoc (n * 10 + (c - b'0')) s d

snoc_ne : (s : Str) (c : ℕ) → (s ++ c ∷ []) ≢ []
snoc_ne [] c = λ h. ground arith
snoc_ne (d ∷ s) c = λ h. ground arith

-- The decimal digits of a number with at most as many digits as the fuel, plus one.
unfoldable pub decimal : ℕ → ℕ → Str
decimal zero n = (b'0' + n % 10) ∷ []
decimal (suc fuel) n =
    let rest = decimal fuel (n / 10) in
    if ltb n 10 then (b'0' + n) ∷ [] else rest ++ (b'0' + n % 10) ∷ []

pub all_digits-decimal : (fuel n : ℕ) → all_digits (decimal fuel n) ≡ true
unfolding decimal all_digits
all_digits-decimal zero n = ground arith
all_digits-decimal (suc fuel) n =
    ground
      (arith, all_digits-snoc (decimal fuel (n / 10)) (n % 10) (all_digits-decimal fuel (n / 10)))

pub digits_value-decimal : (fuel n : ℕ) → n < 10 * 10 ^ fuel → digits_value 0 (decimal fuel n) ≡ n
unfolding decimal digits_value
digits_value-decimal zero n h = omega arith
digits_value-decimal (suc fuel) n h = ground (
  arith,
  digits_value-snoc 0 (decimal fuel (n / 10)) (n % 10),
  digits_value-decimal fuel (n / 10) (omega arith),
)

pub decimal_ne : (fuel n : ℕ) → decimal fuel n ≢ []
unfolding decimal
decimal_ne zero n = λ h. ground arith
decimal_ne (suc fuel) n = λ h. ground (arith, snoc_ne (decimal fuel (n / 10)) (b'0' + n % 10))
