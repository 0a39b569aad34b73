-- ===== src/Base/Decimal.antt =====
-- Decimal digits, as `printf("%zu")` writes them.
use systemd_cron.Base.{
  ℕ, zero, suc, ◌+◌, ◌-◌, ◌*◌, ◌/◌, ◌%◌, ◌<◌, ◌≡◌, refl, [], ◌∷◌, ◌++◌, true, false, arith, ltb,
  Bytes, is_digit, all, all-append, ◌≢◌,
}
use mathlib.Core.List.{concat-ne-nil}

-- A number below the fuel has fewer digits than that.
digits : ℕ → ℕ → Bytes
digits zero n = []
digits (suc f) n = elim (ltb n 10) [
  | true ↦ (b'0' + n) ∷ []
  | false ↦ digits f (n / 10) ++ (b'0' + n % 10) ∷ []
]

unfoldable pub decimal : ℕ → Bytes
unfolding digits
decimal n = digits (suc n) n

-- The number that digits spell behind `n`, with no bound.
abbrev pub value : ℕ → Bytes → ℕ
value n [] = n
value n (c ∷ s) = value (n * 10 + (c - b'0')) s

value-append : (a b : Bytes) (n : ℕ) → value n (a ++ b) ≡ value (value n a) b
value-append [] b n = refl
value-append (c ∷ a) b n = value-append a b (n * 10 + (c - b'0'))

value-digits : (f n : ℕ) → n < f → value 0 (digits f n) ≡ n
unfolding digits
value-digits zero n h = absurd (omega arith)
value-digits (suc f) n h =
    ground
      (arith, value-append (digits f (n / 10)) ((b'0' + n % 10) ∷ []) 0, value-digits f (n / 10))

pub value-decimal : (n : ℕ) → value 0 (decimal n) ≡ n
unfolding decimal
value-decimal n = value-digits (suc n) n (omega arith)

all-digits : (f n : ℕ) → all is_digit (digits f n) ≡ true
unfolding digits
all-digits zero n = refl
all-digits (suc f) n =
    ground
      (arith, all-digits f (n / 10), all-append is_digit (digits f (n / 10)) ((b'0' + n % 10) ∷ []))

pub all-decimal : (n : ℕ) → all is_digit (decimal n) ≡ true
unfolding decimal
all-decimal n = all-digits (suc n) n

pub decimal-ne-nil : (n : ℕ) → decimal n ≢ []
unfolding decimal
decimal-ne-nil n = ground (arith, concat-ne-nil ((b'0' + n % 10)) (digits n (n / 10)))

-- Two numbers with the same digits are equal.
pub decimal_injective : (m n : ℕ) → decimal m ≡ decimal n → m ≡ n
decimal_injective m n e = cc (value-decimal m, value-decimal n)
