-- ===== src/Base/Text.antt =====
-- Byte strings as lists of numbers: literals, comparison, and the searches of `std::string_view`.
use Prim.Native.Char.{code}
use Prim.Native.String.{String}
use Prim.Native.Nat.{ℕ, ◌+◌}
use mathlib.Core.Path.{◌≡◌, refl}
use mathlib.Core.Logic.{◌↔◌, inl, inr}
use mathlib.Core.Bool.{Bool, true, false, ◌&&◌, ◌||◌}
use mathlib.Core.List.{List, [], ◌∷◌, ◌++◌, map}
use mathlib.Core.Option.{Option, none, some}
use native.Mathlib.Omega.{arith}
use systemd_cron.Base.Lists.{all}
use systemd_cron.Base.Tests.{ltb, leb, ◌==◌, if◌then◌else◌, Option-cases}

abbrev pub Bytes : Type 0
Bytes = List ℕ

-- The code points of a literal: its bytes, since every literal here is ASCII.
abbrev pub codes : String → Bytes
codes String.[] = []
codes (String.◌∷◌ c s) = code c ∷ codes s

unfoldable pub equal : Bytes → Bytes → Bool
equal [] [] = true
equal [] (y ∷ b) = false
equal (x ∷ a) [] = false
equal (x ∷ a) (y ∷ b) = x == y && equal a b

pub equal_iff : (a b : Bytes) → (equal a b ≡ true) ↔ (a ≡ b)
unfolding equal
equal_iff [] [] = ground arith
equal_iff [] (y ∷ b) = ground arith
equal_iff (x ∷ a) [] = ground arith
equal_iff (x ∷ a) (y ∷ b) = ground (arith, equal_iff a b)

pub equal_refl : (a : Bytes) → equal a a ≡ true
equal_refl a = (equal_iff a a).1 refl

-- `operator<` of strings: the first byte that differs decides, and a proper prefix is smaller.
unfoldable pub less : Bytes → Bytes → Bool
less a [] = false
less [] (y ∷ b) = true
less (x ∷ a) (y ∷ b) = if x == y then less a b else ltb x y

-- `s.find(c)` with the two `substr` calls around it: the text before the first `c`, and after it.
unfoldable pub cut : ℕ → Bytes → Option (Bytes × Bytes)
cut c [] = none
cut c (x ∷ s) =
    if x == c then some ([], s) else elim (cut c s) [ none ↦ none | some (a, b) ↦ some (x ∷ a, b) ]

unfoldable pub contains : ℕ → Bytes → Bool
contains c [] = false
contains c (x ∷ s) = x == c || contains c s

unfoldable pub starts_with : Bytes → Bytes → Bool
starts_with [] s = true
starts_with (p ∷ ps) [] = false
starts_with (p ∷ ps) (x ∷ s) = p == x && starts_with ps s

-- `s.find(t) != npos`.
unfoldable pub contains_text : Bytes → Bytes → Bool
unfolding starts_with
contains_text t [] = starts_with t []
contains_text t (x ∷ s) = starts_with t (x ∷ s) || contains_text t s

-- `isspace` and `tolower` in a locale that treats single bytes as ASCII.
abbrev pub is_space : ℕ → Bool
is_space c = c == b' ' || (leb 9 c && leb c 13)

abbrev pub is_digit : ℕ → Bool
is_digit c = leb b'0' c && leb c b'9'

abbrev pub to_lower : ℕ → ℕ
to_lower c = if leb b'A' c && leb c b'Z' then c + 32 else c

abbrev pub lower : Bytes → Bytes
lower = map to_lower

-- `cut` finds the first place, and gives the text around it.
pub cut_sound :
    (c : ℕ) (s : Bytes) {a b : Bytes}
    → cut c s ≡ some (a, b)
    → (s ≡ a ++ c ∷ b) × (contains c a ≡ false)
unfolding cut contains
cut_sound c [] h = cc
cut_sound c (x ∷ s) h = elim (Option-cases (cut c s)) [
  | inl e ↦ ground arith
  | inr ((a, b), e) ↦ let (split, lacks) = cut_sound c s e in ground arith
]

pub cut-none : (c : ℕ) (s : Bytes) → cut c s ≡ none → contains c s ≡ false
unfolding cut contains
cut-none c [] h = refl
cut-none c (x ∷ s) h = ground (arith, cut-none c s)

pub cut-append : (c : ℕ) (a b : Bytes) → contains c a ≡ false → cut c (a ++ c ∷ b) ≡ some (a, b)
unfolding cut contains
cut-append c [] b h = ground arith
cut-append c (x ∷ a) b h = ground (arith, cut-append c a b)

pub cut-eq-none : (c : ℕ) (s : Bytes) → contains c s ≡ false → cut c s ≡ none
unfolding cut contains
cut-eq-none c [] h = refl
cut-eq-none c (x ∷ s) h = ground (arith, cut-eq-none c s)

pub contains-append : (c : ℕ) (a b : Bytes) → contains c (a ++ b) ≡ (contains c a || contains c b)
unfolding contains
contains-append c [] b = refl
contains-append c (x ∷ a) b = ground (arith, contains-append c a b)

-- A text of digits has no other byte.
pub contains_digits :
    (c : ℕ) (s : Bytes) → is_digit c ≡ false → all is_digit s ≡ true → contains c s ≡ false
unfolding contains
contains_digits c [] h d = refl
contains_digits c (x ∷ s) h d = ground (arith, contains_digits c s)
