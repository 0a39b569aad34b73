-- ===== src/Generator/Field/Numbers.antt =====
-- The mappings on printed numbers, and the tables as functions of the index.
use systemd_cron.Base.{
  ℕ, zero, suc, ◌+◌, ◌-◌, ◌<◌, ◌≡◌, ◌∙◌, refl, ap, [], ◌∷◌, Bool, true, false, not, some, arith,
  Bytes, all, is_digit, length, get_elem?, take_while-all, ◌==◌,
}
use systemd_cron.Base.Decimal.{decimal, all-decimal}
use systemd_cron.Generator.Field.{Mapping, int_map, month_map, count_from}
use systemd_cron.Vore.Uint.{u64_mod, c_string, parse_uint-decimal}

-- A mapping that reads printed numbers as they are.
abbrev pub IsNumeric : Mapping → Type 0
IsNumeric mapping = (n : ℕ) (to : Bool) → n < u64_mod → mapping (decimal n) false to ≡ (n, false)

digits_are_text : (s : Bytes) → all is_digit s ≡ true → all (λ c. not (c == 0)) s ≡ true
digits_are_text [] h = refl
digits_are_text (c ∷ s) h = ground (arith, digits_are_text s)

c_string-decimal : (n : ℕ) → c_string (decimal n) ≡ decimal n
unfolding c_string
c_string-decimal n = take_while-all _ (decimal n) (digits_are_text (decimal n) (all-decimal n))

pub int_map-IsNumeric : IsNumeric int_map
unfolding int_map
int_map-IsNumeric n to h = rw (c_string-decimal n, parse_uint-decimal n (u64_mod - 1) h)

pub month_map-IsNumeric : IsNumeric month_map
unfolding month_map
month_map-IsNumeric n to h = rw (int_map-IsNumeric n to h)

pub length-count_from : (lo n : ℕ) → length (count_from lo n) ≡ n
length-count_from lo zero = refl
length-count_from lo (suc n) = ap suc (length-count_from (suc lo) n)

pub get_elem?-count_from : (lo n i : ℕ) → i < n → get_elem? (count_from lo n) i ≡ some (lo + i)
get_elem?-count_from lo zero i h = elim h [ ]
get_elem?-count_from lo (suc n) zero h = ap some (omega arith)
get_elem?-count_from lo (suc n) (suc i) h =
    get_elem?-count_from (suc lo) n i (omega arith) ∙ ap some (omega arith)
