-- ===== src/Vore/Uint.antt =====
-- `parse_uint<10>` and `MAYBE_DUPA` of src/include/libvoreutils.hpp, with `strtoull` of the C
-- library in base 10: blanks, a sign, digits.
use mathlib.Core.List.{cons-ne-nil}
use systemd_cron.Base.{
  ℕ, ◌-◌, ◌%◌, ◌^◌, ◌<◌, ◌≡◌, ◌≢◌, inl, inr, refl, sym, ◌∙◌, [], ◌∷◌, Bool, true, false, not, ◌&&◌,
  arith, ltb, leb, ◌==◌, if◌then◌else◌, Bytes, codes, is_space, is_digit, all, take_while,
  drop_while, take_while-all, drop_while-all, all_of_drop_while, Bool-cases,
}
use systemd_cron.Base.Decimal.{value, decimal, value-decimal, all-decimal, decimal-ne-nil}

-- The range of `std::size_t` and `unsigned long long`.
abbrev pub u64_mod : ℕ
u64_mod = 2 ^ 64

-- What a C function that is handed `MAYBE_DUPA(s)` sees of `s`.
unfoldable pub c_string : Bytes → Bytes
c_string = take_while (λ c. not (c == 0))

pub record Conversion : Type 0 where
  pub result : ℕ
  pub end : Bytes
  pub range_error : Bool

-- Is there a minus sign, and what follows the sign?
abbrev sign : Bytes → Bool × Bytes
sign [] = (false, [])
sign (c ∷ s) = if c == b'-' then (true, s) else if c == b'+' then (false, s) else (false, c ∷ s)

abbrev is_nil : Bytes → Bool
is_nil [] = true
is_nil (c ∷ s) = false

convert : Bool → Bytes → Bytes → Conversion
convert negative whole s =
    let ds = take_while is_digit s in
    let n = value 0 ds in
    if is_nil ds
    then record { result = 0; end = whole; range_error = false }
    else if leb u64_mod n
    then record { result = u64_mod - 1; end = drop_while is_digit s; range_error = true }
    else record {
      result = if negative then (u64_mod - n) % u64_mod else n;
      end = drop_while is_digit s;
      range_error = false;
    }

unfoldable pub strtoull : Bytes → Conversion
unfolding convert
strtoull s = let (negative, rest) = sign (drop_while is_space s) in convert negative s rest

-- The new value of `out`, and the result.
unfoldable pub parse_uint : Bytes → ℕ → ℕ × Bool
parse_uint [] out = (out, false)
parse_uint (c ∷ s) out =
    let r = strtoull (c ∷ s) in
    if c == b'-' then (out, false) else (r.result, not r.range_error && is_nil r.end)

-- What an accepted text is made of, behind its blanks and its sign.
pub record IsUint (s : Bytes) (n : ℕ) : Type 0 where
  pub digits : Bytes
  pub negative : Bool
  pub signed : sign (drop_while is_space s) ≡ (negative, digits)
  pub digits_only : all is_digit digits ≡ true
  pub some_digit : digits ≢ []
  pub fits : value 0 digits < u64_mod
  pub exact : n ≡ (if negative then (u64_mod - value 0 digits) % u64_mod else value 0 digits)

parse_uint_run : parse_uint (codes " +0042") 7 ≡ (42, true)
unfolding parse_uint strtoull
parse_uint_run = refl

parse_uint_junk : parse_uint (codes "5x") 7 ≡ (5, false)
unfolding parse_uint strtoull
parse_uint_junk = refl

is_nil-eq-nil : (s : Bytes) → is_nil s ≡ true → s ≡ []
is_nil-eq-nil [] h = refl
is_nil-eq-nil (c ∷ s) h = cc

convert-digits :
    (negative : Bool) (whole ds : Bytes)
    → all is_digit ds ≡ true
    → ds ≢ []
    → convert negative whole ds ≡ (
        if leb u64_mod (value 0 ds)
        then record { result = u64_mod - 1; end = []; range_error = true }
        else record {
          result = if negative then (u64_mod - value 0 ds) % u64_mod else value 0 ds;
          end = [];
          range_error = false;
        })
unfolding convert
convert-digits negative whole [] h ne = absurd (ne refl)
convert-digits negative whole (c ∷ s) h ne =
    rw (take_while-all is_digit (c ∷ s) h, drop_while-all is_digit (c ∷ s) h) (ground arith)

-- A digit is no blank and no sign.
strtoull-digits : (s : Bytes) → all is_digit s ≡ true → s ≢ [] → strtoull s ≡ convert false s s
unfolding strtoull
strtoull-digits [] h ne = absurd (ne refl)
strtoull-digits (c ∷ s) h ne = ground arith

-- Every digit string that fits is read exactly, and one that does not fit is refused.
pub parse_uint-digits :
    (s : Bytes) (out : ℕ)
    → all is_digit s ≡ true
    → s ≢ []
    → parse_uint s out
      ≡ (if ltb (value 0 s) u64_mod then (value 0 s, true) else (u64_mod - 1, false))
unfolding parse_uint
parse_uint-digits [] out h ne = absurd (ne refl)
parse_uint-digits (c ∷ s) out h ne =
    rw (strtoull-digits (c ∷ s) h ne, convert-digits false (c ∷ s) (c ∷ s) h ne) (ground arith)

convert-IsUint :
    (negative : Bool) (whole ds : Bytes)
    → ((convert negative whole ds).range_error ≡ false)
    → (convert negative whole ds).end ≡ []
    → whole ≢ []
    → (all is_digit ds ≡ true)
      × (ds ≢ [])
      × (value 0 ds < u64_mod)
      × ((convert negative whole ds).result
          ≡ (if negative then (u64_mod - value 0 ds) % u64_mod else value 0 ds))
unfolding convert
convert-IsUint negative whole [] fits ended ne = absurd (ne ended)
convert-IsUint negative whole (c ∷ s) fits ended ne = elim (Bool-cases (is_digit c)) [
  | inl e ↦
      let gone : drop_while is_digit (c ∷ s) ≡ [] = ground arith in
      let only = all_of_drop_while is_digit (c ∷ s) gone in
      let kept = take_while-all is_digit (c ∷ s) only in ground (arith)
  | inr e ↦ absurd (ne (ground arith))
]

parse_uint_inversion :
    (c : ℕ) (s : Bytes) (out : ℕ) {n : ℕ}
    → parse_uint (c ∷ s) out ≡ (n, true)
    → ((strtoull (c ∷ s)).range_error ≡ false)
      × (is_nil (strtoull (c ∷ s)).end ≡ true)
      × ((strtoull (c ∷ s)).result ≡ n)
unfolding parse_uint
parse_uint_inversion c s out h = ground arith

strtoull-IsUint :
    (s : Bytes) {n : ℕ}
    → s ≢ []
    → (strtoull s).range_error ≡ false
    → is_nil (strtoull s).end ≡ true
    → (strtoull s).result ≡ n
    → IsUint s n
unfolding strtoull
strtoull-IsUint s ne fits ended e =
    let body = sign (drop_while is_space s) in
    let (only, some_digit, small, exact) =
      convert-IsUint body.0 s body.1 fits (is_nil-eq-nil _ ended) ne in
    record {
      digits = body.1;
      negative = body.0;
      signed = refl;
      digits_only = only;
      some_digit = some_digit;
      fits = small;
      exact = sym e ∙ exact;
    }

-- An accepted text is blanks, a sign and digits whose value fits; the result is that value, or
-- its negative modulo 2 ^ 64.
pub parse_uint_sound : (s : Bytes) (out : ℕ) {n : ℕ} → parse_uint s out ≡ (n, true) → IsUint s n
parse_uint_sound [] out h = unfold parse_uint in cc
parse_uint_sound (c ∷ s) out h =
    let (fits, ended, exact) = parse_uint_inversion c s out h in
    strtoull-IsUint (c ∷ s) (cons-ne-nil c s) fits ended exact

-- A printed number is read back.
pub parse_uint-decimal : (n out : ℕ) → n < u64_mod → parse_uint (decimal n) out ≡ (n, true)
parse_uint-decimal n out h =
    rw (parse_uint-digits (decimal n) out (all-decimal n) (decimal-ne-nil n), value-decimal n)
      (ground arith)
