-- ===== src/Vore/Tests.antt =====
-- The theorems of the tokeniser and of the number parser at concrete inputs.
use systemd_cron.Base.{◌≡◌, refl, true, false, codes, arith, ◌-◌, if◌then◌else◌, ltb}
use systemd_cron.Base.Decimal.{decimal, value}
use systemd_cron.Vore.Tokenise.{texts, soft_tokenise, parts_of, texts-soft_tokenise}
use systemd_cron.Vore.Uint.{
  u64_mod, parse_uint, strtoull, IsUint, parse_uint-digits, parse_uint_sound, parse_uint-decimal,
}

texts-soft_tokenise_example :
    texts (soft_tokenise (codes ",0,,3,") (codes ",")) ≡ parts_of (codes ",") (codes ",0,,3,")
texts-soft_tokenise_example = texts-soft_tokenise (codes ",0,,3,") (codes ",")

parse_uint-digits_example : parse_uint (codes "18446744073709551616") 0 ≡ (
    if ltb (value 0 (codes "18446744073709551616")) u64_mod
    then (value 0 (codes "18446744073709551616"), true)
    else (u64_mod - 1, false))
parse_uint-digits_example = parse_uint-digits (codes "18446744073709551616") 0 refl (cc)

plus_42 : parse_uint (codes " +42") 0 ≡ (42, true)
unfolding parse_uint strtoull
plus_42 = refl

parse_uint_sound_example : IsUint (codes " +42") 42
parse_uint_sound_example = parse_uint_sound (codes " +42") 0 plus_42

parse_uint-decimal_example : parse_uint (decimal 59) 0 ≡ (59, true)
parse_uint-decimal_example = parse_uint-decimal 59 0 (omega arith)
