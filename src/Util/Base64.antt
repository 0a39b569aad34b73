-- ===== src/Util/Base64.antt =====
-- `struct b64`: bytes go into a 16-bit accumulator from the top, and characters of six bits leave
-- it there. The output file is the list of the characters written.
pub mod Groups
pub mod Pieces
mod Tests
use systemd_cron.Base.{
  ℕ, zero, suc, ◌+◌, ◌-◌, ◌*◌, ◌/◌, ◌%◌, ◌^◌, ◌≡◌, refl, [], ◌∷◌, ◌++◌, true, false, Option, none,
  some, ltb, leb, ◌==◌, if◌then◌else◌, Bytes, codes, length, get_elem?,
}

abbrev alphabet : Bytes
alphabet = codes "ABCDEFGHIJKLMNOPQRSTUVWXYZabcdefghijklmnopqrstuvwxyz0123456789-_"

abbrev char_or_nul : Option ℕ → ℕ
char_or_nul none = 0
char_or_nul (some c) = c

-- `alphabet[i]`.
unfoldable pub alphabet_at : ℕ → ℕ
alphabet_at i = char_or_nul (get_elem? alphabet i)

pub record Encoder : Type 0 where
  pub into : Bytes
  pub acc : ℕ
  pub accsz : ℕ

-- `fputc(alphabet[acc >> 10])`, with the shift of the 16-bit accumulator behind it.
pub emit : Encoder → Encoder
emit e = record {
  into = e.into ++ alphabet_at (e.acc / 2 ^ 10) ∷ [];
  acc = e.acc * 2 ^ 6 % 2 ^ 16;
  accsz = e.accsz - 6;
}

-- `acc |= byte << (8 - accsz)`: the bits below the top `accsz` are clear, so the sum is the union.
pub load : Encoder → ℕ → Encoder
load e byte = record e { acc = (e.acc + byte * 2 ^ (8 - e.accsz)) % 2 ^ 16; accsz = e.accsz + 8 }

-- The loop of `feed`: a character leaves whenever six bits are there; before that a byte is loaded.
pub feed : ℕ → Encoder → Bytes → Encoder
feed zero e s = e
feed (suc fuel) e s = elim (ltb e.accsz 6) [
  | false ↦ feed fuel (emit e) s
  | true ↦ elim s [ [] ↦ e | byte ∷ rest ↦ feed fuel (emit (load e byte)) rest ]
]

-- `feed(std::string_view)`: every byte takes two rounds at most, and one more ends the loop.
abbrev pub enough : Bytes → ℕ
enough s = suc (2 * length s)

unfoldable pub feed_view : Encoder → Bytes → Encoder
unfolding feed emit load
feed_view e s = feed (enough s) e s

unfoldable pub finish : Encoder → Bytes
finish e =
    let out = if e.accsz == 0 then e.into else e.into ++ alphabet_at (e.acc / 2 ^ 10) ∷ [] in
    if e.accsz == 0
    then out
    else if e.accsz == 2
    then out ++ b'=' ∷ b'=' ∷ []
    else if leb e.accsz 4
    then out ++ b'=' ∷ []
    else out

unfoldable pub fresh : Encoder
fresh = record { into = []; acc = 0; accsz = 0 }

-- The use of an encoder: feed a text, and finish.
unfoldable pub encode : Bytes → Bytes
unfolding feed_view finish fresh alphabet_at
encode s = finish (feed_view fresh s)

encode_run : encode (codes "hello\n") ≡ codes "aGVsbG8K"
unfolding encode
encode_run = refl

encode_padded : encode (codes "ab?>") ≡ codes "YWI_Pg=="
unfolding encode
encode_padded = refl
