-- ===== src/Generator/Job/Calendar/Fields.antt =====
-- The texts of the fields, read back.
use systemd_cron.Base.Decimal.{decimal, value-decimal, all-decimal}
use systemd_cron.Base.{
  ℕ, ◌≡◌, refl, ap, ◌∙◌, List, [], ◌∷◌, ◌++◌, Bool, true, false, not, ◌&&◌, if◌then◌else◌, ◌==◌,
  arith, append_assoc, Bytes, codes, equal, contains, contains-append, contains_digits, is_digit,
  all, map, inl, inr, Bool-cases,
}
use systemd_cron.Generator.Job.Calendar.{pieces, read_value, read_field}
use systemd_cron.Generator.Job.Parse.{timespec_asterisk}
use systemd_cron.Generator.Job.Schedule.{commas, field_text, is_nil}

comma_between : (a b : Bytes) → a ++ codes "," ++ b ≡ a ++ b',' ∷ b
comma_between a b = append_assoc a (codes ",") b

-- A piece without the byte that cuts, and what follows.
pieces-append :
    (c : ℕ) (a b : Bytes) → contains c a ≡ false → pieces c (a ++ c ∷ b) ≡ a ∷ pieces c b
unfolding pieces contains
pieces-append c [] b h = ground arith
pieces-append c (x ∷ a) b h = ground (arith, pieces-append c a b)

pieces_plain : (c : ℕ) (a : Bytes) → contains c a ≡ false → pieces c a ≡ a ∷ []
unfolding pieces contains
pieces_plain c [] h = refl
pieces_plain c (x ∷ a) h = ground (arith, pieces_plain c a)

abbrev pub lacks : ℕ → Bytes → Bool
lacks c s = not (contains c s)

pub pieces-commas :
    (xs : List Bytes)
    → is_nil xs ≡ false
    → all (lacks b',') xs ≡ true
    → pieces b',' (commas xs) ≡ xs
unfolding commas
pieces-commas [] h k = cc
pieces-commas (x ∷ []) h k = pieces_plain b',' x (ground arith)
pieces-commas (x ∷ y ∷ xs) h k =
    let first : pieces b',' (x ++ codes "," ++ commas (y ∷ xs))
        ≡ x ∷ pieces b',' (commas (y ∷ xs)) =
      ap (pieces b',') (comma_between x (commas (y ∷ xs)))
      ∙ pieces-append b',' x (commas (y ∷ xs)) (ground arith) in
    let rest : pieces b',' (commas (y ∷ xs)) ≡ y ∷ xs =
      pieces-commas (y ∷ xs) refl (ground arith) in
    first ∙ ap (λ ps. x ∷ ps) rest

-- No part has the byte, and the comma is not it.
contains-part :
    (c : ℕ) (a b : Bytes)
    → (b',' == c) ≡ false
    → contains c a ≡ false
    → contains c b ≡ false
    → contains c (a ++ codes "," ++ b) ≡ false
unfolding contains
contains-part c a b e h k =
    ap (contains c) (comma_between a b) ∙ ground (arith, contains-append c a (b',' ∷ b))

pub contains-commas :
    (c : ℕ) (xs : List Bytes)
    → (b',' == c) ≡ false
    → all (lacks c) xs ≡ true
    → contains c (commas xs) ≡ false
unfolding commas contains
contains-commas c [] h k = refl
contains-commas c (x ∷ []) h k = ground arith
contains-commas c (x ∷ y ∷ xs) h k =
    contains-part c x (commas (y ∷ xs)) h (ground arith)
      (contains-commas c (y ∷ xs) h (ground arith))

-- A number, as `field_text` writes it.
abbrev pub number_text : ℕ → Bytes
number_text n = if n == timespec_asterisk then codes "*" else decimal n

-- Is it neither a digit nor the asterisk?
abbrev pub is_mark : ℕ → Bool
is_mark c = not (is_digit c) && not (b'*' == c)

contains-number_text : (c n : ℕ) → is_mark c ≡ true → contains c (number_text n) ≡ false
unfolding contains
contains-number_text c n h =
    ground (arith, contains_digits c (decimal n) (ground arith) (all-decimal n))

lacks-texts : (c : ℕ) (xs : List ℕ) → is_mark c ≡ true → all (lacks c) (map number_text xs) ≡ true
lacks-texts c [] h = refl
lacks-texts c (x ∷ xs) h = ground (arith, contains-number_text c x h, lacks-texts c xs h)

pub contains-field_text :
    (c : ℕ) (xs : List ℕ)
    → is_mark c ≡ true
    → (b',' == c) ≡ false
    → contains c (field_text xs) ≡ false
unfolding field_text
contains-field_text c xs h k = contains-commas c (map number_text xs) k (lacks-texts c xs h)

starred : (s : Bytes) → all is_digit s ≡ true → equal s (codes "*") ≡ false
unfolding equal
starred [] h = refl
starred (c ∷ s) h = ground arith

read_value-number_text : (n : ℕ) → read_value (number_text n) ≡ n
unfolding read_value equal
read_value-number_text n = elim (Bool-cases (n == timespec_asterisk)) [
  | inl e ↦ rw e (ground arith)
  | inr e ↦ rw (e, starred (decimal n) (all-decimal n)) (value-decimal n)
]

read_values : (xs : List ℕ) → map read_value (map number_text xs) ≡ xs
read_values [] = refl
read_values (x ∷ xs) = cc (read_value-number_text x, read_values xs)

is_nil-map : {A B : Type 0} (f : A → B) (xs : List A) → is_nil (map f xs) ≡ is_nil xs
is_nil-map f [] = refl
is_nil-map f (x ∷ xs) = refl

pub read_field-field_text : (xs : List ℕ) → is_nil xs ≡ false → read_field (field_text xs) ≡ xs
unfolding read_field field_text
read_field-field_text xs h =
    ap (map read_value) (
      pieces-commas (map number_text xs) (is_nil-map number_text xs ∙ h) (lacks-texts b',' xs refl))
    ∙ read_values xs
