-- ===== src/Tool/Colour/Transparent.antt =====
-- The colours leave the text of a crontab as it is, but for a job with blanks before its @.
use systemd_cron.Base.{
  Bool-cases, Option-cases, all, not, true, ℕ, zero, suc, ◌≡◌, refl, sym, ap, ◌∙◌, ◌⊎◌, List, [],
  ◌∷◌, ◌++◌, Bool, false, Bytes, codes, arith, length, drop, concat, map, starts_with, inl, inr,
  append-nil, take_while,
}
use systemd_cron.Generator.Crontab.{envvar}
use systemd_cron.Tool.Colour.{
  colour_timespec, colour_line, before_token, green, yellow, Piece, Colour, colour_tokens, getlines,
  split_pieces,
}
use systemd_cron.Vore.Tokenise.{
  View, soft_tokenise, is_delim, texts, texts-soft_tokenise, parts_of-plain, plain,
}

abbrev pub text_of : List Piece → Bytes
text_of pieces = concat (map (λ p. p.1) pieces)

getlines-concat : (s : Bytes) → concat (getlines s) ≡ s
unfolding getlines
getlines-concat [] = refl
getlines-concat (c ∷ s) = ground (arith, getlines-concat s)

split_pieces-text : (c : Colour) (n : ℕ) (line : Bytes) → text_of (split_pieces c n line) ≡ line
split_pieces-text c zero line = append-nil line
split_pieces-text c (suc n) [] = refl
split_pieces-text c (suc n) (b ∷ line) = ap (◌∷◌ b) (split_pieces-text c n line)

-- Does the line begin with a blank?
abbrev pub is_indented : Bytes → Bool
is_indented [] = false
is_indented (c ∷ s) = is_delim (codes " \t\n") c

front_and_rest :
    (p : ℕ → Bool) (s : Bytes) → take_while p s ++ (drop (length (take_while p s)) s ++ []) ≡ s
front_and_rest p [] = refl
front_and_rest p (c ∷ s) = ground (arith, front_and_rest p s, append-nil s)

head_text : List Bytes → Bytes
head_text [] = []
head_text (x ∷ xs) = x

-- The first token of a line that begins with a word is that word.
first_token :
    (c : ℕ) (t : Bytes) (v : View) (vs : List View)
    → is_delim (codes " \t\n") c ≡ false
    → soft_tokenise (c ∷ t) (codes " \t\n") ≡ v ∷ vs
    → v.text ≡ take_while (plain (codes " \t\n")) (c ∷ t)
unfolding head_text
first_token c t v vs h e =
    ap head_text (
      sym (ap texts e)
      ∙ texts-soft_tokenise (c ∷ t) (codes " \t\n")
      ∙ parts_of-plain (codes " \t\n") c t h)
    ∙ rw h refl

List-cases : {A : Type 0} (l : List A) → (l ≡ []) ⊎ ((x : A) × (xs : List A) × (l ≡ x ∷ xs))
List-cases [] = inl refl
List-cases (x ∷ xs) = inr (x, xs, refl)

colour_timespec-text : (line : Bytes) (vs : List View) → text_of (colour_timespec line vs) ≡ line
unfolding colour_timespec
colour_timespec-text line [] = append-nil line
colour_timespec-text line (v ∷ vs) = split_pieces-text green (before_token line v) line

colour_tokens-text :
    (line : Bytes) (vs : List View)
    → ((v : View) (ws : List View)
        → vs ≡ v ∷ ws
        → v.text ++ (drop (length v.text) line ++ []) ≡ line)
    → text_of (colour_tokens line vs) ≡ line
unfolding colour_tokens
colour_tokens-text line [] h = colour_timespec-text line []
colour_tokens-text line (v ∷ vs) h = elim (Bool-cases (starts_with (codes "@") v.text)) [
  | inl e ↦ rw (e, colour_tokens) (h v vs refl)
  | inr e ↦ rw (e, colour_tokens) (colour_timespec-text line (drop 4 vs))
]

first_whole :
    (line : Bytes) (v : View) (vs : List View)
    → is_indented line ≡ false
    → soft_tokenise line (codes " \t\n") ≡ v ∷ vs
    → v.text ++ (drop (length v.text) line ++ []) ≡ line
unfolding soft_tokenise
first_whole [] v vs h e = absurd (cc e)
first_whole (c ∷ t) v vs h e =
    rw (first_token c t v vs h e) (front_and_rest (plain (codes " \t\n")) (c ∷ t))

-- The pieces of a line that does not begin with a blank spell the line.
pub colour_line-text : (line : Bytes) → is_indented line ≡ false → text_of (colour_line line) ≡ line
unfolding colour_line
colour_line-text line h = elim (Bool-cases (starts_with (codes "#") line)) [
  | inl e ↦ rw (e, colour_line) (append-nil line)
  | inr e ↦ elim (Option-cases (envvar line)) [
    | inl f ↦
        rw (e, f, colour_line)
          (colour_tokens-text line (soft_tokenise line (codes " \t\n"))
            (λ v vs g. first_whole line v vs h g))
    | inr ((key, value), f) ↦ rw (e, f, colour_line) (split_pieces-text yellow (length key) line)
  ]
]

-- What `colour_crontab` prints of a crontab in which no line begins with a blank, without the
-- escape sequences, is the crontab.
pub colour_crontab-text :
    (text : Bytes)
    → all (λ line. not (is_indented line)) (getlines text) ≡ true
    → concat (map (λ line. text_of (colour_line line)) (getlines text)) ≡ text
colour_crontab-text text h = each (getlines text) h ∙ getlines-concat text
  where
    each :
        (ls : List Bytes)
        → all (λ line. not (is_indented line)) ls ≡ true
        → concat (map (λ line. text_of (colour_line line)) ls) ≡ concat ls
    each [] h = refl
    each (l ∷ ls) h = ground (arith, colour_line-text l, each ls)
