-- ===== src/Vore/Tokenise.antt =====
-- `soft_tokenise` of src/include/libvoreutils.hpp. A `std::string_view` into a text is its bytes,
-- and what follows them in that text.
use systemd_cron.Base.{
  ℕ, zero, suc, ◌<◌, ◌≡◌, refl, List, [], ◌∷◌, Bool, true, false, not, map, arith, if◌then◌else◌,
  Bytes, codes, contains, take_while, drop_while, keep, length, length-drop_while, sym, ap, ◌∙◌,
}

pub record View : Type 0 where
  pub text : Bytes
  pub after : Bytes

-- `remaining` and `token` of `soft_tokenise_iter`.
pub record TokenIter : Type 0 where
  pub remaining : Bytes
  pub token : View

abbrev pub is_delim : Bytes → ℕ → Bool
is_delim delim c = contains c delim

-- `find_first_not_of` leaves the text alone where it finds nothing.
abbrev skip : Bytes → Bytes → Bytes → Bytes
skip delim whole [] = whole
skip delim whole (c ∷ s) = c ∷ s

-- `operator++`, as a function of `remaining`.
unfoldable pub advance : Bytes → Bytes → TokenIter
advance delim remaining =
    let r = skip delim remaining (drop_while (is_delim delim) remaining) in
    let plain = λ (c : ℕ). not (is_delim delim c) in
    record {
      remaining = drop_while plain r;
      token = record { text = take_while plain r; after = drop_while plain r };
    }

-- From `begin()` on until the token equals that of `end()`, the empty one.
tokens_from : ℕ → Bytes → Bytes → List View
tokens_from zero delim remaining = []
tokens_from (suc fuel) delim remaining =
    let i = advance delim remaining in
    elim i.token.text [ [] ↦ [] | c ∷ s ↦ i.token ∷ tokens_from fuel delim i.remaining ]

unfoldable pub soft_tokenise : Bytes → Bytes → List View
unfolding tokens_from advance
soft_tokenise s delim = tokens_from (suc (length s)) delim s

abbrev pub texts : List View → List Bytes
texts = map (λ v. v.text)

soft_tokenise_run : texts (soft_tokenise (codes ",0,,3,") (codes ",")) ≡ codes "0" ∷ codes "3" ∷ []
unfolding soft_tokenise contains
soft_tokenise_run = refl

-- An independent description: cut at every delimiter, and leave out the empty parts.
-- The part before the first delimiter comes first, on its own.
abbrev pub cut_all : Bytes → Bytes → Bytes × List Bytes
cut_all delim [] = ([], [])
cut_all delim (c ∷ s) =
    let (part, parts) = cut_all delim s in
    if is_delim delim c then ([], part ∷ parts) else (c ∷ part, parts)

abbrev pub is_cons : Bytes → Bool
is_cons [] = false
is_cons (c ∷ s) = true

abbrev pub parts_of : Bytes → Bytes → List Bytes
parts_of delim s = let (part, parts) = cut_all delim s in keep is_cons (part ∷ parts)

parts_of-drop_while :
    (delim s : Bytes) → parts_of delim (drop_while (is_delim delim) s) ≡ parts_of delim s
parts_of-drop_while delim [] = refl
parts_of-drop_while delim (c ∷ s) = ground (arith, parts_of-drop_while delim s)

abbrev pub plain : Bytes → ℕ → Bool
plain delim c = not (is_delim delim c)

cut_all_part : (delim s : Bytes) → (cut_all delim s).0 ≡ take_while (plain delim) s
cut_all_part delim [] = refl
cut_all_part delim (c ∷ s) = ground (arith, cut_all_part delim s)

cut_all_rest :
    (delim s : Bytes)
    → keep is_cons (cut_all delim s).1 ≡ parts_of delim (drop_while (plain delim) s)
cut_all_rest delim [] = refl
cut_all_rest delim (c ∷ s) = ground (arith, cut_all_rest delim s)

-- A text that begins with a plain byte begins with a whole part.
pub parts_of-plain :
    (delim : Bytes) (c : ℕ) (s : Bytes)
    → is_delim delim c ≡ false
    → parts_of delim (c ∷ s)
      ≡ (c ∷ take_while (plain delim) s) ∷ parts_of delim (drop_while (plain delim) s)
parts_of-plain delim c s h = ground (arith, cut_all_part delim s, cut_all_rest delim s)

drop_while_head :
    (delim s : Bytes) (c : ℕ) (t : Bytes)
    → drop_while (is_delim delim) s ≡ c ∷ t
    → (is_delim delim c ≡ false) × (length t < length s)
drop_while_head delim [] c t h = cc
drop_while_head delim (x ∷ s) c t h = ground (arith, drop_while_head delim s c t)

take_while_none :
    (delim s : Bytes) → drop_while (is_delim delim) s ≡ [] → take_while (plain delim) s ≡ []
take_while_none delim [] h = refl
take_while_none delim (x ∷ s) h = ground arith

advance_token :
    (delim s : Bytes) (c : ℕ) (t : Bytes)
    → drop_while (is_delim delim) s ≡ c ∷ t
    → advance delim s ≡ record {
      remaining = drop_while (plain delim) t;
      token = record { text = c ∷ take_while (plain delim) t; after = drop_while (plain delim) t };
    }
unfolding advance
advance_token delim s c t e = rw (e, (drop_while_head delim s c t e).0)

advance_end :
    (delim s : Bytes) → drop_while (is_delim delim) s ≡ [] → (advance delim s).token.text ≡ []
unfolding advance
advance_end delim s e = rw e (take_while_none delim s e)

tokens_from_end :
    (fuel : ℕ) (delim s : Bytes)
    → drop_while (is_delim delim) s ≡ []
    → texts (tokens_from (suc fuel) delim s) ≡ parts_of delim s
unfolding tokens_from
tokens_from_end fuel delim s e =
    rw (advance_end delim s e, tokens_from)
      (rw e at (ap (λ (t : List Bytes). t) (parts_of-drop_while delim s)))

tokens_from_token :
    (fuel : ℕ) (delim s : Bytes) (c : ℕ) (t : Bytes)
    → drop_while (is_delim delim) s ≡ c ∷ t
    → texts (tokens_from fuel delim (drop_while (plain delim) t))
      ≡ parts_of delim (drop_while (plain delim) t)
    → texts (tokens_from (suc fuel) delim s) ≡ parts_of delim s
unfolding tokens_from
tokens_from_token fuel delim s c t e ih =
    rw (advance_token delim s c t e, tokens_from)
      (rw (advance_token delim s c t e) (
        ap (◌∷◌ (c ∷ take_while (plain delim) t)) ih
        ∙ sym (parts_of-plain delim c t (drop_while_head delim s c t e).0)
        ∙ (rw e at (parts_of-drop_while delim s))))

-- With more fuel than bytes the iteration gives the parts of the independent description.
texts-tokens_from :
    (fuel : ℕ) (delim s : Bytes)
    → length s < fuel
    → texts (tokens_from fuel delim s) ≡ parts_of delim s
texts-tokens_from zero delim s h = absurd (omega arith)
texts-tokens_from (suc fuel) delim s h =
    step (texts-tokens_from fuel delim) (drop_while (is_delim delim) s) refl
  where
    step :
        ((t : Bytes) → length t < fuel → texts (tokens_from fuel delim t) ≡ parts_of delim t)
        → (r : Bytes) → drop_while (is_delim delim) s ≡ r
        → texts (tokens_from (suc fuel) delim s) ≡ parts_of delim s
    step ih [] e = tokens_from_end fuel delim s e
    step ih (c ∷ t) e =
        let (_, shorter) = drop_while_head delim s c t e in
        tokens_from_token fuel delim s c t e (
          ih (drop_while (plain delim) t)
            (omega (arith, shorter, length-drop_while (plain delim) t)))

-- `soft_tokenise` gives the parts between delimiters, in order, with the empty ones left out.
pub texts-soft_tokenise : (s delim : Bytes) → texts (soft_tokenise s delim) ≡ parts_of delim s
unfolding soft_tokenise
texts-soft_tokenise s delim = texts-tokens_from (suc (length s)) delim s (omega arith)
