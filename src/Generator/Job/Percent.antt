-- ===== src/Generator/Job/Percent.antt =====
-- `parse_percent` cuts the command at its first unescaped percent sign.
use systemd_cron.Base.{
  ℕ, ◌≡◌, ◌⊎◌, refl, ap, List, [], ◌∷◌, ◌++◌, Option, none, some, inl, inr, Bool, true, false, not,
  ◌&&◌, ◌==◌, Bytes, all, arith, if◌then◌else◌, Option-cases,
}
use systemd_cron.Generator.Job.Parse.{unescaped, split_percent, parse_percent}
use systemd_cron.Generator.Job.{Job}
use systemd_cron.Vore.Tokenise.{View, texts}

-- Does a percent sign stand in the text with no backslash before it? The first argument tells
-- whether there is a backslash before the text.
abbrev pub has_bare : Bool → Bytes → Bool
has_bare hidden [] = false
has_bare hidden (c ∷ s) = if c == b'%' && not hidden then true else has_bare (c == b'\\') s

abbrev pub is_hidden : Option ℕ → Bool
is_hidden none = false
is_hidden (some c) = c == b'\\'

unescaped-none :
    (before : Option ℕ) (s : Bytes)
    → unescaped before s ≡ none
    → has_bare (is_hidden before) s ≡ false
unfolding unescaped
unescaped-none before [] h = refl
unescaped-none none (c ∷ s) h = ground (arith, unescaped-none (some c) s)
unescaped-none (some p) (c ∷ s) h = ground (arith, unescaped-none (some c) s)

unescaped-some :
    (before : Option ℕ) (s a b : Bytes)
    → unescaped before s ≡ some (a, b)
    → (s ≡ a ++ b'%' ∷ b)
      × (has_bare (is_hidden before) a ≡ false)
      × (has_bare (is_hidden before) (a ++ b'%' ∷ []) ≡ true)
unfolding unescaped
unescaped-some before [] a b h = cc
unescaped-some none (c ∷ s) a b h = elim (Option-cases (unescaped (some c) s)) [
  | inl e ↦ ground arith
  | inr ((a', b'), e) ↦ ground (arith, unescaped-some (some c) s a' b' e)
]
unescaped-some (some p) (c ∷ s) a b h = elim (Option-cases (unescaped (some c) s)) [
  | inl e ↦ ground arith
  | inr ((a', b'), e) ↦ ground (arith, unescaped-some (some c) s a' b' e)
]

-- No word has a bare percent sign: the words stay, and the input is empty.
pub record Uncut (before after : List View) (input : Bytes) : Type 0 where
  pub kept : after ≡ before
  pub none_bare : all (λ w. not (has_bare false w.text)) before ≡ true
  pub no_input : input ≡ []

-- Some word has one: the words in front of it stay, it is cut at the first, and the input is
-- what follows that in the line.
pub record CutAt (before after : List View) (input : Bytes) : Type 0 where
  pub front : List View
  pub word : View
  pub back : List View
  pub head : Bytes
  pub rest : Bytes
  pub split : before ≡ front ++ word ∷ back
  pub front_bare : all (λ w. not (has_bare false w.text)) front ≡ true
  pub first : word.text ≡ head ++ b'%' ∷ rest
  pub head_bare : has_bare false head ≡ false
  pub sign_bare : has_bare false (head ++ b'%' ∷ []) ≡ true
  pub cut_words : texts after ≡ texts front ++ head ∷ []
  pub line_rest : input ≡ rest ++ word.after

split_percent-cases :
    (ws : List View)
    → Uncut ws (split_percent ws).0 (split_percent ws).1
      ⊎ CutAt ws (split_percent ws).0 (split_percent ws).1
unfolding split_percent
split_percent-cases [] = inl (record { kept = refl; none_bare = refl; no_input = refl })
split_percent-cases (w ∷ ws) = elim (Option-cases (unescaped none w.text)) [
  | inr ((a, b), e) ↦
      let (split, bare, sign) = unescaped-some none w.text a b e in
      rw (e, split_percent)
        (inr (record {
          front = [];
          word = w;
          back = ws;
          head = a;
          rest = b;
          split = refl;
          front_bare = refl;
          first = split;
          head_bare = bare;
          sign_bare = sign;
          cut_words = refl;
          line_rest = refl;
        }))
  | inl e ↦
      rw (e, split_percent)
        (elim (split_percent-cases ws) [
          | inl u ↦ inl (record {
            kept = ap (◌∷◌ w) u.kept;
            none_bare = ground (arith, unescaped-none none w.text e, u.none_bare);
            no_input = u.no_input;
          })
          | inr u ↦ inr (record {
            front = w ∷ u.front;
            word = u.word;
            back = u.back;
            head = u.head;
            rest = u.rest;
            split = ap (◌∷◌ w) u.split;
            front_bare = ground (arith, unescaped-none none w.text e, u.front_bare);
            first = u.first;
            head_bare = u.head_bare;
            sign_bare = u.sign_bare;
            cut_words = ap (◌∷◌ w.text) u.cut_words;
            line_rest = u.line_rest;
          })
        ])
]

-- Either no word of the command has an unescaped percent sign, and the job has no input; or the
-- command ends before the first one, and the input is the rest of the line behind it.
pub parse_percent-cases :
    (j : Job)
    → Uncut j.command.words (parse_percent j).command.words (parse_percent j).input_data
      ⊎ CutAt j.command.words (parse_percent j).command.words (parse_percent j).input_data
unfolding parse_percent
parse_percent-cases j = split_percent-cases j.command.words
