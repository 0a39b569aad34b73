-- ===== src/Generator/Job/Calendar/Days.antt =====
-- The days of the week, read back.
use systemd_cron.Base.{
  ℕ, ◌≡◌, refl, ap, ◌∙◌, List, [], ◌∷◌, ◌++◌, Bool, true, false, if◌then◌else◌, arith, Bytes, codes,
  equal, contains, contains-append, all, keep, init, inl, inr, Bool-cases,
}
use systemd_cron.Generator.Job.Calendar.Fields.{pieces-commas, contains-commas, lacks}
use systemd_cron.Generator.Job.Calendar.{pieces, read_days, days_of}
use systemd_cron.Generator.Job.Schedule.{commas, is_nil, member, week, days_of_week}

all-keep_sub :
    {A : Type 0} (p f : A → Bool) (xs : List A) → all p xs ≡ true → all p (keep f xs) ≡ true
all-keep_sub p f [] h = refl
all-keep_sub p f (x ∷ xs) h = ground (arith, all-keep_sub p f xs)

init-append : (s : Bytes) (c : ℕ) → init (s ++ c ∷ []) ≡ s
init-append [] c = refl
init-append (x ∷ []) c = refl
init-append (x ∷ y ∷ s) c = ap (λ t. x ∷ t) (init-append (y ∷ s) c)

abbrev is_text : Bytes → Bool
is_text d = if is_nil d then false else true

keep-all : (xs : List Bytes) → all is_text xs ≡ true → keep is_text xs ≡ xs
keep-all [] h = refl
keep-all (x ∷ xs) h = ground (arith, keep-all xs)

read_days-commas :
    (ws : List Bytes)
    → all (lacks b',') ws ≡ true
    → all is_text ws ≡ true
    → read_days (commas ws ++ codes " ") ≡ ws
unfolding read_days commas pieces
read_days-commas [] h k = refl
read_days-commas (w ∷ ws) h k =
    ap (λ s. keep is_text (pieces b',' s)) (init-append (commas (w ∷ ws)) b' ')
    ∙ ap (keep is_text) (pieces-commas (w ∷ ws) refl h)
    ∙ keep-all (w ∷ ws) k

-- The names of the days: texts without commas or asterisks.
named :
    (p : Bytes → Bool) (sunday_is_seven : Bool)
    → all p (week true) ≡ true
    → all p (week false) ≡ true
    → all p (week sunday_is_seven) ≡ true
named p true h k = h
named p false h k = k

abbrev chosen : Bool → List Bytes → List Bytes
chosen sunday_is_seven dow = keep (λ d. member d dow) (week sunday_is_seven)

read_chosen :
    (sunday_is_seven : Bool) (dow : List Bytes)
    → read_days (commas (chosen sunday_is_seven dow) ++ codes " ") ≡ chosen sunday_is_seven dow
read_chosen sunday_is_seven dow =
    read_days-commas (chosen sunday_is_seven dow)
      (all-keep_sub (lacks b',') (λ d. member d dow) (week sunday_is_seven)
        (named (lacks b',') sunday_is_seven (unfold contains in refl) (unfold contains in refl)))
      (all-keep_sub is_text (λ d. member d dow) (week sunday_is_seven)
        (named is_text sunday_is_seven refl refl))

chosen_plain :
    (sunday_is_seven : Bool) (dow : List Bytes)
    → contains b'*' (commas (chosen sunday_is_seven dow) ++ codes " ") ≡ false
unfolding contains
chosen_plain sunday_is_seven dow = ground (
  arith,
  contains-append b'*' (commas (chosen sunday_is_seven dow)) (codes " "),
  contains-commas b'*' (chosen sunday_is_seven dow) refl (
      all-keep_sub (lacks b'*') (λ d. member d dow) (week sunday_is_seven)
        (named (lacks b'*') sunday_is_seven refl refl)),
)

member-nil : (ws : List Bytes) → keep (λ d. member d []) ws ≡ []
unfolding member
member-nil [] = refl
member-nil (w ∷ ws) = member-nil ws

pub read_days-days_of_week :
    (sunday_is_seven : Bool) (dow : List Bytes)
    → read_days (days_of_week sunday_is_seven dow) ≡ days_of sunday_is_seven dow
unfolding days_of_week
read_days-days_of_week s [] = read_chosen s [] ∙ member-nil (week s)
read_days-days_of_week s (d ∷ []) = elim (Bool-cases (equal d (codes "*"))) [
  | inl e ↦ rw e (unfold read_days pieces in refl)
  | inr e ↦ rw e (read_chosen s (d ∷ []))
]
read_days-days_of_week s (d ∷ e ∷ ds) = read_chosen s (d ∷ e ∷ ds)

pub contains-days_of_week :
    (sunday_is_seven : Bool) (dow : List Bytes)
    → contains b'*' (days_of_week sunday_is_seven dow) ≡ false
unfolding days_of_week
contains-days_of_week s [] = chosen_plain s []
contains-days_of_week s (d ∷ []) = elim (Bool-cases (equal d (codes "*"))) [
  | inl e ↦ rw e (unfold contains in refl)
  | inr e ↦ rw e (chosen_plain s (d ∷ []))
]
contains-days_of_week s (d ∷ e ∷ ds) = chosen_plain s (d ∷ e ∷ ds)
