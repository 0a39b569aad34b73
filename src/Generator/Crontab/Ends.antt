-- ===== src/Generator/Crontab/Ends.antt =====
-- Reading a whole crontab comes to an end.
use systemd_cron.Generator.Crontab.{
  Crontab, File, missing, refused, unmapped, contents, Reader, read_job, read_line, read_lines,
  parse_crontab, envvar, trim_end,
}
use systemd_cron.Generator.Environment.{Environment}
use systemd_cron.Generator.Host.{Host}
use systemd_cron.Generator.Job.Kept.{decode_environment-times}
use systemd_cron.Base.{
  [], ◌∷◌, ◌∙◌, ◌≡◌, refl, inl, inr, List, Bool, true, ◌&&◌, not, if◌then◌else◌, Bytes, codes,
  equal, length, take, ltb, ◌+◌, arith, Bool-cases, starts_with, drop_while, is_space, ◌||◌, ap,
  Option-cases, some, none, all, ℕ, false,
}
use systemd_cron.Generator.Field.{
  int_map, month_map, dow_map, minutes_set, hours_set, days_set, dows_set, months_set,
}
use systemd_cron.Generator.Job.Parse.{
  Draws, parse_numbers, parse_fields, parse_crontab_timespec, text_at, ends_in_l, one_for_user,
}
use systemd_cron.Generator.Job.Termination.{has_steps, parse_time_unit-Ends}
use systemd_cron.Generator.Job.{Job, WithUser, new_job, decode_environment}
use systemd_cron.Generator.OrderedSet.{number_less, text_less}
use systemd_cron.Generator.Period.Safety.{IsUniform}
use systemd_cron.Generator.Run.{Run, is_done, is_done-bind}
use systemd_cron.Vore.Tokenise.{View, texts, soft_tokenise}

-- The engines of a job draw from closed intervals.
pub record AreUniform (d : Draws) : Type 0 where
  pub minute : IsUniform d.minute
  pub hour : IsUniform d.hour
  pub dom : IsUniform d.dom
  pub dow : IsUniform d.dow
  pub month : IsUniform d.month

abbrev pub stepped : Bytes → Bool
stepped value = has_steps (soft_tokenise value (codes ","))

-- The days of the month and of the week that the reader looks at, for the last ones too.
abbrev pub days_text : List View → Bytes
days_text parts =
    let last_dow = ends_in_l (text_at parts 4) in
    if equal (text_at parts 2) (codes "L")
    then codes "1"
    else if last_dow
    then codes "7/1"
    else text_at parts 2

abbrev pub dows_text : List View → Bytes
dows_text parts =
    if not (equal (text_at parts 2) (codes "L")) && ends_in_l (text_at parts 4)
    then take 1 (text_at parts 4)
    else text_at parts 4

-- Is every step of the five time fields positive, and below 2 ^ 61?
unfoldable pub are_stepped : List View → Bool
unfolding ends_in_l
are_stepped parts =
    stepped (text_at parts 0)
    && stepped (text_at parts 1)
    && stepped (days_text parts)
    && stepped (text_at parts 3)
    && stepped (dows_text parts)

parse_fields-Ends :
    (d : Draws)
    → AreUniform d
    → (persistent : Bool) (minutes hours days months dows : Bytes) → stepped minutes ≡ true
    → stepped hours ≡ true
    → stepped days ≡ true
    → stepped months ≡ true
    → stepped dows ≡ true
    → is_done (parse_fields d persistent minutes hours days months dows) ≡ true
unfolding parse_fields parse_numbers
parse_fields-Ends d u persistent minutes hours days months dows hm hh hd hn hw =
    is_done-bind _ _
      (parse_time_unit-Ends d.minute u.minute minutes_set (omega arith) (omega arith) int_map _
        persistent _ minutes hm)
      λ a.
        is_done-bind _ _
          (parse_time_unit-Ends d.hour u.hour hours_set (omega arith) (omega arith) int_map _
            persistent _ hours hh)
          λ b.
            is_done-bind _ _
              (parse_time_unit-Ends d.dom u.dom days_set (omega arith) (omega arith) int_map _
                persistent _ days hd)
              λ c.
                is_done-bind _ _
                  (parse_time_unit-Ends d.dow u.dow dows_set (omega arith) (omega arith) dow_map _
                    persistent _ dows hw)
                  λ e.
                    is_done-bind _ _
                      (parse_time_unit-Ends d.month u.month months_set (omega arith) (omega arith)
                        month_map _ persistent _ months hn)
                      λ f. refl

parse_crontab_timespec-Ends :
    (d : Draws) (withuser : WithUser) (j : Job)
    → AreUniform d
    → are_stepped j.parts ≡ true
    → is_done (parse_crontab_timespec d withuser j) ≡ true
unfolding parse_crontab_timespec are_stepped
parse_crontab_timespec-Ends d withuser j u h =
    elim (Bool-cases (ltb (length j.parts) (6 + one_for_user withuser))) [
      | inl e ↦ rw (e, parse_crontab_timespec) refl
      | inr e ↦
          rw (e, parse_crontab_timespec)
            (is_done-bind _ _
              (parse_fields-Ends d u j.persistent (text_at j.parts 0) (text_at j.parts 1)
                (days_text j.parts) (text_at j.parts 3) (dows_text j.parts) (ground (arith, h))
                (ground (arith, h)) (ground (arith, h)) (ground (arith, h)) (ground (arith, h)))
              (λ r. refl))
    ]

is_done-if :
    {A : Type 0} (b : Bool) (m n : Run A)
    → is_done m ≡ true
    → (b ≡ false → is_done n ≡ true)
    → is_done (if b then m else n) ≡ true
is_done-if true m n h k = h
is_done-if false m n h k = k refl

-- A job without time fields, or with steps in their range.
abbrev pub is_finite_job : Crontab → Bytes → Bool
is_finite_job c line =
    c.anacrontab || starts_with (codes "@") line || are_stepped (new_job c.filename line).parts

abbrev pub is_variable : Bytes → Bool
is_variable line = elim (envvar line) [ none ↦ false | some p ↦ true ]

-- A line that is no job, or such a one.
abbrev pub is_finite : Crontab → Bytes → Bool
is_finite c line =
    (equal line [] || starts_with (codes "#") line) || is_variable line || is_finite_job c line

module _ (host : Host) (c : Crontab) where
  read_job-Ends :
      (d : Draws)
      → AreUniform d
      → (env : Environment) (line : Bytes) → is_finite_job c line ≡ true
      → is_done (read_job host d c env line) ≡ true
  unfolding read_job
  read_job-Ends d u env line h =
      let j = new_job c.filename line in
      let k = decode_environment host env false c.mail_success c.mail_format j in
      let same : k.parts ≡ j.parts =
        ap (λ t. t.2) (decode_environment-times host env false c.mail_success c.mail_format j) in
      is_done-if c.anacrontab _ _ refl λ tab.
        is_done-if (starts_with (codes "@") line) _ _ refl λ at.
          parse_crontab_timespec-Ends d c.withuser k u
            (ap are_stepped same ∙ ground (arith, h, tab, at))

  module _ (draws : ℕ → Draws) (u : (n : ℕ) → AreUniform (draws n)) where
    read_line-Ends :
        (raw : Bytes) (r : Reader)
        → is_finite c (trim_end (drop_while is_space raw)) ≡ true
        → is_done (read_line host draws c raw r) ≡ true
    unfolding read_line
    read_line-Ends raw r h =
        let line = trim_end (drop_while is_space raw) in
        is_done-if (equal line [] || starts_with (codes "#") line) _ _ refl λ plain.
          elim (Option-cases (envvar line)) [
            | inr ((key, value), e) ↦ rw e refl
            | inl e ↦
                let fine : is_finite_job c line ≡ true = ground (arith, h, plain, e) in
                rw e (
                  is_done-bind (read_job host (draws (length r.jobs)) c r.environment line) _
                    (read_job-Ends (draws (length r.jobs)) (u (length r.jobs)) r.environment line
                      fine)
                    (λ j. refl))
          ]

    read_lines-Ends :
        (lines : List Bytes) (r : Reader)
        → all (λ raw. is_finite c (trim_end (drop_while is_space raw))) lines ≡ true
        → is_done (read_lines host draws c lines r) ≡ true
    unfolding read_lines
    read_lines-Ends [] r h = refl
    read_lines-Ends (line ∷ lines) r h =
        is_done-bind (read_line host draws c line r) (read_lines host draws c lines)
          (read_line-Ends line r (ground (arith, h)))
          (λ q. read_lines-Ends lines q (ground (arith, h)))

  -- The lines of a file, without the blanks around them.
  abbrev pub finite_file : File → Bool
  finite_file missing = true
  finite_file refused = true
  finite_file unmapped = true
  finite_file (contents s) =
      all (λ raw. is_finite c (trim_end (drop_while is_space raw)))
        (texts (soft_tokenise s (codes "\n")))

  -- A crontab is read to its end, with every read inside the tables, if the random engines are
  -- uniform and every step in the time fields of its jobs is positive and below 2 ^ 61.
  pub parse_crontab-Ends :
      (draws : ℕ → Draws)
      → ((n : ℕ) → AreUniform (draws n))
      → (env : Environment) (file : File) → finite_file file ≡ true
      → is_done (parse_crontab host draws c env file) ≡ true
  unfolding parse_crontab
  parse_crontab-Ends draws u env missing h = refl
  parse_crontab-Ends draws u env refused h = refl
  parse_crontab-Ends draws u env unmapped h = refl
  parse_crontab-Ends draws u env (contents s) h =
      is_done-bind _ _ (read_lines-Ends draws u (texts (soft_tokenise s (codes "\n"))) _ h)
        (λ r. refl)
