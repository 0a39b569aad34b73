-- ===== src/Generator/Crontab/Timed.antt =====
-- The jobs of a crontab: their time fields, and the calendar expressions they get.
use systemd_cron.Base.{
  Every, Bool, starts_with, drop_while, is_space, length, Option-cases, Bytes, codes, equal, subst,
  ℕ, zero, suc, ◌≡◌, ◌⊎◌, inl, inr, refl, sym, ap, ◌∙◌, List, [], ◌∷◌, some, true, false, ◌||◌,
  ◌==◌, arith, In, Bool-cases,
}
use systemd_cron.Generator.Environment.{Environment}
use systemd_cron.Generator.Crontab.{
  Crontab, File, missing, refused, unmapped, contents, Reader, read_job, read_line, read_lines,
  parse_crontab, envvar, trim_end, set_variable,
}
use systemd_cron.Generator.Job.Exec.{decode}
use systemd_cron.Generator.Job.Kept.{
  times, decode_environment-times, decode-times, parse_anacrontab-timespec,
  parse_crontab_at-timespec,
}
use systemd_cron.Generator.Job.Parse.{Draws}
use systemd_cron.Generator.Job.Timed.{parse_crontab_timespec-IsTimed}
use systemd_cron.Generator.Job.{new_job, decode_environment}
use systemd_cron.Generator.Run.{done, Holds, Holds-bind, Holds-if, Holds-weaken}
use systemd_cron.Vore.Tokenise.{texts, soft_tokenise}
use systemd_cron.Generator.Field.{count_from, days_set, months_set}
use systemd_cron.Generator.Host.{Host}
use systemd_cron.Generator.Job.Calendar.RoundTrip.{read_calendar-generate_schedule_from_timespec}
use systemd_cron.Generator.Job.Calendar.{read_calendar, calendar_of}
use systemd_cron.Generator.Job.Kept.{generate_schedule_from_period-timespec}
use systemd_cron.Generator.Job.Parse.{timespec_asterisk}
use systemd_cron.Generator.Job.Schedule.{
  generate_schedule, generate_schedule_from_timespec, is_nil, without_zero,
}
use systemd_cron.Generator.Job.Timed.{IsField, IsTimed}
use systemd_cron.Generator.Job.{Job, no_times}
use systemd_cron.Generator.OrderedSet.{number_less, text_less}
use systemd_cron.Generator.Period.Members.{IsSubset-nil}

no_times-IsTimed : IsTimed no_times
no_times-IsTimed = record {
  minute = inr (IsSubset-nil _);
  hour = inr (IsSubset-nil _);
  dom = inr (IsSubset-nil _);
  dow = inr (IsSubset-nil _);
  month = inr (IsSubset-nil _);
}

-- A job before it has a schedule: five time fields and no period, or no time fields.
pub record Unscheduled (j : Job) : Type 0 where
  pub timed : IsTimed j.timespec
  pub either : (j.period ≡ []) ⊎ (j.timespec.minute ≡ [])

-- A set without zeros loses nothing.
without_zero-same : (s : List ℕ) → ((x : ℕ) → In x s → (x == 0) ≡ false) → without_zero s ≡ s
without_zero-same [] h = refl
without_zero-same (x ∷ s) h =
    ground (arith, h x (inl refl), without_zero-same s (λ y m. h y (inr m)))

without_zero-IsField :
    (values : List ℕ)
    → ((x : ℕ) → In x values → (x == 0) ≡ false)
    → (s : List ℕ) → IsField values timespec_asterisk s
    → IsField values timespec_asterisk (without_zero s)
without_zero-IsField values h s (inl e) = rw e (inl refl)
without_zero-IsField values h s (inr k) =
    rw (without_zero-same s (λ x m. h x (k.members x m))) (inr k)

positive : (lo n x : ℕ) → (lo == 0) ≡ false → In x (count_from lo n) → (x == 0) ≡ false
positive lo zero x h m = elim m [ ]
positive lo (suc n) x h (inl e) = rw e h
positive lo (suc n) x h (inr m) = positive (suc lo) n x (ground arith) m

generate_schedule_from_timespec-IsTimed :
    (j : Job) → IsTimed j.timespec → IsTimed (generate_schedule_from_timespec j).timespec
unfolding generate_schedule_from_timespec
generate_schedule_from_timespec-IsTimed j h =
    let erased : IsTimed (record j.timespec {
      month = without_zero j.timespec.month;
      dom = without_zero j.timespec.dom;
    }) =
      record {
        minute = h.minute;
        hour = h.hour;
        dom = without_zero-IsField days_set (λ x. positive 1 31 x refl) j.timespec.dom h.dom;
        dow = h.dow;
        month =
            without_zero-IsField months_set (λ x. positive 1 12 x refl) j.timespec.month h.month;
      } in
    elim (Bool-cases (
      is_nil (without_zero j.timespec.month)
      || is_nil (without_zero j.timespec.dom)
      || is_nil j.timespec.hour
      || is_nil j.timespec.minute)) [ inl e ↦ rw e erased | inr e ↦ rw e erased ]

-- The sets of a job are in order and come from the tables of their fields; and where it is valid
-- and has minutes, its calendar expression is read back as its time fields.
pub record IsSound (j : Job) : Type 0 where
  pub timed : IsTimed j.timespec
  pub read :
      j.valid ≡ true
      → is_nil j.timespec.minute ≡ false
      → read_calendar j.schedule ≡ some (calendar_of j)

pub generate_schedule-IsSound :
    (host : Host) (j : Job) → Unscheduled j → IsSound (generate_schedule host j)
unfolding generate_schedule
generate_schedule-IsSound host j u = elim (Bool-cases (is_nil j.period)) [
  | inl e ↦ rw e (record {
    timed = generate_schedule_from_timespec-IsTimed j u.timed;
    read = λ valid minutes. read_calendar-generate_schedule_from_timespec j valid;
  })
  | inr e ↦
      let same = generate_schedule_from_period-timespec host j in
      rw e (record {
        timed = rw same u.timed;
        read = λ valid minutes. absurd (elim u.either [
          | inl p ↦ let no : is_nil j.period ≡ true = rw p refl in cc
          | inr m ↦
              let none_left = ap (λ t. is_nil t.minute) same ∙ ap is_nil m in
              let no : true ≡ false = sym none_left ∙ minutes in cc
        ]);
      })
]

-- A job that has no time fields yet.
pub untimed : (j k : Job) → k.timespec ≡ j.timespec → j.timespec ≡ no_times → Unscheduled k
untimed j k same none_yet =
    let e : k.timespec ≡ no_times = same ∙ none_yet in
    record { timed = subst IsTimed (sym e) no_times-IsTimed; either = inr (ap (λ t. t.minute) e) }

read_job-Unscheduled :
    (host : Host) (draws : Draws) (c : Crontab) (env : Environment) (line : Bytes)
    → Holds Unscheduled (read_job host draws c env line)
unfolding read_job new_job
read_job-Unscheduled host draws c env line =
    let decoded : Bool → Job = λ persistent.
      decode_environment host env persistent c.mail_success c.mail_format
        (new_job c.filename line) in
    let kept : (b : Bool) → times (decoded b) ≡ times (new_job c.filename line) = λ b.
      decode_environment-times host env b c.mail_success c.mail_format (new_job c.filename line) in
    let bare : (b : Bool) → (decoded b).timespec ≡ no_times = λ b. ap (λ p. p.0) (kept b) in
    Holds-if c.anacrontab _ _
      (record {
        result = untimed (decoded true) _ (parse_anacrontab-timespec (decoded true)) (bare true);
      })
      (Holds-if (starts_with (codes "@") line) _ _
        (record {
          result =
              untimed (decoded true) _ (parse_crontab_at-timespec c.withuser (decoded true))
                (bare true);
        })
        (Holds-weaken
          (parse_crontab_timespec-IsTimed draws c.withuser (decoded false)
            (subst IsTimed (sym (bare false)) no_times-IsTimed))
          (λ k h. record { timed = h.0; either = inl (h.1 ∙ ap (λ p. p.1) (kept false)) })))

pub decode-Unscheduled : (host : Host) (j : Job) → Unscheduled j → Unscheduled (decode host j)
decode-Unscheduled host j u =
    let same = decode-times host j in
    let fields : (decode host j).timespec ≡ j.timespec = ap (λ p. p.0) same in
    record {
      timed = subst IsTimed (sym fields) u.timed;
      either = elim u.either [
        | inl p ↦ inl (ap (λ q. q.1) same ∙ p)
        | inr m ↦ inr (ap (λ t. t.minute) fields ∙ m)
      ];
    }

abbrev pub AreSound : List Job → Type 0
AreSound = Every IsSound

abbrev pub ReadsSound : Reader → Type 0
ReadsSound r = AreSound r.jobs

module _ (host : Host) (draws : ℕ → Draws) (c : Crontab) where
  read_line-Sound :
      (raw : Bytes) (r : Reader) → ReadsSound r → Holds ReadsSound (read_line host draws c raw r)
  unfolding read_line set_variable
  read_line-Sound raw r h =
      let line = trim_end (drop_while is_space raw) in
      Holds-if (equal line [] || starts_with (codes "#") line) _ _ (record { result = h })
        (elim (Option-cases (envvar line)) [
          | inr ((key, value), e) ↦ rw e (record { result = ground (arith, h) })
          | inl e ↦ rw e (
              Holds-bind Unscheduled _ _
                (read_job-Unscheduled host (draws (length r.jobs)) c r.environment line)
                (λ j u. record {
                  result = (generate_schedule-IsSound host _ (decode-Unscheduled host j u), h);
                }))
        ])

  read_lines-Sound :
      (lines : List Bytes) (r : Reader)
      → ReadsSound r
      → Holds ReadsSound (read_lines host draws c lines r)
  unfolding read_lines
  read_lines-Sound [] r h = record { result = h }
  read_lines-Sound (line ∷ lines) r h =
      Holds-bind ReadsSound _ _ (read_line-Sound line r h) (read_lines-Sound lines)

  pub parse_crontab-Holds :
      (env : Environment) (file : File)
      → Holds (λ r. ReadsSound r.1) (parse_crontab host draws c env file)
  unfolding parse_crontab
  parse_crontab-Holds env missing = record { result = tt }
  parse_crontab-Holds env refused = record { result = tt }
  parse_crontab-Holds env unmapped = record { result = tt }
  parse_crontab-Holds env (contents s) =
      Holds-bind ReadsSound _ _
        (read_lines-Sound (texts (soft_tokenise s (codes "\n")))
          (record { environment = env; cron_inherit_variables = []; jobs = [] }) tt)
        (λ r h. record { result = h })

-- Every job that a crontab gives, whatever it holds, has sets in order that come from the tables of
-- their fields, or the asterisk alone; and where it is valid and has minutes, its calendar
-- expression is read back as its time fields.
pub parse_crontab-AreSound :
    (host : Host) (draws : ℕ → Draws) (c : Crontab) (env : Environment) (file : File) (ok : Bool)
    (r : Reader)
    → parse_crontab host draws c env file ≡ done (ok, r)
    → AreSound r.jobs
parse_crontab-AreSound host draws c env file ok r e =
    (subst (Holds (λ q. ReadsSound q.1)) e (parse_crontab-Holds host draws c env file)).result
