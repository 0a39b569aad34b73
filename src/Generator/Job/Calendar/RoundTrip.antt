-- ===== src/Generator/Job/Calendar/RoundTrip.antt =====
-- The calendar expression of a job, read back.
use systemd_cron.Base.{
  ℕ, ◌≡◌, refl, ◌∙◌, List, [], ◌∷◌, ◌++◌, some, Bool, true, false, ◌||◌, arith, Bytes, codes,
  contains, contains-append, inl, inr, Bool-cases,
}
use systemd_cron.Generator.Job.Calendar.Days.{read_days-days_of_week, contains-days_of_week}
use systemd_cron.Generator.Job.Calendar.Fields.{contains-field_text, read_field-field_text}
use systemd_cron.Generator.Job.Calendar.Read.{
  IsPlain, read_calendar-chain, halves_from_end, halves_from_start, day_part_repeated,
  day_part_once, chain,
}
use systemd_cron.Generator.Job.Calendar.{read_calendar, read_field, read_days, calendar_of}
use systemd_cron.Generator.Job.Schedule.{
  joined, field_text, days_of_week, is_nil, without_zero, generate_schedule_from_timespec,
}
use systemd_cron.Generator.Job.{Job}

field_text-IsPlain : (xs : List ℕ) → IsPlain (field_text xs)
field_text-IsPlain xs = record { lacks = λ c h k. contains-field_text c xs h k }

-- No blank among the months and the days.
chain_without_blank :
    (m day mark behind : Bytes)
    → IsPlain m
    → IsPlain day
    → contains b' ' mark ≡ false
    → contains b' ' behind ≡ false
    → contains b' ' (chain m (mark ∷ day ∷ behind ∷ [])) ≡ false
chain_without_blank m day mark behind pm pd hm hb = ground (
  arith,
  contains-append b' ' (m ++ mark ++ day) behind,
  contains-append b' ' (m ++ mark) day,
  contains-append b' ' m mark,
  pm.lacks b' ' refl refl,
  pd.lacks b' ' refl refl,
)

module _ (d m day h mi : Bytes) (no_star : contains b'*' d ≡ false) (pm : IsPlain m)
    (pd : IsPlain day) (ph : IsPlain h) (pi : IsPlain mi) where
  read_calendar-joined :
      (last_dow last_dom : Bool)
      → read_calendar (joined last_dow last_dom d m day h mi)
        ≡ some (record {
          days = read_days d;
          month = read_field m;
          dom = read_field day;
          from_end = last_dow || last_dom;
          repeated = last_dow;
          hour = read_field h;
          minute = read_field mi;
        })
  unfolding contains
  read_calendar-joined true last_dom =
      read_calendar-chain m day h mi ph pi d (codes "~") (codes "/1") (day ++ codes "/1") true true
        no_star (chain_without_blank m day (codes "~") (codes "/1") pm pd refl refl)
        (halves_from_end m day pm pd (codes "/1")) (day_part_repeated day pd)
  read_calendar-joined false true =
      read_calendar-chain m day h mi ph pi d (codes "~") [] (day ++ []) true false no_star
        (chain_without_blank m day (codes "~") [] pm pd refl refl) (halves_from_end m day pm pd [])
        (day_part_once day pd)
  read_calendar-joined false false =
      read_calendar-chain m day h mi ph pi d (codes "-") [] (day ++ []) false false no_star
        (chain_without_blank m day (codes "-") [] pm pd refl refl) (halves_from_start m day pm pd)
        (day_part_once day pd)

-- A job of five time fields that stays valid gets a calendar expression that is read back as just
-- those fields: its days of the week in their order, its months, days, hours and minutes, whether
-- the days count from the end of the month, and whether the day repeats.
pub read_calendar-generate_schedule_from_timespec :
    (j : Job)
    → (generate_schedule_from_timespec j).valid ≡ true
    → read_calendar (generate_schedule_from_timespec j).schedule
      ≡ some (calendar_of (generate_schedule_from_timespec j))
unfolding generate_schedule_from_timespec
read_calendar-generate_schedule_from_timespec j h =
    let t = j.timespec in
    let month = without_zero t.month in
    let dom = without_zero t.dom in
    let whole =
      read_calendar-joined (days_of_week j.sunday_is_seven t.dow) (field_text month)
        (field_text dom) (field_text t.hour) (field_text t.minute)
        (contains-days_of_week j.sunday_is_seven t.dow) (field_text-IsPlain month)
        (field_text-IsPlain dom) (field_text-IsPlain t.hour) (field_text-IsPlain t.minute)
        j.last_dow j.last_dom in
    elim (Bool-cases (is_nil month || is_nil dom || is_nil t.hour || is_nil t.minute)) [
      | inl e ↦ absurd (let no : false ≡ true = rw e at h in cc)
      | inr e ↦ rw e (
          whole
          ∙ rw
              (
                read_days-days_of_week j.sunday_is_seven t.dow,
                read_field-field_text month (ground arith),
                read_field-field_text dom (ground arith),
                read_field-field_text t.hour (ground arith),
                read_field-field_text t.minute (ground arith),
              )
              refl)
    ]
