-- ===== src/Generator/Job/Timespec.antt =====
-- The calendar expression of five time fields.
use systemd_cron.Base.{refl}
use systemd_cron.Base.{
  Bool-cases, inl, inr, List, ℕ, Bytes, arith, ◌≡◌, Option, none, some, Bool, true, false, not,
  ◌&&◌, arith,
}
use systemd_cron.Generator.Job.Schedule.{
  raw_text, field_text, days_of_week, dows_text, generate_schedule_from_timespec, is_nil,
  without_zero, field_text, days_of_week,
}
use systemd_cron.Generator.Job.{Job, TimeFields}

-- A time that every field leaves possible: no set is empty once zeros are gone.
abbrev pub is_possible : TimeFields → Bool
is_possible t =
    not (is_nil (without_zero t.month))
    && not (is_nil (without_zero t.dom))
    && not (is_nil t.hour)
    && not (is_nil t.minute)

-- Was no field drawn at random?
abbrev is_none {ℓ} : {A : Type ℓ} → Option A → Bool
is_none none = true
is_none (some a) = false

abbrev pub is_fixed : TimeFields → Bool
is_fixed t =
    is_none t.minute_raw
    && is_none t.hour_raw
    && is_none t.dom_raw
    && is_none t.dow_raw
    && is_none t.month_raw

-- A job of five fields stays valid exactly if it was, and no set of months, days of the month,
-- hours or minutes is empty.
pub generate_schedule_from_timespec-valid :
    (j : Job) → (generate_schedule_from_timespec j).valid ≡ (is_possible j.timespec && j.valid)
unfolding generate_schedule_from_timespec
generate_schedule_from_timespec-valid j = elim (Bool-cases (is_possible j.timespec)) [
  | inl h ↦ ground arith
  | inr h ↦ ground arith
]

raw_text_fixed :
    (xs : List ℕ) (raw : Option Bytes) → is_none raw ≡ true → raw_text xs raw ≡ field_text xs
unfolding raw_text
raw_text_fixed xs none h = refl
raw_text_fixed xs (some raw) h = cc

dows_fixed : (dows : Bytes) (raw : Option Bytes) → is_none raw ≡ true → dows_text dows raw ≡ dows
dows_fixed dows none h = refl
dows_fixed dows (some raw) h = cc

-- Where no field is drawn at random and the time is possible, the text that names a persistent job's units is the calendar
-- expression itself.
pub generate_schedule_from_timespec-raw :
    (j : Job)
    → is_possible j.timespec ≡ true
    → is_fixed j.timespec ≡ true
    → j.persistent ≡ true
    → (generate_schedule_from_timespec j).schedule_raw
      ≡ (generate_schedule_from_timespec j).schedule
unfolding generate_schedule_from_timespec
generate_schedule_from_timespec-raw j h f p =
    let t = j.timespec in
    ground (
      arith,
      raw_text_fixed (without_zero t.month) t.month_raw,
      raw_text_fixed (without_zero t.dom) t.dom_raw,
      raw_text_fixed t.hour t.hour_raw,
      raw_text_fixed t.minute t.minute_raw,
      dows_fixed (days_of_week j.sunday_is_seven t.dow) t.dow_raw,
    )
