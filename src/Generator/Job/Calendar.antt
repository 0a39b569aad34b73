-- ===== src/Generator/Job/Calendar.antt =====
-- Reading a calendar expression back, by the form that systemd.time gives it: days of the week, a
-- year, months, days of the month from its start or its end, hours and minutes.
pub mod Fields
pub mod Read
pub mod Days
pub mod RoundTrip
use systemd_cron.Base.{
  ℕ, List, [], ◌∷◌, Option, none, some, Bool, true, false, if◌then◌else◌, ◌==◌, Bytes, codes, equal,
  cut, drop, init, map, ◌||◌, keep,
}
use systemd_cron.Base.Decimal.{value}
use systemd_cron.Generator.Job.Parse.{timespec_asterisk}
use systemd_cron.Generator.Job.Schedule.{is_nil, week, member}
use systemd_cron.Generator.Job.{Job}

-- The pieces of a text between the places of a byte.
abbrev pub on_head : (Bytes → Bytes) → List Bytes → List Bytes
on_head f [] = []
on_head f (p ∷ ps) = f p ∷ ps

unfoldable pub pieces : ℕ → Bytes → List Bytes
pieces c [] = [] ∷ []
pieces c (x ∷ s) = if x == c then [] ∷ pieces c s else on_head (λ p. x ∷ p) (pieces c s)

unfoldable pub read_value : Bytes → ℕ
read_value s = if equal s (codes "*") then timespec_asterisk else value 0 s

unfoldable pub read_field : Bytes → List ℕ
unfolding pieces read_value
read_field s = map read_value (pieces b',' s)

-- Any day where there is none.
unfoldable pub read_days : Bytes → List Bytes
unfolding pieces
read_days s = keep (λ d. if is_nil d then false else true) (pieces b',' (init s))

pub record Calendar : Type 0 where
  pub days : List Bytes
  pub month : List ℕ
  pub dom : List ℕ
  pub from_end : Bool
  pub repeated : Bool
  pub hour : List ℕ
  pub minute : List ℕ

-- Months, whether the days count from the end, and the days.
abbrev pub halves : Bytes → Option (Bytes × Bool × Bytes)
halves s = elim (cut b'~' s) [
  | some (a, b) ↦ some (a, true, b)
  | none ↦ elim (cut b'-' s) [ none ↦ none | some (a, b) ↦ some (a, false, b) ]
]

abbrev pub day_part : Bytes → Bytes × Bool
day_part s = elim (cut b'/' s) [ none ↦ (s, false) | some (a, b) ↦ (a, true) ]

abbrev pub read_time : Bytes → Option (Bytes × Bytes)
read_time s = elim (cut b':' s) [
  | none ↦ none
  | some (hour, rest) ↦ elim (cut b':' rest) [
    | none ↦ none
    | some (minute, seconds) ↦ some (hour, minute)
  ]
]

unfoldable pub read_calendar : Bytes → Option Calendar
unfolding read_field read_days
read_calendar s = elim (cut b'*' s) [
  | none ↦ none
  | some (days, rest) ↦ elim (cut b' ' (drop 1 rest)) [
    | none ↦ none
    | some (date, time) ↦ elim (halves date) [
      | none ↦ none
      | some (month, from_end, day) ↦ elim (read_time time) [
        | none ↦ none
        | some (hour, minute) ↦ some (record {
          days = read_days days;
          month = read_field month;
          dom = read_field (day_part day).0;
          from_end = from_end;
          repeated = (day_part day).1;
          hour = read_field hour;
          minute = read_field minute;
        })
      ]
    ]
  ]
]

-- The days of the week of a job, in the order of the week; none for any day.
abbrev pub days_of : Bool → List Bytes → List Bytes
days_of sunday_is_seven dow = elim dow [
  | [] ↦ []
  | d ∷ [] ↦
      if equal d (codes "*") then [] else keep (λ e. member e (d ∷ [])) (week sunday_is_seven)
  | d ∷ e ∷ ds ↦ keep (λ f. member f (d ∷ e ∷ ds)) (week sunday_is_seven)
]

-- What a job of five time fields asks for.
abbrev pub calendar_of : Job → Calendar
calendar_of j = record {
  days = days_of j.sunday_is_seven j.timespec.dow;
  month = j.timespec.month;
  dom = j.timespec.dom;
  from_end = j.last_dow || j.last_dom;
  repeated = j.last_dow;
  hour = j.timespec.hour;
  minute = j.timespec.minute;
}
