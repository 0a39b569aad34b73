-- ===== src/Generator/Job/Schedule.antt =====
-- `generate_schedule` of `Job`: the calendar expression of a period such as `@daily`, or of five
-- time fields.
use systemd_cron.Base.Decimal.{decimal}
use systemd_cron.Base.{
  ℕ, List, [], ◌∷◌, ◌++◌, Option, none, some, Bool, true, false, ◌&&◌, ◌||◌, not, if◌then◌else◌,
  ◌==◌, ltb, Bytes, codes, equal, drop, take, lower, less, drop_while, keep, map,
}
use systemd_cron.Generator.Field.{int_map, dows_set}
use systemd_cron.Generator.Host.{Host}
use systemd_cron.Generator.Job.Parse.{timespec_asterisk}
use systemd_cron.Generator.Job.{Job}

-- `std::lower_bound` on the keys, and the test that the entry it finds is not greater.
unfoldable pub binary_find : List (Bytes × Bytes) → Bytes → Option Bytes
binary_find [] val = none
binary_find ((k, v) ∷ table) val =
    let rest = binary_find table val in
    if less k val then rest else if less val k then none else some v

abbrev pub replacements : List (Bytes × Bytes)
replacements =
    (codes "1", codes "daily")
    ∷ (codes "30", codes "monthly")
    ∷ (codes "31", codes "monthly")
    ∷ (codes "365", codes "yearly")
    ∷ (codes "7", codes "weekly")
    ∷ (codes "annually", codes "yearly")
    ∷ (codes "anually", codes "yearly")
    ∷ (codes "bi-annually", codes "semi-annually")
    ∷ (codes "biannually", codes "semi-annually")
    ∷ (codes "boot", codes "reboot")
    ∷ (codes "semiannually", codes "semi-annually")
    ∷ []

unfoldable pub is_time_unit : Bytes → Bool
is_time_unit s =
    equal s (codes "daily")
    || equal s (codes "monthly")
    || equal s (codes "quarterly")
    || equal s (codes "semi-annually")
    || equal s (codes "weekly")
    || equal s (codes "yearly")

-- The name of the period: in lower case, without the @, with its synonyms replaced.
unfoldable pub normal_period : Bytes → Bytes
unfolding binary_find
normal_period period =
    let p = lower (drop_while (λ c. c == b'@') period) in
    elim (binary_find replacements p) [ none ↦ p | some v ↦ v ]

-- `printf("<days> %zu:%zu:0", hour, boot_delay)`.
unfoldable pub at_hour : Bytes → ℕ → ℕ → Bytes
at_hour days hour delay =
    days ++ codes " " ++ decimal hour ++ codes ":" ++ decimal delay ++ codes ":0"

-- The days of a period that is one of the time units.
unfoldable pub unit_days : Bytes → Option Bytes
unit_days p =
    if equal p (codes "daily")
    then some (codes "*-*-*")
    else if equal p (codes "weekly")
    then some (codes "Mon *-*-*")
    else if equal p (codes "monthly")
    then some (codes "*-*-1")
    else if equal p (codes "quarterly")
    then some (codes "*-1,4,7,10-1")
    else if equal p (codes "semi-annually")
    then some (codes "*-1,7-1")
    else if equal p (codes "yearly")
    then some (codes "*-1-1")
    else none

-- The days of a period that is a number.
unfoldable pub number_days : Host → ℕ → Bytes
number_days host prd =
    if ltb 31 prd
    then codes "*-1/" ++ decimal (host.round_thirtieth prd) ++ codes "-1"
    else codes "*-*-1/" ++ decimal prd

-- The last branches, from `daily` with an hour on. A period that is no number is the schedule
-- itself, and `schedule_raw` is left alone.
unfoldable pub schedule_from_name : Host → Bytes → Job → Job
unfolding unit_days number_days at_hour int_map
schedule_from_name host p j =
    let with_days : Bytes → Job = λ days.
      let schedule = at_hour days j.start_hour j.boot_delay in
      record j {
        schedule = schedule;
        schedule_raw = if j.persistent then schedule else j.schedule_raw;
      } in
    elim (unit_days p) [
      | some days ↦ with_days days
      | none ↦
          if (int_map p false false).1
          then record j { schedule = p }
          else with_days (number_days host (int_map p false false).0)
    ]

-- A schedule that the text of the period gives.
unfoldable pub plain_schedule : Bytes → Job → Job
plain_schedule schedule j = record j {
  schedule = schedule;
  schedule_raw = if j.persistent then schedule else j.schedule_raw;
}

unfoldable pub schedule_for : Host → Bytes → Job → Job
unfolding schedule_from_name plain_schedule is_time_unit at_hour
schedule_for host p j =
    if equal p (codes "reboot")
    then record j {
      boot_delay = if ltb j.boot_delay 1 then 1 else j.boot_delay;
      schedule = p;
      persistent = false;
    }
    else if equal p (codes "minutely")
    then record j { schedule = p; persistent = false }
    else if equal p (codes "hourly") && j.boot_delay == 0
    then plain_schedule (codes "hourly") j
    else if equal p (codes "hourly")
    then record (plain_schedule (codes "*-*-* *:" ++ decimal j.boot_delay ++ codes ":0") j) {
      boot_delay = 0;
    }
    else if equal p (codes "midnight") && j.boot_delay == 0
    then plain_schedule (codes "daily") j
    else if equal p (codes "midnight")
    then plain_schedule (at_hour (codes "*-*-*") 0 j.boot_delay) j
    else if is_time_unit p && j.start_hour == 0 && j.boot_delay == 0
    then plain_schedule p j
    else schedule_from_name host p j

unfoldable pub generate_schedule_from_period : Host → Job → Job
unfolding schedule_for normal_period
generate_schedule_from_period host j =
    let p = normal_period j.period in schedule_for host p (record j { period = p })

-- The texts of a list with commas between them.
unfoldable pub commas : List Bytes → Bytes
commas [] = []
commas (x ∷ []) = x
commas (x ∷ y ∷ xs) = x ++ codes "," ++ commas (y ∷ xs)

unfoldable pub member : Bytes → List Bytes → Bool
member s [] = false
member s (x ∷ xs) = equal x s || member s xs

abbrev pub week : Bool → List Bytes
week sunday_is_seven = if sunday_is_seven then drop 1 dows_set else take 7 dows_set

unfoldable pub days_of_week : Bool → List Bytes → Bytes
unfolding commas member
days_of_week sunday_is_seven dow =
    let is_any : Bool = elim dow [
      | [] ↦ false
      | d ∷ [] ↦ equal d (codes "*")
      | d ∷ e ∷ ds ↦ false
    ] in
    if is_any then [] else commas (keep (λ d. member d dow) (week sunday_is_seven)) ++ codes " "

-- The numbers of a field, with commas between them.
unfoldable pub field_text : List ℕ → Bytes
unfolding commas
field_text xs = commas (map (λ n. if n == timespec_asterisk then codes "*" else decimal n) xs)

-- What `timespec_comma` adds to the text for hashing.
unfoldable pub raw_text : List ℕ → Option Bytes → Bytes
unfolding field_text
raw_text xs none = field_text xs
raw_text xs (some raw) = raw

abbrev pub dows_text : Bytes → Option Bytes → Bytes
dows_text dows none = dows
dows_text dows (some raw) = raw

abbrev pub is_nil {ℓ} : {A : Type ℓ} → List A → Bool
is_nil [] = true
is_nil (x ∷ xs) = false

-- `set.erase(0)`.
abbrev pub without_zero : List ℕ → List ℕ
without_zero = keep (λ n. not (n == 0))

-- `schedule`, and `schedule_raw` of a persistent job, from the fields.
abbrev pub joined : Bool → Bool → Bytes → Bytes → Bytes → Bytes → Bytes → Bytes
joined last_dow last_dom dows month dom hour minute =
    dows
    ++ codes "*-"
    ++ month
    ++ (if last_dow || last_dom then codes "~" else codes "-")
    ++ dom
    ++ (if last_dow then codes "/1" else [])
    ++ codes " "
    ++ hour
    ++ codes ":"
    ++ minute
    ++ codes ":00"

unfoldable pub generate_schedule_from_timespec : Job → Job
unfolding days_of_week field_text raw_text
generate_schedule_from_timespec j =
    let dows = days_of_week j.sunday_is_seven j.timespec.dow in
    let month = without_zero j.timespec.month in
    let dom = without_zero j.timespec.dom in
    let erased = record j { timespec = record j.timespec { month = month; dom = dom } } in
    if is_nil month || is_nil dom || is_nil j.timespec.hour || is_nil j.timespec.minute
    then record erased { valid = false }
    else record erased {
      schedule =
          joined j.last_dow j.last_dom dows (field_text month) (field_text dom)
            (field_text j.timespec.hour) (field_text j.timespec.minute);
      schedule_raw =
          if j.persistent
          then joined j.last_dow j.last_dom (dows_text dows j.timespec.dow_raw)
              (raw_text month j.timespec.month_raw) (raw_text dom j.timespec.dom_raw)
              (raw_text j.timespec.hour j.timespec.hour_raw)
              (raw_text j.timespec.minute j.timespec.minute_raw)
          else j.schedule_raw;
    }

unfoldable pub generate_schedule : Host → Job → Job
unfolding generate_schedule_from_period generate_schedule_from_timespec
generate_schedule host j =
    if is_nil j.period
    then generate_schedule_from_timespec j
    else generate_schedule_from_period host j
