-- ===== src/Generator/Job/Parse.antt =====
-- The readers of `Job`: `parse_anacrontab`, `parse_crontab_at`, `parse_crontab_timespec`,
-- `parse_percent` and `parse_time_unit`. A view that ends the tokens keeps its place in the line,
-- so that the input of a job is the rest of the line.
use systemd_cron.Base.{
  ℕ, ◌+◌, ◌-◌, List, [], ◌∷◌, ◌++◌, Option, none, some, Bool, true, false, ◌&&◌, ◌||◌, not,
  if◌then◌else◌, ◌==◌, ltb, Bytes, codes, equal, length, drop, last?, take, lower, min, get_elem?,
}
use systemd_cron.Generator.Field.{
  Mapping, int_map, month_map, dow_map, minutes_set, hours_set, days_set, dows_set, months_set,
}
use systemd_cron.Generator.Job.{Job, TimeFields, WithUser, from_cmd0, from_basename, initial}
use systemd_cron.Generator.OrderedSet.{Less, number_less, text_less}
use systemd_cron.Generator.Period.{Engine, Target, fine, complain, off_range, parse_period}
use systemd_cron.Generator.Run.{Run, done, ◌>>=◌}
use systemd_cron.Vore.Tokenise.{View, soft_tokenise}

-- `find('%', cur)` until one is not behind a backslash: the text before it, and after it. The
-- first argument is the byte before.
unfoldable pub unescaped : Option ℕ → Bytes → Option (Bytes × Bytes)
unescaped before [] = none
unescaped before (c ∷ s) =
    let rest : Option (Bytes × Bytes) = elim (unescaped (some c) s) [
      | none ↦ none
      | some (a, b) ↦ some (c ∷ a, b)
    ] in
    let hidden : Bool = elim before [ none ↦ false | some p ↦ p == b'\\' ] in
    if c == b'%' && not hidden then some ([], s) else rest

-- The words of the command up to the percent sign, and the text behind that.
unfoldable pub split_percent : List View → List View × Bytes
unfolding unescaped
split_percent [] = ([], [])
split_percent (w ∷ ws) = elim (unescaped none w.text) [
  | some (a, b) ↦ (record { text = a; after = codes "%" ++ b ++ w.after } ∷ [], b ++ w.after)
  | none ↦ (w ∷ (split_percent ws).0, (split_percent ws).1)
]

unfoldable pub parse_percent : Job → Job
unfolding split_percent
parse_percent j =
    let (words, input) = split_percent j.command.words in
    record j { command = record j.command { words = words }; input_data = input }

abbrev pub text_at : List View → ℕ → Bytes
text_at parts i = elim (get_elem? parts i) [ none ↦ [] | some v ↦ v.text ]

unfoldable pub parse_anacrontab : Job → Job
unfolding int_map
parse_anacrontab j = if ltb (length j.parts) 4 then record j { valid = false } else record j {
  period = text_at j.parts 0;
  jobid = codes "anacron-" ++ text_at j.parts 2;
  boot_delay = (int_map (text_at j.parts 1) false false).0;
  command = record j.command { words = drop 3 j.parts; nopercent = true };
}

-- `withuser == withuser_t::from_cmd0`, as a number.
abbrev pub one_for_user : WithUser → ℕ
one_for_user from_cmd0 = 1
one_for_user from_basename = 0
one_for_user initial = 0

-- The `switch` on `withuser` and the three lines behind it, where `n` fields give the time.
unfoldable pub take_command : WithUser → ℕ → Job → Job
unfolding parse_percent
take_command withuser n j =
    let user : Bytes = elim withuser [
      | from_cmd0 ↦ text_at j.parts n
      | from_basename ↦ j.basename
      | initial ↦ j.user
    ] in
    parse_percent (record j {
      user = user;
      command = record j.command { words = drop (n + one_for_user withuser) j.parts };
      jobid = j.basename ++ codes "-" ++ user;
    })

unfoldable pub parse_crontab_at : WithUser → Job → Job
unfolding take_command
parse_crontab_at withuser j =
    if ltb (length j.parts) (2 + one_for_user withuser)
    then record j { valid = false }
    else take_command withuser 1 (record j { period = text_at j.parts 0 })

-- What `parse_time_unit` leaves: its result, `valid`, and the text for hashing.
pub record Parsed (A : Type 0) : Type 0 where
  pub set : List A
  pub ok : Bool
  pub raw : Option Bytes

abbrev pub timespec_asterisk : ℕ
timespec_asterisk = 255

unfoldable pub min_element : List ℕ → ℕ
min_element [] = 0
min_element (x ∷ []) = x
min_element (x ∷ y ∷ xs) = min x (min_element (y ∷ xs))

module _ (draw : Engine) {A : Type 0} ⦃o : Less A⦄ (values : List A) (mapping : Mapping) where
  -- The loop over the elements: the sets so far, and whether no element was refused.
  unfoldable pub parse_elements : ℕ → List View → Target A → Run (Bool × Target A)
  parse_elements base [] t = done (true, t)
  parse_elements base (v ∷ vs) t = do
    r ← parse_period draw values mapping base v.text t
    elim r.0 [
      | fine ↦ parse_elements base vs r.1
      | complain message ↦ done (false, r.1)
      | off_range ↦ done (false, r.1)
    ]

  unfoldable pub parse_time_unit : Bool → A → ℕ → Bytes → Run (Parsed A)
  unfolding parse_elements
  parse_time_unit persistent asterisk base value =
      if equal value (codes "*")
      then done (record { set = asterisk ∷ []; ok = true; raw = none })
      else do
        r ←
            parse_elements base (soft_tokenise value (codes ","))
              (record { into = []; raw_for_schedule = false; drawn = 0 })
        done (record {
          set = if r.0 then r.1.into else [];
          ok = r.0;
          raw = if r.0 && r.1.raw_for_schedule && persistent then some value else none;
        })

-- The engines of the five instances of `parse_period`, from this job on.
pub record Draws : Type 0 where
  pub minute : Engine
  pub hour : Engine
  pub dom : Engine
  pub dow : Engine
  pub month : Engine

-- `last_dow`: two bytes, the second an L.
unfoldable pub ends_in_l : Bytes → Bool
ends_in_l (a ∷ b ∷ []) = b == b'L'
ends_in_l [] = false
ends_in_l (a ∷ []) = false
ends_in_l (a ∷ b ∷ c ∷ s) = false

-- Does the field end in 7 or in the name of Sunday?
unfoldable pub ends_in_sunday : Bytes → Bool
ends_in_sunday dows =
    let seven : Bool = elim (last? dows) [ none ↦ false | some c ↦ c == b'7' ] in
    seven || (not (ltb (length dows) 3) && equal (lower (back 3 dows)) (codes "sun"))
  where
    back : ℕ → Bytes → Bytes
    back n s = drop (length s - n) s

unfoldable pub parse_numbers : Engine → List ℕ → Mapping → Bool → Bytes → Run (Parsed ℕ)
unfolding parse_time_unit min_element
parse_numbers draw values mapping persistent value =
    parse_time_unit draw values mapping persistent timespec_asterisk (min_element values) value

unfoldable pub parse_fields :
    Draws → Bool → Bytes → Bytes → Bytes → Bytes → Bytes → Run (TimeFields × Bool)
unfolding parse_numbers parse_time_unit
parse_fields draws persistent minutes hours days months dows = do
  minute ← parse_numbers draws.minute minutes_set int_map persistent minutes
  hour ← parse_numbers draws.hour hours_set int_map persistent hours
  dom ← parse_numbers draws.dom days_set int_map persistent days
  dow ← parse_time_unit draws.dow dows_set dow_map persistent (codes "*") 0 dows
  month ← parse_numbers draws.month months_set month_map persistent months
  done (
    record {
      minute = minute.set;
      hour = hour.set;
      dom = dom.set;
      dow = dow.set;
      month = month.set;
      minute_raw = minute.raw;
      hour_raw = hour.raw;
      dom_raw = dom.raw;
      dow_raw = dow.raw;
      month_raw = month.raw;
    },
    minute.ok && hour.ok && dom.ok && dow.ok && month.ok,
  )

unfoldable pub parse_crontab_timespec : Draws → WithUser → Job → Run Job
unfolding parse_fields take_command ends_in_l ends_in_sunday
parse_crontab_timespec draws withuser j =
    let last_dom = equal (text_at j.parts 2) (codes "L") in
    let last_dow = ends_in_l (text_at j.parts 4) in
    let days =
      if last_dom then codes "1" else if last_dow then codes "7/1" else text_at j.parts 2 in
    let dows = if not last_dom && last_dow then take 1 (text_at j.parts 4) else text_at j.parts 4 in
    if ltb (length j.parts) (6 + one_for_user withuser)
    then done (record j { valid = false })
    else do
      r ←
          parse_fields draws j.persistent (text_at j.parts 0) (text_at j.parts 1) days
            (text_at j.parts 3) dows
      done (
          take_command withuser 5 (record j {
            timespec = r.0;
            valid = j.valid && r.1;
            last_dom = last_dom;
            last_dow = last_dow;
            sunday_is_seven = ends_in_sunday dows;
          }))
