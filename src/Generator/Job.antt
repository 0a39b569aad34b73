-- ===== src/Generator/Job.antt =====
-- The struct `Job`: one entry of a crontab on its way to a service and a timer. The messages that
-- it logs are left out; a text that the source holds as a view of the line is a list of bytes.
pub mod Parse
pub mod Schedule
pub mod Exec
pub mod Describe
pub mod Unit
pub mod Termination
pub mod Timed
pub mod Calendar
pub mod Kept
pub mod Booleans
pub mod Timespec
pub mod Percent
pub mod Names
pub mod Input
use systemd_cron.Base.{
  ℕ, List, [], ◌∷◌, Option, none, some, Bool, true, false, ◌&&◌, ◌||◌, if◌then◌else◌, ◌==◌, Bytes,
  codes, equal, cut, to_lower, drop, starts_with,
}
use systemd_cron.Generator.Environment.{Environment, emplace_entry}
use systemd_cron.Generator.Field.{int_map}
use systemd_cron.Generator.Host.{Host}
use systemd_cron.Vore.Tokenise.{View, soft_tokenise}

pub data WithUser : Type 0 where
  from_cmd0 : WithUser
  from_basename : WithUser
  initial : WithUser

pub data CronMailSuccess : Type 0 where
  never : CronMailSuccess
  always : CronMailSuccess
  nonempty : CronMailSuccess

pub data CronMailFormat : Type 0 where
  normal : CronMailFormat
  nometadata : CronMailFormat

-- The fields `timespec_*`.
pub record TimeFields : Type 0 where
  pub minute : List ℕ
  pub hour : List ℕ
  pub dom : List ℕ
  pub dow : List Bytes
  pub month : List ℕ
  pub minute_raw : Option Bytes
  pub hour_raw : Option Bytes
  pub dom_raw : Option Bytes
  pub dow_raw : Option Bytes
  pub month_raw : Option Bytes

-- `command0`, and the views of `command`.
pub record Command : Type 0 where
  pub words : List View
  pub command0 : Option Bytes
  pub nopercent : Bool

pub record Job : Type 0 where
  pub filename : Bytes
  pub basename : Bytes
  pub line : Bytes
  pub parts : List View
  pub environment : Environment
  pub shell : Bytes
  pub random_delay : ℕ
  pub period : Bytes
  pub timezone : Option Bytes
  pub timespec : TimeFields
  pub sunday_is_seven : Bool
  pub last_dom : Bool
  pub last_dow : Bool
  pub schedule : Bytes
  pub schedule_raw : Bytes
  pub boot_delay : ℕ
  pub start_hour : ℕ
  pub persistent : Bool
  pub cron_unique_units : Bool
  pub batch : Bool
  pub cron_batch_loadavg_below : Bytes
  pub cron_batch_throttle_group : Bytes
  pub jobid : Bytes
  pub unit_name : Bytes
  pub user : Bytes
  pub user_home : Option Bytes
  pub user_uid : ℕ
  pub user_gid : ℕ
  pub cron_log_namespace : Bytes
  pub cron_mail_success : CronMailSuccess
  pub cron_mail_format : CronMailFormat
  pub command : Command
  pub execstart : Bytes
  pub input_data : Bytes
  pub valid : Bool

abbrev pub no_times : TimeFields
no_times = record {
  minute = [];
  hour = [];
  dom = [];
  dow = [];
  month = [];
  minute_raw = none;
  hour_raw = none;
  dom_raw = none;
  dow_raw = none;
  month_raw = none;
}

-- `vore::basename`: what follows the last slash.
unfoldable pub basename : Bytes → Bytes
basename s = elim (cut_last s) [ none ↦ s | some t ↦ t ]
  where
    cut_last : Bytes → Option Bytes
    cut_last [] = none
    cut_last (c ∷ s) = elim (cut_last s) [
      | some t ↦ some t
      | none ↦ if c == b'/' then some s else none
    ]

-- The constructor. `persistent` is set by `decode_environment`, before anything reads it.
unfoldable pub new_job : Bytes → Bytes → Job
unfolding basename soft_tokenise
new_job filename line = record {
  filename = filename;
  basename = basename filename;
  line = line;
  parts = soft_tokenise line (codes " \t\n");
  environment = [];
  shell = codes "/bin/sh";
  random_delay = 0;
  period = [];
  timezone = none;
  timespec = no_times;
  sunday_is_seven = false;
  last_dom = false;
  last_dow = false;
  schedule = [];
  schedule_raw = [];
  boot_delay = 0;
  start_hour = 0;
  persistent = false;
  cron_unique_units = false;
  batch = false;
  cron_batch_loadavg_below = [];
  cron_batch_throttle_group = [];
  jobid = [];
  unit_name = [];
  user = codes "root";
  user_home = none;
  user_uid = 0;
  user_gid = 0;
  cron_log_namespace = [];
  cron_mail_success = nonempty;
  cron_mail_format = normal;
  command = record { words = []; command0 = none; nopercent = false };
  execstart = [];
  input_data = [];
  valid = true;
}

-- `!strncasecmp(string.data(), literal, string.size())`, with a literal in lower case.
unfoldable pub same_nocase : Bytes → Bytes → Bool
same_nocase [] l = true
same_nocase (c ∷ s) [] = c == 0
same_nocase (c ∷ s) (d ∷ l) = to_lower c == d && same_nocase s l

unfoldable pub systemd_bool : Bytes → Bool
systemd_bool s =
    same_nocase s (codes "1") || same_nocase s (codes "yes") || same_nocase s (codes "true")

unfoldable pub systemd_bool_false : Bytes → Bool
systemd_bool_false s =
    same_nocase s (codes "0") || same_nocase s (codes "no") || same_nocase s (codes "false")

unfoldable pub decode_mail_success : CronMailSuccess → Bytes → CronMailSuccess → CronMailSuccess
unfolding systemd_bool systemd_bool_false
decode_mail_success default v old =
    if equal v (codes "never") || systemd_bool_false v
    then never
    else if equal v (codes "always") || systemd_bool v
    then always
    else if equal v (codes "nonempty") || equal v (codes "non-empty")
    then nonempty
    else if equal v (codes "inherit")
    then default
    else old

unfoldable pub decode_mail_format : CronMailFormat → Bytes → CronMailFormat → CronMailFormat
decode_mail_format default v old =
    if equal v (codes "normal")
    then normal
    else if equal v (codes "nometadata") || equal v (codes "no-metadata")
    then nometadata
    else if equal v (codes "inherit")
    then default
    else old

-- `TZ` and `CRON_TZ`.
unfoldable pub decode_timezone : Host → Bytes → Option Bytes → Option Bytes
decode_timezone host v old =
    let tz = if starts_with (codes ":") v then drop 1 v else v in
    if equal tz [] then none else if host.zone_exists tz then some tz else old

-- The last `else`: a variable for the job itself.
unfoldable pub decode_other : Host → Bytes → Bytes → Job → Job
unfolding decode_timezone emplace_entry
decode_other host k v j = record j {
  shell = if equal k (codes "SHELL") then v else j.shell;
  timezone =
      if equal k (codes "TZ") || equal k (codes "CRON_TZ")
      then decode_timezone host v j.timezone
      else j.timezone;
  environment = emplace_entry k v j.environment;
}

unfoldable pub decode_start_hour : Bytes → ℕ → ℕ
unfolding int_map
decode_start_hour v old = elim (cut b'-' v) [ none ↦ old | some (a, b) ↦ (int_map a false false).0 ]

unfoldable pub decode_variable : Host → CronMailSuccess → CronMailFormat → Bytes → Bytes → Job → Job
unfolding systemd_bool decode_mail_success decode_mail_format decode_other decode_start_hour int_map
decode_variable host success format k v j =
    if equal k (codes "PERSISTENT")
    then record j { persistent = systemd_bool v }
    else if equal k (codes "CRON_UNIQUE_UNITS")
    then record j { cron_unique_units = systemd_bool v }
    else if equal k (codes "RANDOM_DELAY")
    then record j { random_delay = (int_map v false false).0 }
    else if equal k (codes "START_HOURS_RANGE")
    then record j { start_hour = decode_start_hour v j.start_hour }
    else if equal k (codes "DELAY")
    then record j { boot_delay = (int_map v false false).0 }
    else if equal k (codes "BATCH")
    then record j { batch = systemd_bool v }
    else if equal k (codes "CRON_BATCH_LOADAVG_BELOW")
    then record j { cron_batch_loadavg_below = v }
    else if equal k (codes "CRON_BATCH_THROTTLE_GROUP")
    then record j { cron_batch_throttle_group = v }
    else if equal k (codes "CRON_LOG_NAMESPACE")
    then record j { cron_log_namespace = v }
    else if equal k (codes "CRON_MAIL_SUCCESS")
    then record j { cron_mail_success = decode_mail_success success v j.cron_mail_success }
    else if equal k (codes "CRON_MAIL_FORMAT")
    then record j { cron_mail_format = decode_mail_format format v j.cron_mail_format }
    else decode_other host k v j

unfoldable pub decode_variables : Host → CronMailSuccess → CronMailFormat → Environment → Job → Job
decode_variables host success mail_format [] j = j
decode_variables host success mail_format ((k, v) ∷ env) j =
    decode_variables host success mail_format env (decode_variable host success mail_format k v j)

unfoldable pub decode_environment :
    Host → Environment → Bool → CronMailSuccess → CronMailFormat → Job → Job
unfolding decode_variables decode_variable
decode_environment host env persistent success format j =
    decode_variables host success format env
      (record j { persistent = persistent; cron_mail_success = success; cron_mail_format = format })
