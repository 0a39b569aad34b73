-- ===== src/Generator/Crontab/Tests.antt =====
-- Runs of `parse_crontab`, and the theorems about jobs at concrete inputs.
use systemd_cron.Generator.Samples.{host, greatest, draws}
use systemd_cron.Generator.Job.Describe.Pieces.{IsMbrlen, pieces, describe_line-pieces}
use systemd_cron.Generator.Job.Describe.{describe_line}
use systemd_cron.Base.Decimal.{decimal}
use systemd_cron.Generator.Period.{parse_period, ranged, star, walk, between, insert_between}
use systemd_cron.Generator.Field.{dow_map, month_map, int_map}
use systemd_cron.Generator.OrderedSet.{emplace}
use systemd_cron.Vore.Uint.{strtoull, c_string, parse_uint}
use systemd_cron.Vore.Tokenise.{soft_tokenise}
use systemd_cron.Base.{
  ℕ, starts_with, less, cut, contains, equal, ◌≡◌, ◌⊎◌, refl, List, [], ◌∷◌, none, some, Bool, true,
  false, Bytes, codes, arith, map, starts_with,
}
use systemd_cron.Generator.Crontab.{Crontab, contents, Reader, parse_crontab}
use systemd_cron.Generator.Field.{int_map}
use systemd_cron.Generator.Job.Input.{stdin_of, input_text-groups}
use systemd_cron.Generator.Job.Parse.{parse_percent}
use systemd_cron.Generator.Job.Percent.{Uncut, CutAt, parse_percent-cases}
use systemd_cron.Generator.Job.Schedule.{generate_schedule_from_timespec}
use systemd_cron.Generator.Crontab.{trim_end, envvar}
use systemd_cron.Generator.Crontab.Ends.{AreUniform, are_stepped, parse_crontab-Ends}
use systemd_cron.Generator.Job.Calendar.{read_calendar, calendar_of}
use systemd_cron.Generator.Job.Calendar.RoundTrip.{read_calendar-generate_schedule_from_timespec}
use systemd_cron.Generator.Job.Unit.{input_text}
use systemd_cron.Generator.Job.{Job, from_cmd0, nonempty, normal, new_job}
use systemd_cron.Generator.OrderedSet.{number_less}
use systemd_cron.Generator.Period.Safety.{step_of, IsUniform}
use systemd_cron.Generator.Run.{Run, done, is_done}
use systemd_cron.Util.Base64.Groups.{groups}

greatest-IsUniform : IsUniform greatest
greatest-IsUniform n lo hi h = (h, omega arith)

abbrev crontab : Crontab
crontab = record {
  filename = codes "/etc/crontab";
  withuser = from_cmd0;
  anacrontab = false;
  mail_success = nonempty;
  mail_format = normal;
}

-- What the jobs of a run come to: id, calendar expression, words of the command, and input.
abbrev outcome : Run (Bool × Reader) → List (Bytes × Bytes × List Bytes × Bytes)
outcome (done r) =
    map (λ j. (j.jobid, j.schedule, map (λ w. w.text) j.command.words, j.input_data)) r.1.jobs
outcome Run.out_of_bounds = []
outcome Run.spinning = []

crontab_run :
    outcome (
      parse_crontab host draws crontab [] (
        contents
          (codes "# c\n A = \"b c\"\n*/30 3 * 2 mon-wed root echo a\\%b%c%d\n@daily me ls\n")))
    ≡ (codes "crontab-me", codes "daily", codes "ls" ∷ [], [])
      ∷ (
        codes "crontab-root",
        codes "Mon,Tue,Wed *-2-* 3:0,30:00",
        codes "echo" ∷ codes "a\\%b" ∷ [],
        codes "c%d",
      )
      ∷ []
unfolding parse_crontab contains equal starts_with parse_period cut parse_uint c_string strtoull
    ranged star walk between insert_between dow_map month_map int_map less emplace decimal
crontab_run = refl

abbrev echo : Job
unfolding new_job
echo = record (new_job (codes "/etc/crontab") (codes "* * * * * root a%b\\%c%d")) {
  jobid = codes "crontab-root";
  input_data = codes "b\\%c%d";
}

input_text-groups_example : input_text echo ≡ groups (stdin_of (codes "b\\%c%d"))
unfolding echo
input_text-groups_example = input_text-groups echo refl refl

parse_percent-cases_example :
    Uncut echo.command.words (parse_percent echo).command.words (parse_percent echo).input_data
    ⊎ CutAt echo.command.words (parse_percent echo).command.words (parse_percent echo).input_data
parse_percent-cases_example = parse_percent-cases echo

abbrev nightly : Job
unfolding new_job
nightly = record (new_job (codes "/etc/crontab") (codes "0 3 1 2 * root a")) {
  persistent = true;
  timespec = record {
    minute = 0 ∷ [];
    hour = 3 ∷ [];
    dom = 1 ∷ [];
    dow = codes "*" ∷ [];
    month = 2 ∷ [];
    minute_raw = none;
    hour_raw = none;
    dom_raw = none;
    dow_raw = none;
    month_raw = none;
  };
}

read_calendar-generate_schedule_from_timespec_example :
    read_calendar (generate_schedule_from_timespec nightly).schedule
    ≡ some (calendar_of (generate_schedule_from_timespec nightly))
unfolding nightly generate_schedule_from_timespec
read_calendar-generate_schedule_from_timespec_example =
    read_calendar-generate_schedule_from_timespec nightly refl

greatest-AreUniform : (n : ℕ) → AreUniform (draws n)
greatest-AreUniform n = record {
  minute = greatest-IsUniform;
  hour = greatest-IsUniform;
  dom = greatest-IsUniform;
  dow = greatest-IsUniform;
  month = greatest-IsUniform;
}

parse_crontab-Ends_example :
    is_done (
      parse_crontab host draws crontab []
        (contents (codes "A=*/0\n1,10-20/5 3 * 2 sun root x\n@daily me ls\n")))
    ≡ true
unfolding soft_tokenise contains step_of cut int_map parse_uint c_string strtoull equal starts_with
    are_stepped trim_end envvar new_job
parse_crontab-Ends_example =
    parse_crontab-Ends host crontab draws greatest-AreUniform []
      (contents (codes "A=*/0\n1,10-20/5 3 * 2 sun root x\n@daily me ls\n")) refl

host-IsMbrlen : IsMbrlen host
host-IsMbrlen c s n e = ground arith

describe_line-pieces_example :
    describe_line host (codes "@daily me date +%F") ≡ pieces host 18 (codes "@daily me date +%F")
describe_line-pieces_example = describe_line-pieces host host-IsMbrlen (codes "@daily me date +%F")

describe_line_run : describe_line host (codes "@daily me date +%F") ≡ codes "@daily me date +%%F"
unfolding describe_line
describe_line_run = refl
