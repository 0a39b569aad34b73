-- ===== src/Generator/Job/Unit.antt =====
-- The texts of a job's service and timer: `format_on_failure`, `generate_service` and
-- `generate_timer` of `Job`.
use systemd_cron.Base.Decimal.{decimal}
use systemd_cron.Base.{
  ℕ, zero, suc, List, [], ◌∷◌, ◌++◌, Option, none, some, Bool, true, false, ◌&&◌, ◌||◌, not,
  if◌then◌else◌, ◌==◌, ltb, Bytes, codes, equal, length, drop, contains_text, cut,
}
use systemd_cron.Generator.Environment.{find, environment_write}
use systemd_cron.Generator.Host.{Host}
use systemd_cron.Generator.Job.Exec.{Segment, debackslashpercentise}
use systemd_cron.Generator.Job.Schedule.{is_nil}
use systemd_cron.Generator.Job.{Job, CronMailFormat, normal, nometadata, never, always, nonempty}
use systemd_cron.Util.Base64.{Encoder, fresh, feed_view, finish}
use systemd_cron.Generator.Job.Describe.{
  describe_line, generate_unit_header, quote_unless_path, eol,
}

-- The end of the name of a cron-mail unit.
unfoldable pub mail_suffix : CronMailFormat → Bool → Bytes
mail_suffix mail_format if_nonempty =
    (if if_nonempty then codes ":nonempty" else [])
    ++ (elim mail_format [ normal ↦ [] | nometadata ↦ codes ":nometadata" ])
    ++ codes ".service\n"

-- The text for `into`, and the shim where there is one.
unfoldable pub format_on_failure : Host → Bytes → Bytes → Bool → Job → Bytes × Option Bytes
unfolding mail_suffix
format_on_failure host key state if_nonempty j =
    let suffix = mail_suffix j.cron_mail_format if_nonempty in
    let third_is_s : Bool = elim (drop 2 key) [ [] ↦ false | c ∷ s ↦ c == b'S' ] in
    if third_is_s && not host.have_onsuccess
    then (
      codes "Before=cron-mail@%n:Success" ++ suffix,
      some (codes "ExecStart=-+/usr/bin/systemctl start --no-block cron-mail@%n:Success" ++ suffix),
    )
    else (key ++ codes "=cron-mail@%n:" ++ state ++ suffix, none)

-- The units that mail the outcome.
unfoldable pub mail_units : Host → Job → Bytes × Option Bytes
unfolding find format_on_failure
mail_units host j =
    let disabled : Bool = elim (find (codes "MAILTO") j.environment) [
      | none ↦ false
      | some v ↦ is_nil v
    ] in
    let failure = (format_on_failure host (codes "OnFailure") (codes "Failure") false j).0 in
    let success : Bool → Bytes × Option Bytes = λ if_nonempty.
      let r = format_on_failure host (codes "OnSuccess") (codes "Success") if_nonempty j in
      (failure ++ r.0, r.1) in
    if disabled || not host.has_sendmail then ([], none) else elim j.cron_mail_success [
      | never ↦ (failure, none)
      | always ↦ success false
      | nonempty ↦ success true
    ]

unfoldable pub user_sessions : Host → Job → Bytes
user_sessions host j =
    if not (equal j.user (codes "root")) || contains_text host.statedir j.filename
    then codes "Requires=systemd-user-sessions.service\n"
      ++ (elim j.user_home [ none ↦ [] | some home ↦ codes "RequiresMountsFor=" ++ home ++ eol ])
    else []

-- A backslash before every quote and backslash.
unfoldable pub escape_quotes : Bytes → Bytes
escape_quotes [] = []
escape_quotes (c ∷ s) =
    if c == b'"' || c == b'\\' then b'\\' ∷ c ∷ escape_quotes s else c ∷ escape_quotes s

unfoldable pub log_extra_fields : Host → Job → Bytes
unfolding describe_line escape_quotes
log_extra_fields host j =
    codes "LogExtraFields=CRON_JOB=\""
    ++ quote_unless_path (codes "\\\"") j.line
    ++ escape_quotes (describe_line host j.line)
    ++ quote_unless_path (codes "\\\"") j.line
    ++ codes "\"\n"

unfoldable pub exec_user : Host → Job → Bytes
exec_user host j =
    codes "User="
    ++ j.user
    ++ eol
    ++ (if is_nil host.pamname
        then codes "KillMode=process\n"
        else codes "PAMName=" ++ host.pamname ++ eol)
    ++ codes "WorkingDirectory=-~\nType=oneshot\nIgnoreSIGPIPE=false\nSyslogFacility=cron\n"
    ++ (if is_nil j.cron_log_namespace
        then []
        else codes "LogNamespace=" ++ j.cron_log_namespace ++ eol)
    ++ (if equal host.use_loglevelmax (codes "no")
        then []
        else codes "LogLevelMax=" ++ host.use_loglevelmax ++ eol)

-- The commands that run before the job: the delay after a boot, and the wait for a lower load.
unfoldable pub boot_pre : Host → Job → Bytes
boot_pre host j =
    let early : Bool = elim host.uptime [ none ↦ true | some u ↦ ltb u j.boot_delay ] in
    if not (is_nil j.schedule) && not (j.boot_delay == 0) && early
    then codes "ExecStartPre=-" ++ host.boot_delay ++ codes " " ++ decimal j.boot_delay ++ eol
    else []

unfoldable pub load_pre : Host → Job → Bytes
load_pre host j =
    if not (is_nil j.cron_batch_throttle_group)
    then codes "ExecStartPre=!"
      ++ host.throttle_group
      ++ codes " "
      ++ j.cron_batch_throttle_group
      ++ (if is_nil j.cron_batch_loadavg_below then [] else codes " ")
      ++ j.cron_batch_loadavg_below
      ++ eol
    else if not (is_nil j.cron_batch_loadavg_below)
    then codes "ExecStartPre=!"
      ++ host.loadavg_dam
      ++ codes " "
      ++ j.cron_batch_loadavg_below
      ++ eol
    else []

unfoldable pub start_pre : Host → Job → Bytes
unfolding boot_pre load_pre
start_pre host j =
    let pre = boot_pre host j ++ load_pre host j in
    if is_nil pre then [] else pre ++ codes "TimeoutStartSec=infinity\n"

-- The inner loop over a segment: each percent sign becomes a newline.
unfoldable pub feed_lines : ℕ → Bytes → Encoder → Encoder
unfolding cut feed_view
feed_lines zero segment bytes = feed_view bytes segment
feed_lines (suc fuel) segment bytes = elim (cut b'%' segment) [
  | none ↦ feed_view bytes segment
  | some (a, b) ↦ feed_lines fuel b (feed_view (feed_view bytes a) eol)
]

unfoldable pub feed_segments : List Segment → Encoder → Encoder
unfolding feed_lines
feed_segments [] bytes = bytes
feed_segments ((segment, replace_percent) ∷ ss) bytes =
    feed_segments ss (
      if replace_percent
      then feed_lines (length segment) segment bytes
      else feed_view bytes segment)

-- The value of `StandardInputData=`.
unfoldable pub input_text : Job → Bytes
unfolding feed_segments debackslashpercentise finish
input_text j =
    (finish (feed_segments (debackslashpercentise j.command.nopercent j.input_data) fresh))

unfoldable pub standard_input : Job → Bytes
unfolding input_text
standard_input j =
    if is_nil j.input_data
    then []
    else codes "StandardInput=data\nStandardInputData=" ++ input_text j ++ eol

unfoldable pub generate_service : Host → Job → Bytes
unfolding generate_unit_header mail_units user_sessions log_extra_fields exec_user start_pre
    environment_write standard_input
generate_service host j =
    let (mail, shim) = mail_units host j in
    generate_unit_header host (codes "Cron") j
    ++ mail
    ++ user_sessions host j
    ++ codes "\n[Service]\n"
    ++ log_extra_fields host j
    ++ exec_user host j
    ++ start_pre host j
    ++ codes "ExecStart="
    ++ j.execstart
    ++ eol
    ++ (elim shim [ none ↦ [] | some t ↦ t ])
    ++ (if is_nil j.environment
        then []
        else codes "Environment=" ++ environment_write j.environment ++ eol)
    ++ standard_input j
    ++ (if j.batch then codes "CPUSchedulingPolicy=idle\nIOSchedulingClass=idle\n" else [])

unfoldable pub generate_timer : Host → Job → Bytes
unfolding generate_unit_header
generate_timer host j =
    generate_unit_header host (codes "Timer") j
    ++ codes "PartOf=cron.target\n\n[Timer]\n"
    ++ (if equal j.schedule (codes "reboot")
        then codes "OnBootSec=" ++ decimal j.boot_delay ++ codes "m\n"
        else codes "OnCalendar="
          ++ j.schedule
          ++ (elim j.timezone [ none ↦ [] | some tz ↦ codes " " ++ tz ])
          ++ eol)
    ++ (if j.random_delay == 0
        then []
        else codes "RandomizedDelaySec=" ++ decimal j.random_delay ++ codes "m\n")
    ++ (if j.persistent then codes "Persistent=true\n" else [])
