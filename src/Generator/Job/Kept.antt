-- ===== src/Generator/Job/Kept.antt =====
-- The steps that leave the time fields of a job, its period and the words of its line alone.
use systemd_cron.Base.{List, ◌≡◌, refl, ◌∙◌, [], ◌∷◌, Bool, Bytes, arith}
use systemd_cron.Vore.Tokenise.{View}
use systemd_cron.Generator.Environment.{Environment}
use systemd_cron.Generator.Host.{Host}
use systemd_cron.Generator.Job.Exec.{
  decode, decode_command, pull_user, set_user, expand_environment,
}
use systemd_cron.Generator.Job.Parse.{parse_anacrontab, parse_crontab_at, take_command}
use systemd_cron.Generator.Job.Schedule.{
  generate_schedule_from_period, schedule_for, schedule_from_name, plain_schedule, normal_period,
}
use systemd_cron.Generator.Job.{
  Job, TimeFields, WithUser, CronMailSuccess, CronMailFormat, decode_environment, decode_variable,
  decode_variables, decode_other,
}

-- The time fields, the period, and the words of the line.
abbrev pub times : Job → TimeFields × Bytes × List View
times j = (j.timespec, j.period, j.parts)

decode_variable-times :
    (host : Host) (success : CronMailSuccess) (mail_format : CronMailFormat) (k v : Bytes) (j : Job)
    → times (decode_variable host success mail_format k v j) ≡ times j
unfolding decode_variable decode_other
decode_variable-times host success mail_format k v j = ground arith

decode_variables-times :
    (host : Host) (success : CronMailSuccess) (mail_format : CronMailFormat) (env : Environment)
    (j : Job)
    → times (decode_variables host success mail_format env j) ≡ times j
unfolding decode_variables
decode_variables-times host success mail_format [] j = refl
decode_variables-times host success mail_format ((k, v) ∷ env) j =
    decode_variables-times host success mail_format env
      (decode_variable host success mail_format k v j)
    ∙ decode_variable-times host success mail_format k v j

pub decode_environment-times :
    (host : Host) (env : Environment) (persistent : Bool) (success : CronMailSuccess)
    (mail_format : CronMailFormat) (j : Job)
    → times (decode_environment host env persistent success mail_format j) ≡ times j
unfolding decode_environment
decode_environment-times host env persistent success mail_format j =
    decode_variables-times host success mail_format env _

pull_user-times : (host : Host) (j : Job) → times (pull_user host j) ≡ times j
unfolding pull_user set_user
pull_user-times host j = ground arith

expand_environment-times : (home : Bytes) (j : Job) → times (expand_environment home j) ≡ times j
unfolding expand_environment
expand_environment-times home j = ground arith

decode_command-times : (host : Host) (j : Job) → times (decode_command host j) ≡ times j
unfolding decode_command
decode_command-times host j = ground (arith, pull_user-times host j)

pub decode-times : (host : Host) (j : Job) → times (decode host j) ≡ times j
unfolding decode
decode-times host j = decode_command-times host _

schedule_from_name-timespec :
    (host : Host) (p : Bytes) (j : Job) → (schedule_from_name host p j).timespec ≡ j.timespec
unfolding schedule_from_name
schedule_from_name-timespec host p j = ground arith

pub generate_schedule_from_period-timespec :
    (host : Host) (j : Job) → (generate_schedule_from_period host j).timespec ≡ j.timespec
unfolding generate_schedule_from_period schedule_for plain_schedule
generate_schedule_from_period-timespec host j =
    let p = normal_period j.period in
    ground (arith, schedule_from_name-timespec host p (record j { period = p }))

pub parse_anacrontab-timespec : (j : Job) → (parse_anacrontab j).timespec ≡ j.timespec
unfolding parse_anacrontab
parse_anacrontab-timespec j = ground arith

pub parse_crontab_at-timespec :
    (withuser : WithUser) (j : Job) → (parse_crontab_at withuser j).timespec ≡ j.timespec
unfolding parse_crontab_at take_command
parse_crontab_at-timespec withuser j = ground arith
