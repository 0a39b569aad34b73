-- ===== src/Generator/Main/Files.antt =====
-- `realmain` after /etc/crontab: /etc/cron.d, the directories of scripts, /etc/anacrontab and the
-- crontabs of users.
use systemd_cron.Base.{
  ℕ, List, [], ◌∷◌, ◌++◌, none, Bool, true, false, ◌||◌, not, if◌then◌else◌, Bytes, codes, contains,
}
use systemd_cron.Generator.Crontab.{Crontab}
use systemd_cron.Generator.Filter.{is_masked, is_backup}
use systemd_cron.Generator.Host.{Host}
use systemd_cron.Generator.Job.Exec.{decode}
use systemd_cron.Generator.Job.Schedule.{generate_schedule}
use systemd_cron.Generator.Job.{Job, from_cmd0, from_basename, new_job, decode_environment}
use systemd_cron.Generator.Run.{Run, done}
use systemd_cron.Generator.Main.Toplevel.{
  Inputs, Toplevel, Progress, each, emit_unit, with_mailto, each_job, unless, files_of,
}

module _ (host : Host) (inputs : Inputs) where
  unfoldable pub is_skipped : List (Bytes × Bytes) → Bytes → Bool
  unfolding is_masked is_backup
  is_skipped mapping name =
      is_masked inputs.exists mapping name || is_backup inputs.debian_filter name

  module _ (top : Toplevel) where
    unfoldable pub cron_d_job : Job → Progress → Run Progress
    unfolding emit_unit with_mailto
    cron_d_job j p = done (if j.valid then emit_unit host (with_mailto host top j) p else p)

    abbrev crontab_with : Bytes → Crontab
    crontab_with filename = record {
      filename = filename;
      withuser = from_cmd0;
      anacrontab = false;
      mail_success = top.mail_success;
      mail_format = top.mail_format;
    }

    unfoldable pub cron_d_file : Bytes → Progress → Run Progress
    unfolding is_skipped cron_d_job
    cron_d_file name = unless (is_skipped inputs.crond2timer name) (
        each_job host inputs cron_d_job (crontab_with (codes "/etc/cron.d/" ++ name))
          top.inherit_variables)

    unfoldable pub cron_d : Progress → Run Progress
    unfolding cron_d_file files_of
    cron_d p = each cron_d_file (files_of inputs (codes "/etc/cron.d")) p

    -- The job of a script of a directory such as /etc/cron.daily.
    unfoldable pub part_job : Bytes → ℕ → Bytes → Progress → Job
    unfolding decode_environment decode generate_schedule with_mailto new_job
    part_job period delay name p =
        let filename = codes "/etc/cron." ++ period ++ codes "/" ++ name in
        let j =
          decode_environment host top.inherit_variables true top.mail_success top.mail_format
            (new_job filename filename) in
        let k = with_mailto host top (
          generate_schedule host (
            decode host (record j {
              period = period;
              start_hour = p.start_hours period;
              boot_delay = delay;
              command = record {
                words = record { text = filename; after = [] } ∷ [];
                command0 = none;
                nopercent = true;
              };
              jobid = period ++ codes "-" ++ name;
            }))) in
        record k { unit_name = codes "cron-" ++ k.jobid }

    unfoldable pub part_file : Bytes → ℕ → Bytes → Progress → Run Progress
    unfolding is_skipped part_job
    part_file period delay name =
        unless
          (is_skipped inputs.part2timer name
            || not (inputs.executable (codes "/etc/cron." ++ period ++ codes "/" ++ name)))
          (λ p. done (record p { units = part_job period delay name p ∷ p.units }))

    unfoldable pub part_dir : Bytes × ℕ → Progress → Run Progress
    unfolding part_file files_of
    part_dir (period, delay) =
        let directory = codes "/etc/cron." ++ period in
        unless (not (inputs.is_dir directory))
          (each (part_file period delay) (files_of inputs directory))

    abbrev pub periods : List (Bytes × ℕ)
    periods =
        (codes "hourly", 5)
        ∷ (codes "daily", 10)
        ∷ (codes "weekly", 15)
        ∷ (codes "monthly", 20)
        ∷ (codes "yearly", 25)
        ∷ []

    unfoldable pub parts : Progress → Run Progress
    unfolding part_dir
    parts = unless inputs.use_runparts (each part_dir periods)

    unfoldable pub anacrontab_job : Job → Progress → Run Progress
    unfolding emit_unit
    anacrontab_job j p = done (if j.valid then emit_unit host j p else p)

    unfoldable pub anacrontab : Progress → Run Progress
    unfolding anacrontab_job
    anacrontab =
        each_job host inputs anacrontab_job
          (record (crontab_with (codes "/etc/anacrontab")) {
            withuser = from_basename;
            anacrontab = true;
          })
          []

    unfoldable pub spool_job : Job → Progress → Run Progress
    unfolding emit_unit
    spool_job j p = done (emit_unit host j p)

    unfoldable pub spool_file : Bytes → Progress → Run Progress
    unfolding spool_job
    spool_file name = unless (contains b'.' name) (
        each_job host inputs spool_job
          (record (crontab_with (host.statedir ++ codes "/" ++ name)) { withuser = from_basename })
          top.inherit_variables)

    -- The crontabs of users, where /var is there.
    unfoldable pub spool : Progress → Run Progress
    unfolding spool_file files_of
    spool =
        unless (not (inputs.is_dir host.statedir)) (each spool_file (files_of inputs host.statedir))
