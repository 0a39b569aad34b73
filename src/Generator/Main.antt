-- ===== src/Generator/Main.antt =====
-- `realmain`: the crontabs and the directories of scripts, in the order in which the generator
-- reads them, and the jobs that it writes units for.
pub mod Toplevel
pub mod Files
pub mod Invariant
pub mod Distinct
pub mod Sound
mod Tests
use systemd_cron.Base.{
  ℕ, List, [], ◌∷◌, ◌++◌, Option, none, some, Bool, true, false, ◌||◌, not, if◌then◌else◌, ◌==◌,
  Bytes, codes, equal, contains, contains_text,
}
use systemd_cron.Generator.Crontab.{Crontab, File, Reader, Seqs, parse_crontab, generate_timer_unit}
use systemd_cron.Generator.Environment.{Environment, find, emplace_entry}
use systemd_cron.Generator.Filter.{is_masked, is_backup}
use systemd_cron.Generator.Host.{Host}
use systemd_cron.Generator.Job.Exec.{decode}
use systemd_cron.Generator.Job.Parse.{Draws, timespec_asterisk}
use systemd_cron.Generator.Job.Schedule.{generate_schedule}
use systemd_cron.Generator.Job.{
  Job, from_cmd0, from_basename, CronMailSuccess, CronMailFormat, nonempty, normal, new_job,
  decode_environment,
}
use systemd_cron.Generator.Run.{Run, done, out_of_bounds, ◌>>=◌}
use systemd_cron.Vore.Tokenise.{texts, soft_tokenise}
use systemd_cron.Generator.Main.Toplevel.{Inputs, Progress, etc_crontab}
use systemd_cron.Generator.Main.Files.{cron_d, parts, anacrontab, spool}

module _ (host : Host) (inputs : Inputs) where
  unfoldable pub realmain : Run Progress
  unfolding etc_crontab cron_d parts anacrontab spool
  realmain = do
    r ← etc_crontab host inputs (record { seqs = λ id. 0; start_hours = λ k. 0; units = [] })
    p ← cron_d host inputs r.0 r.1
    q ← parts host inputs r.0 p
    t ← anacrontab host inputs r.0 q
    spool host inputs r.0 t
