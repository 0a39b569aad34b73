-- ===== src/Generator/Main/Toplevel.antt =====
-- `realmain` up to the end of /etc/crontab: what the generator finds, what it keeps between the
-- files, and what /etc/crontab sets for the others.
use systemd_cron.Base.{
  ◌++◌, ℕ, List, [], ◌∷◌, Option, none, some, Bool, false, not, if◌then◌else◌, ◌==◌, Bytes, codes,
  equal, contains_text,
}
use systemd_cron.Generator.Crontab.{Crontab, File, Reader, Seqs, parse_crontab, generate_timer_unit}
use systemd_cron.Generator.Environment.{Environment, find, emplace_entry}
use systemd_cron.Generator.Filter.{for_each_file}
use systemd_cron.Vore.Directory.{Dirent}
use systemd_cron.Generator.Host.{Host}
use systemd_cron.Generator.Job.Parse.{Draws, timespec_asterisk}
use systemd_cron.Generator.Job.{
  Job, from_cmd0, CronMailSuccess, CronMailFormat, nonempty, normal, new_job, decode_environment,
}
use systemd_cron.Generator.Run.{Run, done, out_of_bounds, ◌>>=◌}
use systemd_cron.Vore.Tokenise.{texts, soft_tokenise}

-- The file system as the generator finds it, and how it is built. `entries` gives the entries of a
-- directory, none where there is no such directory, and `is_regular` whether `fstatat` finds a file;
-- `draws` gives the stretches of the random engines that the jobs of a file use.
pub record Inputs : Type 0 where
  pub read : Bytes → File
  pub entries : Bytes → List Dirent
  pub is_regular : Bytes → Bool
  pub is_dir : Bytes → Bool
  pub exists : Bytes → Bool
  pub executable : Bytes → Bool
  pub draws : Bytes → ℕ → Draws
  pub part2timer : List (Bytes × Bytes)
  pub crond2timer : List (Bytes × Bytes)
  pub use_runparts : Bool
  pub debian_filter : Bool

unfoldable pub files_of : Inputs → Bytes → List Bytes
unfolding for_each_file
files_of inputs directory =
    for_each_file (λ name. inputs.is_regular (directory ++ codes "/" ++ name))
      (inputs.entries directory)

-- What /etc/crontab sets for the other files.
pub record Toplevel : Type 0 where
  pub inherit_variables : Environment
  pub fallback_mailto : Option Bytes
  pub mail_success : CronMailSuccess
  pub mail_format : CronMailFormat

-- `seqs`, `distro_start_hour`, and the jobs with units so far, the last first.
pub record Progress : Type 0 where
  pub seqs : Seqs
  pub start_hours : Bytes → ℕ
  pub units : List Job

module _ {A : Type 0} where
  unfoldable pub each : (A → Progress → Run Progress) → List A → Progress → Run Progress
  each f [] p = done p
  each f (x ∷ xs) p = f x p >>= each f xs

-- A callback that returns early.
unfoldable pub unless : Bool → (Progress → Run Progress) → Progress → Run Progress
unless b f p = if b then done p else f p

-- The jobs of a reader, the first first.
abbrev pub in_order : List Job → List Job → List Job
in_order [] acc = acc
in_order (j ∷ js) acc = in_order js (j ∷ acc)

module _ (host : Host) where
  unfoldable pub emit_unit : Job → Progress → Progress
  unfolding generate_timer_unit
  emit_unit j p =
      let (named, seqs) = generate_timer_unit host p.seqs j in
      record p { seqs = seqs; units = elim named [ none ↦ p.units | some k ↦ k ∷ p.units ] }

  -- `*job.timespec_hour.begin()` of a job that runs a directory of scripts.
  unfoldable pub save_start_hour : Bytes → List ℕ → Progress → Run Progress
  save_start_hour period [] p = out_of_bounds
  save_start_hour period (h ∷ hs) p = done (
      if h == timespec_asterisk
      then p
      else record p { start_hours = λ k. if equal k period then h else p.start_hours k })

  -- The callback for /etc/crontab.
  unfoldable pub etc_crontab_job : Job → Progress → Run Progress
  unfolding emit_unit save_start_hour
  etc_crontab_job j p =
      if not j.valid
      then done p
      else if contains_text (codes "/etc/cron.hourly") j.line
      then done p
      else if contains_text (codes "/etc/cron.daily") j.line
      then save_start_hour (codes "daily") j.timespec.hour p
      else if contains_text (codes "/etc/cron.weekly") j.line
      then save_start_hour (codes "weekly") j.timespec.hour p
      else if contains_text (codes "/etc/cron.monthly") j.line
      then save_start_hour (codes "monthly") j.timespec.hour p
      else done (emit_unit j p)

  -- The callback of `preview_env`.
  inherited : Environment → List Bytes → Environment → Environment
  inherited raw [] env = env
  inherited raw (var ∷ vars) env = elim (find var raw) [
    | none ↦ inherited raw vars env
    | some v ↦ inherited raw vars (emplace_entry var v env)
  ]

  unfoldable pub preview : Bytes → Reader → Toplevel
  unfolding inherited decode_environment
  preview filename r =
      let envjob =
        decode_environment host r.environment false nonempty normal (new_job filename []) in
      record {
        inherit_variables =
            inherited r.environment (texts (soft_tokenise r.cron_inherit_variables (codes " \t")))
              [];
        fallback_mailto = find (codes "MAILTO") envjob.environment;
        mail_success = envjob.cron_mail_success;
        mail_format = envjob.cron_mail_format;
      }

  unfoldable pub with_mailto : Toplevel → Job → Job
  unfolding find
  with_mailto top j = elim top.fallback_mailto [
    | none ↦ j
    | some to ↦ record j { environment = emplace_entry (codes "MAILTO") to j.environment }
  ]

abbrev pub main_crontab : Crontab
main_crontab = record {
  filename = codes "/etc/crontab";
  withuser = from_cmd0;
  anacrontab = false;
  mail_success = nonempty;
  mail_format = normal;
}

module _ (host : Host) (inputs : Inputs) where
  -- The jobs of a file, in order.
  unfoldable pub jobs_of : Crontab → Environment → Run (Bool × Reader)
  unfolding parse_crontab
  jobs_of c env = parse_crontab host (inputs.draws c.filename) c env (inputs.read c.filename)

  -- `parse_crontab` with a callback.
  unfoldable pub each_job :
      (Job → Progress → Run Progress) → Crontab → Environment → Progress → Run Progress
  unfolding jobs_of
  each_job f c env p = do r ← jobs_of c env; each f (in_order r.1.jobs []) p

  unfoldable pub etc_crontab : Progress → Run (Toplevel × Progress)
  unfolding jobs_of etc_crontab_job preview
  etc_crontab p = do
    r ← jobs_of main_crontab []
    q ← each (etc_crontab_job host) (in_order r.1.jobs []) p
    done (preview host main_crontab.filename r.1, q)
