-- ===== src/Generator/Start/Tests.antt =====
-- Runs of the generator's effects on an empty system.
use systemd_cron.Base.{
  contains, ℕ, [], ◌∷◌, ◌≡◌, refl, none, some, true, false, codes, equal, ◌==◌, if◌then◌else◌, less,
}
use systemd_cron.Generator.Crontab.{missing}
use systemd_cron.Generator.Main.Toplevel.{Inputs, each, each_job, unless}
use systemd_cron.Generator.Run.{done}
use systemd_cron.Generator.Samples.{host, draws}
use systemd_cron.Generator.Start.{checks, runs, mode, generate}
use systemd_cron.Sys.{Oracle, Disk, create_and_write, symlink, mkdir}
use systemd_cron.Util.System.{mkdirp, getpass_getlogin}

abbrev nothing : Inputs
nothing = record {
  read = λ p. missing;
  entries = λ d. [];
  is_regular = λ p. true;
  is_dir = λ d. false;
  exists = λ p. false;
  executable = λ p. false;
  draws = λ name. draws;
  part2timer = [];
  crond2timer = [];
  use_runparts = false;
  debian_filter = true;
}

abbrev blank : Disk
blank = record { files = λ p. none; calls = 0 }

-- The first call fails, with this error.
abbrev first_fails : ℕ → Oracle
first_fails error = record { fault = λ n. if n == 0 then some error else none; torn = λ n. 0 }

no_directory_run :
    (generate (first_fails 13) host (codes "/run/crond.reboot") nothing blank).0 ≡ done 1
unfolding generate mkdir equal contains
no_directory_run = refl

-- Where /var is not there, the service that reruns the generator is linked.
no_var_run :
    (generate (first_fails 17) host (codes "/run/crond.reboot") nothing blank).1.files
      (codes "/run/multi-user.target.wants/cron-after-var.service")
    ≡ some (codes "/run/cron-after-var.service")
unfolding generate mkdir create_and_write symlink equal each each_job unless less contains
no_var_run = refl

-- One call for each directory on the way.
mkdirp_run : (mkdirp (first_fails 17) (codes "/run/cron/wants") blank).1.calls ≡ 3
unfolding mkdirp mkdir contains
mkdirp_run = refl

mode_run : mode (codes "/run" ∷ codes "a" ∷ codes "b" ∷ []) ≡ runs (codes "/run") true
unfolding mode
mode_run = refl

check_mode_run : mode (codes "--check" ∷ []) ≡ checks (codes "-")
unfolding mode
check_mode_run = refl

login_run :
    getpass_getlogin (λ v. if equal v (codes "USER") then some (codes "me") else none) 256 none
    ≡ codes "me"
unfolding getpass_getlogin equal
login_run = refl
