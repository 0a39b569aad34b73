-- ===== src/Generator/Output/Tests.antt =====
-- The units of a job on an empty file system.
use systemd_cron.Base.{equal, [], ◌∷◌, ◌≡◌, refl, false, none, codes}
use systemd_cron.Generator.Job.{Job, new_job}
use systemd_cron.Generator.Output.All.{Each, IsWritten, output_all-Each}
use systemd_cron.Generator.Job.Schedule.{member}
use systemd_cron.Generator.Output.{script_text, output_all}
use systemd_cron.Generator.Samples.{host}
use systemd_cron.Sys.{Oracle, Disk}

abbrev willing : Oracle
willing = record { fault = λ n. none; torn = λ n. 0 }

abbrev empty : Disk
empty = record { files = λ p. none; calls = 0 }

abbrev piped : Job
unfolding new_job
piped = record (new_job (codes "/etc/crontab") (codes "@daily me ls | wc")) {
  unit_name = codes "cron-crontab-me-0";
  shell = codes "/bin/sh";
  command = record {
    words =
        record { text = codes "ls"; after = [] }
        ∷ record { text = codes "\\%"; after = [] }
        ∷ record { text = codes "wc"; after = [] }
        ∷ [];
    command0 = none;
    nopercent = false;
  };
}

script_run : script_text piped ≡ codes "ls % wc\n"
unfolding piped script_text
script_run = refl

abbrev second : Job
unfolding piped
second = record piped { unit_name = codes "cron-crontab-me-1" }

output_all-Each_example :
    Each
      (IsWritten host (output_all willing host (piped ∷ second ∷ []) empty).1)
      (piped ∷ second ∷ [])
unfolding piped second member equal
output_all-Each_example =
    output_all-Each willing (λ n. refl) host (piped ∷ second ∷ []) empty
      ((codes "crontab-me-0", refl), ((codes "crontab-me-1", refl), tt)) refl (refl, (refl, tt))
