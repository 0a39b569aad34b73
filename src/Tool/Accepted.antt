-- ===== src/Tool/Accepted.antt =====
-- What the command installs, where the check is that of the generator of this repository.
mod Tests
use systemd_cron.Base.{ℕ, ◌≡◌, ◌==◌, some, Bytes}
use systemd_cron.Generator.Check
use systemd_cron.Generator.Crontab.{contents}
use systemd_cron.Generator.Host.{Host}
use systemd_cron.Generator.Job.Parse.{Draws}
use systemd_cron.Generator.Run.{done}
use systemd_cron.Tool.{Session}

module _ (host : Host) (draws : ℕ → Draws) (name : Bytes) where
  -- The check of a session, on texts that the generator reads to an end: its mode `--check`, for a
  -- file of this name.
  pub record IsChecked (s : Session) : Type 0 where
    pub checks :
        (text : Bytes) (n : ℕ)
        → Check.check host draws name (contents text) ≡ done n
        → s.check (some text) ≡ (n == 0)
