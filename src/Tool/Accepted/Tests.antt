-- ===== src/Tool/Accepted/Tests.antt =====
-- A crontab that the generator accepts, installed by the helper of this repository.
use systemd_cron.Base.{ℕ, [], Option, none, some, Bool, false, ◌==◌, Bytes, codes}
use systemd_cron.Generator.Check
use systemd_cron.Generator.Check.{check_crontab}
use systemd_cron.Generator.Crontab.{Reader, contents, parse_crontab}
use systemd_cron.Generator.Run.{Run, done, out_of_bounds, spinning}
use systemd_cron.Generator.Samples.{host, draws}
use systemd_cron.Tool.Tests.{session, text}
use systemd_cron.Tool.{Session}

abbrev succeeds : Run ℕ → Bool
succeeds (done n) = n == 0
succeeds out_of_bounds = false
succeeds spinning = false

abbrev judge : Option Bytes → Bool
judge none = false
judge (some t) = succeeds (Check.check host draws (codes "-") (contents t))

abbrev judged : Session
judged = record session { check = judge }

abbrev parsed : Run (Bool × Reader)
parsed = parse_crontab host draws (check_crontab (codes "-")) [] (contents text)

abbrev reader : Reader
reader = elim parsed [
  | done r ↦ r.1
  | out_of_bounds ↦ record { environment = []; cron_inherit_variables = []; jobs = [] }
  | spinning ↦ record { environment = []; cron_inherit_variables = []; jobs = [] }
]
