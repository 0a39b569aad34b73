-- ===== src/Generator/Check.antt =====
-- The generator's modes for the command `crontab`: `check` and `translate`.
mod Tests
use systemd_cron.Base.{
  ℕ, List, [], ◌∷◌, ◌++◌, none, some, Bool, false, ◌||◌, ◌&&◌, not, if◌then◌else◌, ◌==◌, Bytes,
  codes, all, starts_with, drop, ◌≡◌, refl, arith,
}
use systemd_cron.Generator.Crontab.{Crontab, File, parse_crontab}
use systemd_cron.Generator.Host.{Host}
use systemd_cron.Generator.Job.Exec.{words, decode, decode_command}
use systemd_cron.Generator.Job.Parse.{Draws, parse_crontab_at, parse_crontab_timespec}
use systemd_cron.Generator.Job.Schedule.{
  generate_schedule, generate_schedule_from_timespec, member, is_nil, without_zero,
}
use systemd_cron.Generator.Job.Unit.{generate_timer, generate_service}
use systemd_cron.Generator.Job.{Job, initial, nonempty, normal, new_job}
use systemd_cron.Generator.Run.{Run, done, ◌>>=◌}

abbrev pub valid_periods : List Bytes
valid_periods =
    codes "annually"
    ∷ codes "bi-annually"
    ∷ codes "biannually"
    ∷ codes "daily"
    ∷ codes "hourly"
    ∷ codes "midnight"
    ∷ codes "minutely"
    ∷ codes "monthly"
    ∷ codes "quarterly"
    ∷ codes "reboot"
    ∷ codes "semi-annually"
    ∷ codes "semiannually"
    ∷ codes "weekly"
    ∷ codes "yearly"
    ∷ []

abbrev pub has_zero : List ℕ → Bool
has_zero [] = false
has_zero (n ∷ ns) = n == 0 || has_zero ns

-- Does the callback leave `err` alone?
unfoldable pub passes : Job → Bool
unfolding member
passes j =
    if not j.valid
    then false
    else if not (is_nil j.period)
    then member j.period valid_periods
    else not (has_zero j.timespec.month || has_zero j.timespec.dom)

abbrev pub check_crontab : Bytes → Crontab
check_crontab cron_file = record {
  filename = cron_file;
  withuser = initial;
  anacrontab = false;
  mail_success = nonempty;
  mail_format = normal;
}

-- The status of `--check`.
unfoldable pub check : Host → (ℕ → Draws) → Bytes → File → Run ℕ
unfolding parse_crontab passes
check host draws cron_file file = do
  r ← parse_crontab host draws (check_crontab cron_file) [] file
  done (if r.0 && all passes r.1.jobs then 0 else 1)

-- The words that are not empty, with blanks between them.
unfoldable pub joined_words : List Bytes → Bytes
joined_words [] = []
joined_words ([] ∷ ws) = joined_words ws
joined_words ((c ∷ w) ∷ ws) =
    let rest = joined_words ws in elim rest [ [] ↦ c ∷ w | d ∷ t ↦ c ∷ w ++ b' ' ∷ d ∷ t ]

-- A first word that is the name of a user, with more behind it, is the user.
unfoldable pub take_user : Host → Bytes → List Bytes → Job → Job
take_user host login [] j = record j { user = login }
take_user host login (w ∷ []) j = record j { user = login }
take_user host login (w ∷ u ∷ ws) j = elim (host.getpwnam w) [
  | none ↦ record j { user = login }
  | some ent ↦ record j { user = w; command = record j.command { words = drop 1 j.command.words } }
]

-- `parse_crontab_auto`, with what `getpass_getlogin` gives.
unfoldable pub auto_command : Host → Bytes → Job → Job
unfolding words take_user decode_command joined_words
auto_command host login j = elim (words j.command) [
  | [] ↦ j
  | w ∷ ws ↦
      let k = decode_command host (take_user host login (w ∷ ws) j) in
      record k { execstart = k.execstart ++ joined_words (words k.command) }
]

unfoldable pub parse_crontab_auto : Host → Draws → Bytes → Job → Run Job
unfolding auto_command parse_crontab_at parse_crontab_timespec
parse_crontab_auto host draws login j = do
  k ←
      if starts_with (codes "@") j.line
      then done (parse_crontab_at initial j)
      else parse_crontab_timespec draws initial j
  done (auto_command host login k)

-- What `--translate` writes to its two files, and its status.
pub record Translation : Type 0 where
  pub timer : Bytes
  pub service : Bytes
  pub status : ℕ

unfoldable pub translate : Host → Draws → Bytes → Bytes → Run Translation
unfolding parse_crontab_auto decode decode_command generate_schedule generate_timer generate_service
translate host draws login line = do
  k ← parse_crontab_auto host draws login (new_job (codes "-") line)
  let j = generate_schedule host (decode_command host (decode host k)) in
      done (record {
        timer = generate_timer host j ++ codes "#Persistent=true\n";
        service = generate_service host j;
        status = if j.valid then 0 else 1;
      })

has_zero-without_zero : (ns : List ℕ) → has_zero (without_zero ns) ≡ false
has_zero-without_zero [] = refl
has_zero-without_zero (n ∷ ns) = ground (arith, has_zero-without_zero ns)

-- A job of five fields passes the check exactly if it is valid: the schedule has no zeros left by
-- the time that the check looks for them.
pub passes-valid :
    (j : Job)
    → j.period ≡ []
    → passes (generate_schedule_from_timespec j) ≡ (generate_schedule_from_timespec j).valid
unfolding passes generate_schedule_from_timespec
passes-valid j h =
    ground (arith, has_zero-without_zero j.timespec.month, has_zero-without_zero j.timespec.dom)
