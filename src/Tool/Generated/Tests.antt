-- ===== src/Tool/Generated/Tests.antt =====
-- The command on top of the generator, at concrete inputs.
use systemd_cron.Base.{
  ℕ, ◌≡◌, refl, ap, [], ◌∷◌, none, some, Bool, true, false, ◌&&◌, if◌then◌else◌, ◌==◌, Bytes, codes,
  equal, all, starts_with, contains, cut, less,
}
use systemd_cron.Base.Decimal.{decimal}
use systemd_cron.Generator.Check.{check_crontab, passes, Translation, valid_periods}
use systemd_cron.Generator.Check
use systemd_cron.Generator.Crontab.{File, missing, contents, Reader, parse_crontab}
use systemd_cron.Generator.Field.{int_map, month_map, dow_map}
use systemd_cron.Generator.Job.{new_job}
use systemd_cron.Setgid.{fgets_all}
use systemd_cron.Generator.OrderedSet.{emplace}
use systemd_cron.Generator.Period.{parse_period, ranged, star, walk, between, insert_between}
use systemd_cron.Generator.Run.{Run, done, out_of_bounds, spinning}
use systemd_cron.Generator.Samples.{host, draws}
use systemd_cron.Setgid.Tests.{blank, faultless}
use systemd_cron.Tool.Child.{
  signalled, ended, interrupted, started, Generated, Surroundings, confirm, spawn_status, wait_for,
}
use systemd_cron.Tool.Generated.{source, ends_with, IsGenerator, main-test, main-translate}
use systemd_cron.Tool.Options.{World, main, act, testing, translating, translated, make_directory}
use systemd_cron.Tool.Startup.{Made}
use systemd_cron.Tool.Tests.{helper, session}
use systemd_cron.Vore.Uint.{parse_uint, c_string, strtoull}

abbrev login : Bytes
login = codes "ann"

-- No file but the standard input.
abbrev no_files : Bytes → File
no_files p = missing

abbrev killed : Generated
killed = record { spawn = started (ended (signalled 11)); timer = []; service = [] }

abbrev of_check : Run ℕ → Generated
of_check (done n) = ends_with host draws login no_files n [] []
of_check out_of_bounds = killed
of_check spinning = killed

abbrev of_translation : Run Translation → Generated
of_translation (done t) = ends_with host draws login no_files t.status t.timer t.service
of_translation out_of_bounds = killed
of_translation spinning = killed

abbrev generator : Bytes → Bytes → Bytes → Generated
generator op file stdin =
    if equal op (codes "--check")
    then of_check (Check.check host draws file (source host draws login no_files stdin file))
    else of_translation (Check.translate host (draws 0) login file)

abbrev surroundings : Surroundings
surroundings = record {
  generator = generator;
  stdin = codes "1 2 3 4 * ls\n@daily ls\n";
  stdin_regular = false;
  tmpfile = true;
  dev_fd = false;
  analyze = none;
  rpmatch = λ l.
      if starts_with (codes "y") l
      then some true
      else if starts_with (codes "n") l
      then some false
      else none;
  euid = 1000;
  helper_is_setgid = true;
  no_color = none;
  term = none;
  isatty = false;
  version = codes "2";
}

surroundings-IsGenerator : IsGenerator host draws login no_files surroundings
unfolding equal
surroundings-IsGenerator = record {
  checks = λ file n ran. ap of_check ran;
  translates = λ line t ran. ap of_translation ran;
}

abbrev world : World
world = record {
  current_user = some login;
  knows = λ u. true;
  crontab_dir = codes "/c";
  has_directory = true;
  reboot_file = codes "/r";
  session = λ u. session;
  is_root = false;
  entries = [];
  surroundings = surroundings;
}

abbrev parsed : Run (Bool × Reader)
parsed = parse_crontab host draws (check_crontab (codes "-")) [] (contents surroundings.stdin)

abbrev reader : Reader
reader = elim parsed [
  | done r ↦ r.1
  | out_of_bounds ↦ record { environment = []; cron_inherit_variables = []; jobs = [] }
  | spinning ↦ record { environment = []; cron_inherit_variables = []; jobs = [] }
]

main-test_example :
    ((main faultless helper world (act testing ∷ []) (codes "-" ∷ []) blank).0.status
      ≡ (if true && all passes reader.jobs then 0 else 1))
    × ((q : Bytes)
        → Made
            (codes "/r")
            q
            blank
            (main faultless helper world (act testing ∷ []) (codes "-" ∷ []) blank).1)
unfolding make_directory parse_crontab contains equal starts_with parse_period cut parse_uint
    c_string strtoull ranged star walk between insert_between dow_map month_map int_map less emplace
    decimal
main-test_example =
    main-test host draws login no_files faultless helper world surroundings-IsGenerator login refl
      refl (codes "-") refl true reader refl blank refl

abbrev translation : Translation
translation = elim (Check.translate host (draws 0) login (codes "@daily ls")) [
  | done t ↦ t
  | out_of_bounds ↦ record { timer = []; service = []; status = 1 }
  | spinning ↦ record { timer = []; service = []; status = 1 }
]

main-translate_example :
    ((main faultless helper world (act translating ∷ []) (codes "@daily ls" ∷ []) blank).0 ≡ (
      if translation.status == 0
      then translated faultless helper world translation.timer translation.service
      else record { status = translation.status; out = [] }))
    × ((q : Bytes)
        → Made
            (codes "/r")
            q
            blank
            (main faultless helper world (act translating ∷ []) (codes "@daily ls" ∷ []) blank).1)
unfolding make_directory Check.translate starts_with new_job
main-translate_example =
    main-translate host draws login no_files faultless helper world surroundings-IsGenerator login
      refl refl refl (codes "@daily ls") translation refl blank refl

-- A wait that is interrupted goes on, and a signal counts from 128.
killed_run : spawn_status (started (interrupted (ended (signalled 9)))) ≡ 137
unfolding spawn_status wait_for
killed_run = refl

-- The first answer that is yes or no counts.
confirm_run : confirm (record surroundings { stdin = codes "what\nno\nyes\n" }) ≡ false
unfolding confirm starts_with fgets_all
confirm_run = refl
