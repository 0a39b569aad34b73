-- ===== src/Tool/Generated.antt =====
-- The command on top of the generator of this repository: `crontab -T` and `crontab -t`.
mod Tests
use systemd_cron.Base.{
  ℕ, ◌≡◌, refl, subst, sym, ap, ◌∙◌, List, [], ◌∷◌, ◌++◌, Option, none, some, Bool, true, false,
  ◌&&◌, not, if◌then◌else◌, ◌==◌, Bytes, codes, equal, all, arith, inl, inr, Bool-cases, ◌||◌,
}
use systemd_cron.Generator.Check.{check_crontab, passes, Translation}
use systemd_cron.Generator.Check
use systemd_cron.Generator.Crontab.{File, contents, Reader, parse_crontab}
use systemd_cron.Generator.Host.{Host}
use systemd_cron.Generator.Job.Parse.{Draws}
use systemd_cron.Generator.Run.{Run, done, out_of_bounds, spinning}
use systemd_cron.Setgid.{Exit, quits}
use systemd_cron.Sys.{Oracle, Disk, touch}
use systemd_cron.Tool.Child.{
  Ended, exited, signalled, Wait, ended, Spawn, started, wait_for, exit_code, spawn_status,
  Generated, Surroundings, run_generator, check,
}
use systemd_cron.Tool.Options.{
  World, test, translate, translated, main, dispatch, for_user, make_directory, choose,
  read_options, with_operands, act, testing, translating,
}
use systemd_cron.Tool.Startup.{Made, started-Made}
use systemd_cron.Tool.{Helper}

module _ (host : Host) (draws : ℕ → Draws) (login : Bytes) (read : Bytes → File) where
  -- The file that the generator opens for this name.
  abbrev pub source : Bytes → Bytes → File
  source stdin file = if equal file (codes "-") then contents stdin else read file

  abbrev pub ends_with : ℕ → Bytes → Bytes → Generated
  ends_with n timer service = record {
    spawn = started (ended (exited n));
    timer = timer;
    service = service;
  }

  -- The generator that the command starts is the one of this repository: a run of it that comes to
  -- an end does so with the status of its mode, and has written what that mode writes.
  pub record IsGenerator (w : Surroundings) : Type 0 where
    pub checks :
        (file : Bytes) (n : ℕ)
        → Check.check host draws file (source w.stdin file) ≡ done n
        → w.generator (codes "--check") file w.stdin ≡ ends_with n [] []
    pub translates :
        (line : Bytes) (t : Translation)
        → Check.translate host (draws 0) login line ≡ done t
        → w.generator (codes "--translate") line w.stdin ≡ ends_with t.status t.timer t.service

  -- May the input be copied in full where it has to be?
  abbrev pub is_readable : Surroundings → Bytes → Bool
  is_readable w file = not (equal file (codes "-")) || w.stdin_regular || w.tmpfile

  check-Generator :
      (w : Surroundings)
      → IsGenerator w
      → (file : Bytes) → is_readable w file ≡ true
      → (n : ℕ) → Check.check host draws file (source w.stdin file) ≡ done n
      → check w file ≡ (n == 0)
  unfolding check run_generator spawn_status wait_for
  check-Generator w is file readable n ran =
      let run = is.checks file n ran in ground (arith, ap (λ g. spawn_status g.spawn) run)

  test_accepts :
      (o : Oracle) (helper : Helper) (w : World)
      → IsGenerator w.surroundings
      → (file : Bytes) → is_readable w.surroundings file ≡ true
      → (ok : Bool) (r : Reader)
      → parse_crontab host draws (check_crontab file) [] (source w.surroundings.stdin file)
        ≡ done (ok, r)
      → (d : Disk)
      → ((test o helper w file d).0.status ≡ (if ok && all passes r.jobs then 0 else 1))
        × ((test o helper w file d).1 ≡ d)
  unfolding test Check.check
  test_accepts o helper w is file readable ok r parsed d =
      let n : ℕ = if ok && all passes r.jobs then 0 else 1 in
      let accepts =
        check-Generator w.surroundings is file readable n (rw (parsed, Check.check) refl) in
      elim (Bool-cases (ok && all passes r.jobs)) [
        | inl e ↦
            let yes : check w.surroundings file ≡ true = accepts ∙ rw e refl in
            rw (yes, e) (refl, refl)
        | inr e ↦
            let no : check w.surroundings file ≡ false = accepts ∙ rw e refl in
            rw (no, e) (refl, refl)
      ]

  translate_prints :
      (o : Oracle) (helper : Helper) (w : World)
      → IsGenerator w.surroundings
      → w.surroundings.tmpfile ≡ true
      → (line : Bytes) (t : Translation) → Check.translate host (draws 0) login line ≡ done t
      → (d : Disk)
      → translate o helper w line d ≡ (
        if t.status == 0
            then translated o helper w t.timer t.service
            else record { status = t.status; out = [] },
        d,
      )
  unfolding translate run_generator spawn_status wait_for
  translate_prints o helper w is files line t ran d =
      let run = is.translates line t ran in
      elim (Bool-cases (t.status == 0)) [
        | inl e ↦ rw (run, files, e) refl
        | inr e ↦ rw (run, files, e) refl
      ]

  -- `crontab -T`, for a user who is known, where the directory of the crontabs is there or can be
  -- made, on a file that it can read or copy in full and that the generator of this repository
  -- reads to an end, exits with 0 exactly if the file could be read and every job in it passes the
  -- generator's check, else with 1. No file changes, but that an empty REBOOT_FILE may be made where
  -- there is none.
  pub main-test :
      (o : Oracle) (helper : Helper) (w : World)
      → IsGenerator w.surroundings
      → (user : Bytes) → w.current_user ≡ some user
      → w.knows user ≡ true
      → (file : Bytes) → is_readable w.surroundings file ≡ true
      → (ok : Bool) (r : Reader)
      → parse_crontab host draws (check_crontab file) [] (source w.surroundings.stdin file)
        ≡ done (ok, r)
      → (d : Disk) → (make_directory o helper w d).0 ≡ true
      → ((main o helper w (act testing ∷ []) (file ∷ []) d).0.status
          ≡ (if ok && all passes r.jobs then 0 else 1))
        × ((q : Bytes)
            → Made w.reboot_file q d (main o helper w (act testing ∷ []) (file ∷ []) d).1)
  unfolding main choose for_user dispatch read_options with_operands
  main-test o helper w is user current known file readable ok r parsed d made =
      let e = (touch o w.reboot_file (make_directory o helper w d).1).1 in
      let (status, same) = test_accepts o helper w is file readable ok r parsed e in
      rw (current, known, made)
        (
          status,
          λ q. subst (λ x. Made w.reboot_file q d x) (sym same) (started-Made o helper w q d),
        )

  -- `crontab -t`, for a user who is known, where the directory of the crontabs is there or can be
  -- made, temporary files can be had and the generator of this repository reads the line to an end,
  -- prints the timer and the service that the generator makes of the line, each under its heading,
  -- if the job is valid; else it prints nothing and exits with the generator's status. No file
  -- changes, but that an empty REBOOT_FILE may be made where there is none.
  pub main-translate :
      (o : Oracle) (helper : Helper) (w : World)
      → IsGenerator w.surroundings
      → (user : Bytes) → w.current_user ≡ some user
      → w.knows user ≡ true
      → w.surroundings.tmpfile ≡ true
      → (line : Bytes) (t : Translation) → Check.translate host (draws 0) login line ≡ done t
      → (d : Disk) → (make_directory o helper w d).0 ≡ true
      → ((main o helper w (act translating ∷ []) (line ∷ []) d).0 ≡ (
          if t.status == 0
          then translated o helper w t.timer t.service
          else record { status = t.status; out = [] }))
        × ((q : Bytes)
            → Made w.reboot_file q d (main o helper w (act translating ∷ []) (line ∷ []) d).1)
  unfolding main choose for_user dispatch read_options with_operands
  main-translate o helper w is user current known files line t ran d made =
      let e = (touch o w.reboot_file (make_directory o helper w d).1).1 in
      let run = translate_prints o helper w is files line t ran e in
      rw (current, known, made)
        (
          ap (λ x. x.0) run,
          λ q.
              subst (λ x. Made w.reboot_file q d x) (sym (ap (λ x. x.1) run))
                (started-Made o helper w q d),
        )
