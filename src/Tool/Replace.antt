-- ===== src/Tool/Replace.antt =====
-- What `replace_crontab` and the helper install. Where they fail, the crontab is as it was.
use systemd_cron.Base.{
  equal_refl, ◌⊎◌, refl, ℕ, ◌≡◌, ◌≢◌, [], ◌∷◌, some, none, false, Bytes, codes, equal, arith, ◌==◌,
}
use systemd_cron.Setgid.Access.{main_failed, main_written}
use systemd_cron.Setgid.Frame.{main-Keeps}
use systemd_cron.Setgid.Install.{copy_of}
use systemd_cron.Setgid.{Caller, crontab_of, temp_of, main}
use systemd_cron.Sys.Keeps.{
  Keeps, Keeps-mkstemp, Keeps-unlink, Keeps-rename, rename_failed, rename_done,
}
use systemd_cron.Sys.{put_file, Oracle, Disk, fails, mkstemp, rename}
use systemd_cron.Tool.Copy.{
  blocks, copy_and_flush, copy_and_flush_done, Keeps-copy_and_flush, Loses,
}
use systemd_cron.Tool.{
  Session, Helper, exec_helper, run_helper, drops, replace_crontab, replace_otherwise,
}

-- What the command relies on of its helper: a failure leaves the crontab alone, a write that
-- succeeds installs its input, and no other file of the command is touched.
pub record IsHelper (helper : Helper) (s : Session) : Type 0 where
  pub failure :
      (stdin arg : Bytes) (d : Disk)
      → (helper stdin arg d).0.status ≢ 0
      → (helper stdin arg d).1.files s.cron_file ≡ d.files s.cron_file
  pub written :
      (stdin : Bytes) (d : Disk)
      → (helper stdin (codes "w") d).0.status ≡ 0
      → (helper stdin (codes "w") d).1.files s.cron_file ≡ some (copy_of stdin)
  pub frame : (stdin arg : Bytes) → Keeps s.tmp_path (helper stdin arg)

-- The command's files differ.
pub record IsSeparate (s : Session) : Type 0 where
  pub cron_final : equal s.cron_file s.final_tmp_path ≡ false
  pub tmp_final : equal s.tmp_path s.final_tmp_path ≡ false
  pub tmp_cron : equal s.tmp_path s.cron_file ≡ false
  pub cron_tmp : equal s.cron_file s.tmp_path ≡ false

-- The helper of this repository, called by the user of the session.
abbrev pub setgid_helper : Oracle → Caller → Helper
setgid_helper o c stdin arg = main o (record c { stdin = stdin }) (arg ∷ [])

pub setgid_helper-IsHelper :
    (o : Oracle) (c : Caller) (name : Bytes) (s : Session)
    → c.pw_name ≡ some name
    → (c.uid == 0) ≡ false
    → s.cron_file ≡ crontab_of c name
    → equal s.tmp_path (crontab_of c name) ≡ false
    → equal s.tmp_path (temp_of c name) ≡ false
    → IsHelper (setgid_helper o c) s
setgid_helper-IsHelper o c name s named user own far far' = record {
  failure = λ stdin arg d h.
      rw own (main_failed o (record c { stdin = stdin }) name (arg ∷ []) d named h);
  written = λ stdin d h. rw own (main_written o (record c { stdin = stdin }) name d named user h).0;
  frame = λ stdin arg d.
      main-Keeps o (record c { stdin = stdin }) name (arg ∷ []) s.tmp_path d named far far';
}

module _ (o : Oracle) (helper : Helper) (s : Session) (H : IsHelper helper s)
    (S : IsSeparate s) where
  pub run_helper_failed :
      (stdin arg : Bytes) (d : Disk)
      → (run_helper o helper s stdin arg d).0.status ≢ 0
      → (run_helper o helper s stdin arg d).1.files s.cron_file ≡ d.files s.cron_file
  unfolding run_helper exec_helper
  run_helper_failed stdin arg d h = ground (arith, H.failure stdin arg (fails o (fails o d).1).1)

  pub run_helper_written :
      (stdin : Bytes) (d : Disk)
      → (run_helper o helper s stdin (codes "w") d).0.status ≡ 0
      → (run_helper o helper s stdin (codes "w") d).1.files s.cron_file ≡ some (copy_of stdin)
  unfolding run_helper exec_helper
  run_helper_written stdin d h = ground (arith, H.written stdin (fails o (fails o d).1).1)

  pub run_helper-Keeps : (stdin arg : Bytes) → Keeps s.tmp_path (run_helper o helper s stdin arg)
  unfolding run_helper exec_helper
  run_helper-Keeps stdin arg d = ground (arith, H.frame stdin arg (fails o (fails o d).1).1)

  pub replace_crontab_failed :
      (from : Bytes) (d : Disk)
      → (replace_crontab o helper s from d).0 ≢ none
      → (replace_crontab o helper s from d).1.files s.cron_file ≡ d.files s.cron_file
  unfolding replace_crontab drops
  replace_crontab_failed from d h =
      let p = s.cron_file in
      let t = s.final_tmp_path in
      let d1 = (mkstemp o t d).1 in
      let d2 = (fails o d1).1 in
      let c = copy_and_flush o from d2 in
      let d3 = (put_file t (some c.0.1) c.1).1 in
      let d4 = (rename o t p d3).1 in
      ground (
        arith,
        Keeps-mkstemp o p t S.cron_final d,
        S.cron_final,
        Keeps-copy_and_flush o p from d2,
        Keeps-unlink o p t S.cron_final d3,
        rename_failed o p t p d3,
        Keeps-unlink o p t S.cron_final d4,
      )

  -- What is the crontab after `replace_crontab`: the text, but for what `fwrite` failed to write.
  pub replace_crontab_done :
      (from : Bytes) (d : Disk)
      → (replace_crontab o helper s from d).0 ≡ none
      → (r : Bytes) × ((replace_crontab o helper s from d).1.files s.cron_file ≡ some r)
        × ((r ≡ from) ⊎ ((n : ℕ) × Loses o n (blocks from) r))
  unfolding replace_crontab drops
  replace_crontab_done from d h =
      let t = s.final_tmp_path in
      let d2 = (fails o (mkstemp o t d).1).1 in
      let c = copy_and_flush o from d2 in
      let d3 = (put_file t (some c.0.1) c.1).1 in
      let there : d3.files t ≡ some c.0.1 = rw (equal_refl t) refl in
      (
        c.0.1,
        ground (arith, rename_done o t s.cron_file c.0.1 d3 there),
        copy_and_flush_done o from d2 (ground arith),
      )

  pub replace_crontab-Keeps : (from : Bytes) → Keeps s.tmp_path (replace_crontab o helper s from)
  unfolding replace_crontab drops
  replace_crontab-Keeps from d =
      let p = s.tmp_path in
      let t = s.final_tmp_path in
      let d1 = (mkstemp o t d).1 in
      let d2 = (fails o d1).1 in
      let c = copy_and_flush o from d2 in
      let d3 = (put_file t (some c.0.1) c.1).1 in
      let d4 = (rename o t s.cron_file d3).1 in
      ground (
        arith,
        Keeps-mkstemp o p t S.tmp_final d,
        S.tmp_final,
        Keeps-copy_and_flush o p from d2,
        Keeps-unlink o p t S.tmp_final d3,
        Keeps-rename o p t s.cron_file S.tmp_final S.tmp_cron d3,
        Keeps-unlink o p t S.tmp_final d4,
      )

  pub replace_otherwise_failed :
      (from : Bytes) (err : ℕ) (d : Disk)
      → (replace_otherwise o helper s from err d).0.status ≢ 0
      → (replace_otherwise o helper s from err d).1.files s.cron_file ≡ d.files s.cron_file
  unfolding replace_otherwise
  replace_otherwise_failed from err d h = ground (arith, run_helper_failed from (codes "w") d)
