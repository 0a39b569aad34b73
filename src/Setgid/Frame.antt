-- ===== src/Setgid/Frame.antt =====
-- What the helper leaves alone.
use systemd_cron.Base.{ℕ, ◌+◌, ◌≡◌, refl, List, [], ◌∷◌, ◌++◌, some, false, Bytes, equal, arith}
use systemd_cron.Setgid.{
  Caller, crontab_of, temp_of, copy_lines, gives_up, close_and_rename, install, write_crontab,
  read_crontab, delete_crontab, act, main, lines_of, max_command, cron_allow, cron_deny,
}
use systemd_cron.Sys.Keeps.{
  Keeps, Keeps-fopen, Keeps-mkstemp, Keeps-write_all, Keeps-unlink, Keeps-rename,
}
use systemd_cron.Sys.{Oracle, Disk, fails, fopen, mkstemp, write_all, rename}
use systemd_cron.Vore.Uint.{c_string}

module _ (o : Oracle) (c : Caller) (name : Bytes) (q : Bytes)
    (not_temp : equal q (temp_of c name) ≡ false) where
  pub copy_lines-Keeps :
      (lines : ℕ) (written : Bytes) (bs : List Bytes)
      → Keeps q (copy_lines o c name lines written bs)
  unfolding copy_lines
  copy_lines-Keeps lines written [] d = refl
  copy_lines-Keeps lines written (b ∷ bs) d =
      let text = written ++ c_string b in
      let d' = (write_all o (temp_of c name) text d).1 in
      ground (
        arith,
        Keeps-write_all o q (temp_of c name) text not_temp d,
        copy_lines-Keeps (lines + 1) text bs d',
      )

  pub gives_up-Keeps : Keeps q (gives_up o c name)
  unfolding gives_up
  gives_up-Keeps d = Keeps-unlink o q (temp_of c name) not_temp d

  module _ (not_crontab : equal q (crontab_of c name) ≡ false) where
    close_and_rename-Keeps : Keeps q (close_and_rename o c name)
    unfolding close_and_rename
    close_and_rename-Keeps d =
        let d1 = (fails o d).1 in
        let d2 = (rename o (temp_of c name) (crontab_of c name) d1).1 in
        ground (
          arith,
          gives_up-Keeps d1,
          Keeps-rename o q (temp_of c name) (crontab_of c name) not_temp not_crontab d1,
          gives_up-Keeps d2,
        )

    install-Keeps : Keeps q (install o c name)
    unfolding install
    install-Keeps d =
        let d1 = (mkstemp o (temp_of c name) d).1 in
        let d2 = (fails o d1).1 in
        let r = copy_lines o c name 0 [] (lines_of max_command c.stdin) in
        ground (
          arith,
          Keeps-mkstemp o q (temp_of c name) not_temp d,
          gives_up-Keeps d2,
          copy_lines-Keeps 0 [] (lines_of max_command c.stdin) d2,
          gives_up-Keeps (r d2).1,
          close_and_rename-Keeps (r d2).1,
        )

    write_crontab-Keeps : Keeps q (write_crontab o c name)
    unfolding write_crontab
    write_crontab-Keeps d =
        let d1 = (fopen o cron_allow d).1 in
        let d2 = (fopen o cron_deny d1).1 in
        ground (
          arith,
          Keeps-fopen o q cron_allow d,
          install-Keeps d1,
          Keeps-fopen o q cron_deny d1,
          install-Keeps d2,
        )

    act-Keeps : (arg : Bytes) → Keeps q (act o c name arg)
    unfolding act read_crontab delete_crontab
    act-Keeps [] d = refl
    act-Keeps (a ∷ s) d = ground (
      arith,
      write_crontab-Keeps d,
      Keeps-fopen o q (crontab_of c name) d,
      Keeps-unlink o q (crontab_of c name) not_crontab d,
    )

-- Whatever the arguments, and whatever calls fail, the helper leaves every file alone but the
-- crontab of its caller and the temporary file beside it.
pub main-Keeps :
    (o : Oracle) (c : Caller) (name : Bytes) (args : List Bytes) (q : Bytes) (d : Disk)
    → c.pw_name ≡ some name
    → equal q (crontab_of c name) ≡ false
    → equal q (temp_of c name) ≡ false
    → (main o c args d).1.files q ≡ d.files q
unfolding main
main-Keeps o c name [] q d h k l = ground arith
main-Keeps o c name (a ∷ []) q d h k l = ground (arith, act-Keeps o c name q l k a d)
main-Keeps o c name (a ∷ b ∷ more) q d h k l = ground arith
