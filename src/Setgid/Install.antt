-- ===== src/Setgid/Install.antt =====
-- What the helper writes: the whole text, or nothing.
use systemd_cron.Base.{
  inl, inr, ◌⊎◌, ℕ, ◌+◌, ◌≤◌, ◌≡◌, ◌≢◌, refl, List, [], ◌∷◌, ◌++◌, some, false, Bytes, equal, arith,
  length, concat, map, append_assoc, append-nil,
}
use systemd_cron.Setgid.Frame.{copy_lines-Keeps, gives_up-Keeps}
use systemd_cron.Setgid.{
  write_error, too_many, Caller, Copied, all_of_it, write_error, too_many, crontab_of, temp_of,
  copy_lines, gives_up, close_and_rename, install, write_crontab, read_crontab, delete_crontab, act,
  lines_of, max_command, max_lines, cron_allow, cron_deny,
}
use systemd_cron.Sys.Keeps.{
  Keeps-fopen, Keeps-mkstemp, rename_failed, unlink_failed, write_all_done, mkstemp_done,
  rename_done,
}
use systemd_cron.Sys.{Oracle, Disk, fails, fopen, mkstemp, write_all, rename}
use systemd_cron.Vore.Uint.{c_string}

Copied-cases :
    (x : Copied) → ((s : Bytes) × (x ≡ all_of_it s)) ⊎ ((x ≡ write_error) ⊎ (x ≡ too_many))
Copied-cases (all_of_it s) = inl (s, refl)
Copied-cases write_error = inr (inl refl)
Copied-cases too_many = inr (inr refl)

equal-longer : (s : Bytes) (x : ℕ) (t : Bytes) → equal s (s ++ x ∷ t) ≡ false
unfolding equal
equal-longer [] x t = refl
equal-longer (c ∷ s) x t = ground (arith, equal-longer s x t)

-- The text that is copied: each line up to its first NUL.
abbrev pub copy_of : Bytes → Bytes
copy_of s = concat (map c_string (lines_of max_command s))

module _ (o : Oracle) (c : Caller) (name : Bytes) where
  crontab_not_temp : equal (crontab_of c name) (temp_of c name) ≡ false
  crontab_not_temp = equal-longer (crontab_of c name) b'.' c.temp_suffix

  close_and_rename_failed :
      (d : Disk)
      → (close_and_rename o c name d).0.status ≢ 0
      → (close_and_rename o c name d).1.files (crontab_of c name) ≡ d.files (crontab_of c name)
  unfolding close_and_rename gives_up
  close_and_rename_failed d h =
      let p = crontab_of c name in
      let d1 = (fails o d).1 in
      let d2 = (rename o (temp_of c name) p d1).1 in
      ground (
        arith,
        gives_up-Keeps o c name p crontab_not_temp d1,
        gives_up-Keeps o c name p crontab_not_temp d2,
        rename_failed o p (temp_of c name) p d1,
      )

  install_failed :
      (d : Disk)
      → (install o c name d).0.status ≢ 0
      → (install o c name d).1.files (crontab_of c name) ≡ d.files (crontab_of c name)
  unfolding install
  install_failed d h =
      let p = crontab_of c name in
      let d1 = (mkstemp o (temp_of c name) d).1 in
      let d2 = (fails o d1).1 in
      let r = copy_lines o c name 0 [] (lines_of max_command c.stdin) in
      ground (
        arith,
        Keeps-mkstemp o p (temp_of c name) crontab_not_temp d,
        gives_up-Keeps o c name p crontab_not_temp d2,
        copy_lines-Keeps o c name p crontab_not_temp 0 [] (lines_of max_command c.stdin) d2,
        gives_up-Keeps o c name p crontab_not_temp (r d2).1,
        close_and_rename_failed (r d2).1,
      )

  write_crontab_failed :
      (d : Disk)
      → (write_crontab o c name d).0.status ≢ 0
      → (write_crontab o c name d).1.files (crontab_of c name) ≡ d.files (crontab_of c name)
  unfolding write_crontab
  write_crontab_failed d h =
      let p = crontab_of c name in
      let d1 = (fopen o cron_allow d).1 in
      let d2 = (fopen o cron_deny d1).1 in
      ground (
        arith,
        Keeps-fopen o p cron_allow d,
        install_failed d1,
        Keeps-fopen o p cron_deny d1,
        install_failed d2,
      )

  pub act_failed :
      (arg : Bytes) (d : Disk)
      → (act o c name arg d).0.status ≢ 0
      → (act o c name arg d).1.files (crontab_of c name) ≡ d.files (crontab_of c name)
  unfolding act read_crontab delete_crontab
  act_failed [] d h = refl
  act_failed (a ∷ s) d h =
      let p = crontab_of c name in
      ground (arith, write_crontab_failed d, Keeps-fopen o p p d, unlink_failed o p p d)

  -- The lines are in the temporary file, in full, if the copy comes to its end.
  copy_lines_done :
      (lines : ℕ) (written s : Bytes) (bs : List Bytes) (d : Disk)
      → d.files (temp_of c name) ≡ some written
      → lines ≤ max_lines
      → (copy_lines o c name lines written bs d).0 ≡ all_of_it s
      → (s ≡ written ++ concat (map c_string bs))
        × ((copy_lines o c name lines written bs d).1.files (temp_of c name) ≡ some s)
        × (lines + length bs ≤ max_lines)
  unfolding copy_lines
  copy_lines_done lines written s [] d f l h = ground (arith, append-nil written)
  copy_lines_done lines written s (b ∷ bs) d f l h =
      let text = written ++ c_string b in
      let d' = (write_all o (temp_of c name) text d).1 in
      ground (
        arith,
        write_all_done o (temp_of c name) text d,
        copy_lines_done (lines + 1) text s bs d',
        append_assoc written (c_string b) (concat (map c_string bs)),
      )

  close_and_rename_done :
      (s : Bytes) (d : Disk)
      → d.files (temp_of c name) ≡ some s
      → (close_and_rename o c name d).0.status ≡ 0
      → (close_and_rename o c name d).1.files (crontab_of c name) ≡ some s
  unfolding close_and_rename gives_up
  close_and_rename_done s d f h =
      ground (arith, rename_done o (temp_of c name) (crontab_of c name) s (fails o d).1)

  abbrev pub Installed : Disk → Type 0
  Installed d =
      (d.files (crontab_of c name) ≡ some (copy_of c.stdin))
      × (length (lines_of max_command c.stdin) ≤ max_lines)

  install_done : (d : Disk) → (install o c name d).0.status ≡ 0 → Installed (install o c name d).1
  unfolding install gives_up
  install_done d h =
      let t = temp_of c name in
      let d1 = (mkstemp o t d).1 in
      let d2 = (fails o d1).1 in
      let bs = lines_of max_command c.stdin in
      let r = copy_lines o c name 0 [] bs in
      elim (Copied-cases (r d2).0) [
        | inl (s, e) ↦ ground (
          arith,
          mkstemp_done o t d,
          copy_lines_done 0 [] s bs d2,
          close_and_rename_done s (r d2).1,
        )
        | inr e ↦ ground arith
      ]

  pub write_crontab_done :
      (d : Disk) → (write_crontab o c name d).0.status ≡ 0 → Installed (write_crontab o c name d).1
  unfolding write_crontab
  write_crontab_done d h =
      let d1 = (fopen o cron_allow d).1 in
      let d2 = (fopen o cron_deny d1).1 in ground (arith, install_done d1, install_done d2)
