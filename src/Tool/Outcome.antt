-- ===== src/Tool/Outcome.antt =====
-- What `replace` and `edit` come to.
use systemd_cron.Base.{
  ◌∙◌, ℕ, ◌≡◌, ◌≢◌, ◌⊎◌, inl, inr, refl, some, none, true, false, Bytes, codes, arith, Option-cases,
}
use systemd_cron.Setgid.Install.{copy_of}
use systemd_cron.Sys.Keeps.{Keeps, Keeps-fopen, Keeps-unlink}
use systemd_cron.Sys.{Oracle, Disk, Opened, opened, failed, fails, fopen}
use systemd_cron.Tool.Copy.{blocks, Loses}
use systemd_cron.Tool.Edit.{install_edit, install_text, reopen, edit_otherwise, hand_over, clean_up}
use systemd_cron.Tool.Replace.{
  IsHelper, IsSeparate, run_helper_failed, run_helper_written, run_helper-Keeps,
  replace_crontab_failed, replace_crontab_done, replace_crontab-Keeps, replace_otherwise_failed,
}
use systemd_cron.Tool.{
  Session, Helper, run_helper, replace_crontab, open_source, open_stdin, replace,
}

Opened-cases : (r : Opened) → ((n : ℕ) × (r ≡ failed n)) ⊎ ((t : Bytes) × (r ≡ opened t))
Opened-cases (failed n) = inl (n, refl)
Opened-cases (opened t) = inr (t, refl)

module _ (o : Oracle) (helper : Helper) (s : Session) where
  open_source-Keeps : (q file : Bytes) → Keeps q (open_source o helper s file)
  unfolding open_source open_stdin
  open_source-Keeps q file d = ground (arith, Keeps-fopen o q file d)

  -- A text that the generator refuses is not installed: the status is 1, and no file changes.
  pub replace_rejected :
      (file text q : Bytes) (d : Disk)
      → (open_source o helper s file d).0 ≡ opened text
      → s.check (some text) ≡ false
      → ((replace o helper s file d).0.status ≡ 1)
        × ((replace o helper s file d).1.files q ≡ d.files q)
  unfolding replace
  replace_rejected file text q d h k = ground (arith, open_source-Keeps q file d)

module _ (o : Oracle) (helper : Helper) (s : Session) (H : IsHelper helper s)
    (S : IsSeparate s) where
  -- If `replace` exits with another status than 0, whatever call fails, the crontab is as it was.
  pub replace_failed :
      (file : Bytes) (d : Disk)
      → (replace o helper s file d).0.status ≢ 0
      → (replace o helper s file d).1.files s.cron_file ≡ d.files s.cron_file
  unfolding replace
  replace_failed file d h = elim (Opened-cases (open_source o helper s file d).0) [
    | inl (n, e) ↦ ground (arith, open_source-Keeps o helper s s.cron_file file d)
    | inr (text, e) ↦
        let d1 = (open_source o helper s file d).1 in
        let r = replace_crontab o helper s text d1 in
        elim (Option-cases r.0) [
          | inl f ↦ ground (arith, open_source-Keeps o helper s s.cron_file file d)
          | inr (err, f) ↦ ground (
            arith,
            open_source-Keeps o helper s s.cron_file file d,
            replace_crontab_failed o helper s H S text d1,
            replace_otherwise_failed o helper s H S text err r.1,
          )
        ]
  ]

  -- The crontab is the text, as it is, or as the helper copies it, or without what `fwrite` failed to
  -- write of its blocks, which are the calls from the n-th on.
  abbrev pub Holds : Bytes → Disk → Type 0
  Holds text d =
      (r : Bytes) × (d.files s.cron_file ≡ some r)
      × ((r ≡ text) ⊎ ((r ≡ copy_of text) ⊎ ((n : ℕ) × Loses o n (blocks text) r)))

  by_rename :
      (text : Bytes) (d e : Disk)
      → d.files s.cron_file ≡ e.files s.cron_file
      → (r : Bytes) × (e.files s.cron_file ≡ some r)
        × ((r ≡ text) ⊎ ((n : ℕ) × Loses o n (blocks text) r))
      → Holds text d
  by_rename text d e same (r, there, inl whole) = (r, same ∙ there, inl whole)
  by_rename text d e same (r, there, inr lost) = (r, same ∙ there, inr (inr lost))

  by_helper : (text : Bytes) (d : Disk) → d.files s.cron_file ≡ some (copy_of text) → Holds text d
  by_helper text d there = (copy_of text, there, inr (inl refl))

  hand_over_done :
      (from : Bytes) (d : Disk)
      → (hand_over o helper s from d).0.status ≡ 0
      → (hand_over o helper s from d).1.files s.cron_file ≡ some (copy_of from)
  unfolding hand_over clean_up
  hand_over_done from d h =
      let r = run_helper o helper s from (codes "w") d in
      ground (
        arith,
        run_helper_written o helper s H S from d,
        Keeps-unlink o s.cron_file s.tmp_path S.cron_tmp r.1,
      )

  hand_over_kept :
      (from : Bytes) (d : Disk)
      → (hand_over o helper s from d).0.status ≢ 0
      → ((hand_over o helper s from d).1.files s.tmp_path ≡ d.files s.tmp_path)
        × ((hand_over o helper s from d).1.files s.cron_file ≡ d.files s.cron_file)
  unfolding hand_over clean_up
  hand_over_kept from d h = ground (
    arith,
    run_helper_failed o helper s H S from (codes "w") d,
    run_helper-Keeps o helper s H S from (codes "w") d,
  )

  install_text_done :
      (text : Bytes) (d : Disk)
      → (install_text o helper s text d).0.status ≡ 0
      → Holds text (install_text o helper s text d).1
  unfolding install_text edit_otherwise clean_up
  install_text_done text d h =
      let r = replace_crontab o helper s text d in
      elim (Option-cases r.0) [
        | inl f ↦
            by_rename text (install_text o helper s text d).1 r.1
              (ground (arith, Keeps-unlink o s.cron_file s.tmp_path S.cron_tmp r.1))
              (replace_crontab_done o helper s H S text d f)
        | inr (err, f) ↦
            by_helper text (install_text o helper s text d).1
              (ground (arith, hand_over_done text r.1))
      ]

  install_text_kept :
      (text : Bytes) (d : Disk)
      → (install_text o helper s text d).0.status ≢ 0
      → ((install_text o helper s text d).1.files s.tmp_path ≡ d.files s.tmp_path)
        × ((install_text o helper s text d).1.files s.cron_file ≡ d.files s.cron_file)
  unfolding install_text edit_otherwise clean_up
  install_text_kept text d h =
      let r = replace_crontab o helper s text d in
      ground (
        arith,
        replace_crontab-Keeps o helper s H S text d,
        replace_crontab_failed o helper s H S text d,
        hand_over_kept text r.1,
      )

  -- Once the editor has ended well and left a text that the generator accepts, and unless
  -- opening that text again fails: an edit that exits with 0 has installed it, as it is, or as the
  -- helper copies it, or without what `fwrite` failed to write of its blocks.
  pub install_edit_done :
      (text : Bytes) (d : Disk)
      → d.files s.tmp_path ≡ some text
      → s.check (some text) ≡ true
      → o.fault d.calls ≡ none
      → (install_edit o helper s d).0.status ≡ 0
      → Holds text (install_edit o helper s d).1
  unfolding install_edit reopen fopen
  install_edit_done text d there good works h =
      let (r, now, shape) = install_text_done text (fails o d).1 (ground arith) in
      (r, ground (arith, now), shape)

  -- An edit that exits with another status, once the editor has ended well, is kept in the
  -- temporary file, and the crontab is as it was, unless opening that file again fails.
  pub install_edit_kept :
      (text : Bytes) (d : Disk)
      → d.files s.tmp_path ≡ some text
      → o.fault d.calls ≡ none
      → (install_edit o helper s d).0.status ≢ 0
      → ((install_edit o helper s d).1.files s.tmp_path ≡ some text)
        × ((install_edit o helper s d).1.files s.cron_file ≡ d.files s.cron_file)
  unfolding install_edit reopen fopen
  install_edit_kept text d there works h = ground (arith, install_text_kept text (fails o d).1)
