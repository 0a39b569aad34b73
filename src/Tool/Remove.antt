-- ===== src/Tool/Remove.antt =====
-- `remove` of src/bin/crontab.cpp.
use systemd_cron.Base.{
  ℕ, ◌==◌, [], Option, none, some, Bool, true, false, ◌&&◌, not, if◌then◌else◌, codes,
}
use systemd_cron.Setgid.{Exit, quits}
use systemd_cron.Sys.{
  Oracle, M, pure, ◌>>=◌, fails, unlink, lookup_file, put_file, enoent, eacces, erofs,
}
use systemd_cron.Tool.{Session, Helper, exec_helper}

module _ (o : Oracle) (helper : Helper) (s : Session) where
  -- `truncate(cron_file, 0)`.
  unfoldable pub wipe : M (Option ℕ)
  wipe = do
    e ← fails o
    elim e [
      | some n ↦ pure (some n)
      | none ↦ do
        c ← lookup_file s.cron_file
        elim c [ none ↦ pure (some enoent) | some t ↦ put_file s.cron_file (some []) ]
    ]

  -- `!access(cron_file, F_OK)`.
  unfoldable pub exists : M Bool
  exists = do
    e ← fails o
    c ← lookup_file s.cron_file
    pure (elim e [ some n ↦ false | none ↦ elim c [ none ↦ false | some t ↦ true ] ])

  -- The end of `remove`, once the error is not that the file system is read-only.
  unfoldable pub wipe_instead : M Exit
  unfolding wipe
  wipe_instead = do t ← wipe; quits (elim t [ none ↦ 0 | some n ↦ 1 ])

  unfoldable pub remove_otherwise : ℕ → M Exit
  unfolding exec_helper wipe_instead
  remove_otherwise err =
      if not s.is_current
      then quits 1
      else if s.have_setgid
      then exec_helper o helper s [] (codes "d")
      else if err == eacces
      then wipe_instead
      else quits 1

  unfoldable pub read_only : M Exit
  unfolding exists
  read_only = do there ← exists; quits (if there then 0 else 1)

  unfoldable pub remove : Bool → M Exit
  unfolding read_only remove_otherwise
  remove ask = if ask && not s.confirmed then quits 0 else do
    u ← unlink o s.cron_file
    elim u [
      | none ↦ quits 0
      | some err ↦
          if err == enoent
          then quits 0
          else if err == erofs
          then read_only
          else remove_otherwise err
    ]
