-- ===== src/Tool/Edit.antt =====
-- `edit` of src/bin/crontab.cpp: the editor runs on a copy, which then replaces the crontab.
use systemd_cron.Base.{ℕ, ◌==◌, [], ◌++◌, none, some, ◌||◌, not, if◌then◌else◌, Bytes, codes}
use systemd_cron.Setgid.{Exit, quits}
use systemd_cron.Sys.{
  Oracle, M, pure, ◌>>=◌, failed, opened, fails, fopen, mkstemp, unlink, lookup_file, put_file,
  enoent, enospc, erofs,
}
use systemd_cron.Tool.Copy.{copy_and_flush}
use systemd_cron.Tool.{Session, Helper, run_helper, replace_crontab}

abbrev pub header : Bytes
header = codes "# min hour dom month dow command\n"

-- What the editor is to start with, or the status to leave with.
pub data Start : Type 0 where
  leaves : ℕ → Start
  starts : Bytes → Start

module _ (o : Oracle) (helper : Helper) (s : Session) where
  -- `unlink` at the end of `edit`, where the path is armed, and its status.
  unfoldable pub clean_up : ℕ → M Exit
  clean_up status = do e ← unlink o s.tmp_path; quits status

  unfoldable pub from_helper : M Start
  unfolding run_helper
  from_helper = do
    r ← run_helper o helper s [] (codes "r")
    pure (
        if r.status == 0
        then starts r.out
        else if r.status == 127 || r.status == enoent
        then starts (r.out ++ header)
        else leaves r.status)

  unfoldable pub first_text : M Start
  unfolding from_helper
  first_text = do
    f ← fopen o s.cron_file
    elim f [
      | opened text ↦ pure (starts text)
      | failed err ↦
          if err == enoent
          then pure (starts header)
          else if not s.is_current
          then pure (leaves 1)
          else if s.have_setgid
          then from_helper
          else pure (leaves 1)
    ]

  -- The editor runs on the temporary file.
  unfoldable pub run_editor : M ℕ
  run_editor = do
    text ← lookup_file s.tmp_path
    e ← put_file s.tmp_path (s.editor text).1
    pure (s.editor text).0

  -- The helper takes the edit, or it is kept.
  unfoldable pub hand_over : Bytes → M Exit
  unfolding run_helper clean_up
  hand_over from = do
    r ← run_helper o helper s from (codes "w")
    if r.status == 0 then clean_up 0 else quits r.status

  -- The end of `edit`, after an error of `replace_crontab`: the edit is kept, but where the helper
  -- takes it.
  unfoldable pub edit_otherwise : Bytes → ℕ → M Exit
  unfolding hand_over
  edit_otherwise from err =
      if not s.is_current || (err == enospc || err == erofs)
      then quits 1
      else if s.have_setgid
      then hand_over from
      else quits 1

  -- After the editor has ended well.
  unfoldable pub install_text : Bytes → M Exit
  unfolding replace_crontab edit_otherwise clean_up
  install_text from = do
    r ← replace_crontab o helper s from
    elim r [ none ↦ clean_up 0 | some err ↦ edit_otherwise from err ]

  -- `freopen`, where any failure cancels the edit.
  unfoldable pub reopen : M Exit
  unfolding install_text clean_up
  reopen = do
    f ← fopen o s.tmp_path
    elim f [ failed n ↦ clean_up 0 | opened from ↦ install_text from ]

  unfoldable pub install_edit : M Exit
  unfolding reopen
  install_edit = do text ← lookup_file s.tmp_path; if s.check text then reopen else quits 1

  unfoldable pub edit_text : M Exit
  unfolding run_editor install_edit clean_up
  edit_text = do
    v ← fails o
    elim v [
      | some n ↦ clean_up 125
      | none ↦ do
        x ← fails o
        elim x [
          | some n ↦ if n == enoent then clean_up 127 else quits 126
          | none ↦ do
            status ← run_editor
            (if status == 0
                then install_edit
                else if status == 127
                then clean_up 127
                else quits status)
        ]
    ]

  unfoldable pub edit : M Exit
  unfolding first_text edit_text clean_up copy_and_flush
  edit = do
    m ← mkstemp o s.tmp_path
    elim m [
      | some n ↦ clean_up 1
      | none ↦ do
        f ← fails o
        elim f [
          | some n ↦ clean_up 1
          | none ↦ do
            t ← first_text
            elim t [
              | leaves status ↦ clean_up status
              | starts text ↦ do
                c ← copy_and_flush o text
                w ← put_file s.tmp_path (some c.1)
                edit_text
            ]
        ]
    ]
