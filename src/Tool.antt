-- ===== src/Tool.antt =====
-- src/bin/crontab.cpp: the command that shows, replaces, edits and removes crontabs. What it prints
-- to `stderr`, and the owner and group that it gives to files, are left out.
pub mod Copy
pub mod Edit
pub mod Remove
mod Tests
pub mod Replace
pub mod Options
pub mod Startup
pub mod Child
pub mod Accepted
pub mod Generated
pub mod Colour
pub mod Outcome
use systemd_cron.Base.{
  ℕ, ◌==◌, List, [], ◌∷◌, ◌++◌, Option, none, some, Bool, true, false, ◌||◌, ◌&&◌, not,
  if◌then◌else◌, Bytes, codes, equal,
}
use systemd_cron.Tool.Copy.{copy_and_flush}
use systemd_cron.Setgid.{Exit, quits}
use systemd_cron.Sys.{
  Oracle, Disk, M, pure, ◌>>=◌, ◌>>◌, Opened, failed, opened, fails, fopen, mkstemp, write_all,
  unlink, rename, lookup_file, put_file, enoent, eacces, enospc, erofs,
}

-- Who calls, for whom, and what the command finds: `is_current` tells whether the crontab is that
-- of the caller; `check` is the status of the generator's `--check` on a text, or on a file that
-- is gone; `editor` is what a run of the editor makes of the file that it is given.
pub record Session : Type 0 where
  pub is_current : Bool
  pub cron_file : Bytes
  pub final_tmp_path : Bytes
  pub tmp_path : Bytes
  pub have_setgid : Bool
  pub want_colour : Bool
  pub confirmed : Bool
  pub stdin : Bytes
  pub stdin_regular : Bool
  pub check : Option Bytes → Bool
  pub editor : Option Bytes → ℕ × Option Bytes

-- The setgid helper, as a command: its input, its argument, and what it does to the files.
abbrev pub Helper : Type 0
Helper = Bytes → Bytes → M Exit

module _ (o : Oracle) (helper : Helper) (s : Session) where
  -- `exec` of the helper.
  unfoldable pub exec_helper : Bytes → Bytes → M Exit
  exec_helper stdin arg = do
    e ← fails o
    elim e [ some n ↦ quits (if n == enoent then 127 else 126) | none ↦ helper stdin arg ]

  -- `vfork`, `exec` in the child, and the child's status.
  unfoldable pub run_helper : Bytes → Bytes → M Exit
  unfolding exec_helper
  run_helper stdin arg = do
    e ← fails o
    elim e [ some n ↦ quits 125 | none ↦ exec_helper stdin arg ]

  -- `return false` with the temporary file armed: it goes, and `errno` is that of the failure,
  -- unless removing the file fails too.
  unfoldable pub drops : ℕ → M (Option ℕ)
  drops n = do e ← unlink o s.final_tmp_path; pure (elim e [ none ↦ some n | some m ↦ some m ])

  -- `replace_crontab`: `none`, or the error that it leaves in `errno`.
  unfoldable pub replace_crontab : Bytes → M (Option ℕ)
  unfolding drops copy_and_flush
  replace_crontab from = do
    m ← mkstemp o s.final_tmp_path
    elim m [
      | some n ↦ pure (some n)
      | none ↦ do
        f ← fails o
        elim f [
          | some n ↦ pure (some n)
          | none ↦ do
            c ← copy_and_flush o from
            w ← put_file s.final_tmp_path (some c.1)
            elim c.0 [
              | some n ↦ drops n
              | none ↦ do
                r ← rename o s.final_tmp_path s.cron_file
                elim r [ some n ↦ drops n | none ↦ pure none ]
            ]
        ]
    ]

  -- The end of `replace`, after an error of `replace_crontab`.
  unfoldable pub replace_otherwise : Bytes → ℕ → M Exit
  unfolding run_helper
  replace_otherwise from err =
      if not s.is_current || (err == enospc || err == erofs)
      then quits 1
      else if s.have_setgid
      then run_helper from (codes "w")
      else quits 1

  -- The copy of an input that cannot be rewound, in a file without a name: what there is of it.
  unfoldable pub open_stdin : M Opened
  unfolding copy_and_flush
  open_stdin = do
    e ← fails o
    elim e [ some n ↦ pure (failed n) | none ↦ do c ← copy_and_flush o s.stdin; pure (opened c.1) ]

  -- `FILE<true>{file, "re"}`.
  unfoldable pub open_source : Bytes → M Opened
  unfolding open_stdin
  open_source file =
      if not (equal file (codes "-"))
      then fopen o file
      else if s.stdin_regular
      then pure (opened s.stdin)
      else open_stdin

  unfoldable pub replace : Bytes → M Exit
  unfolding open_source replace_crontab replace_otherwise
  replace file = do
    f ← open_source file
    elim f [
      | failed n ↦ quits 1
      | opened from ↦ if not (s.check (some from)) then quits 1 else do
        r ← replace_crontab from
        elim r [ none ↦ quits 0 | some err ↦ replace_otherwise from err ]
    ]
