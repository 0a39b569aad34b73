-- ===== src/Tool/Child.antt =====
-- How the command starts other programs, and what it asks the system and the user: `exec`,
-- `run_generator`, `confirm`, HAVE_SETGID and `want_colour` of src/bin/crontab.cpp.
use systemd_cron.Base.{
  ℕ, ◌+◌, ◌==◌, List, [], ◌∷◌, Option, none, some, Bool, true, false, ◌&&◌, not, if◌then◌else◌,
  Bytes, codes, equal, contains_text,
}
use systemd_cron.Generator.Job.Schedule.{is_nil}
use systemd_cron.Setgid.{lines_of}
use systemd_cron.Sys.{enoent}

-- How a child ends, as WIFSIGNALED, WTERMSIG and WEXITSTATUS tell.
pub data Ended : Type 0 where
  exited : ℕ → Ended
  signalled : ℕ → Ended

-- The calls of `waitpid`: those that are interrupted, and the one that is not.
pub data Wait : Type 0 where
  interrupted : Wait → Wait
  ended : Ended → Wait

unfoldable pub wait_for : Wait → Ended
wait_for (interrupted w) = wait_for w
wait_for (ended e) = e

abbrev pub exit_code : Ended → ℕ
exit_code (exited n) = n
exit_code (signalled n) = 128 + n

-- The status of a child that `exec` leaves behind.
abbrev pub exec_failed : ℕ → ℕ
exec_failed n = if n == enoent then 127 else 126

-- What `vfork` and `execl` come to: no child, a child that starts no program, or one that does.
pub data Spawn : Type 0 where
  no_child : Spawn
  not_started : ℕ → Spawn
  started : Wait → Spawn

unfoldable pub spawn_status : Spawn → ℕ
unfolding wait_for
spawn_status no_child = 125
spawn_status (not_started n) = exec_failed n
spawn_status (started w) = exit_code (wait_for w)

-- A run of the generator, with what it writes to the two files of a translation.
pub record Generated : Type 0 where
  pub spawn : Spawn
  pub timer : Bytes
  pub service : Bytes

-- What the command finds: the generator, given its mode, its operand and its input; the standard
-- input, and whether it is a regular file; whether `tmpfile` gives a file, with room for what is
-- copied into it; whether the files of a translation can be opened for systemd-analyze, and the status of that, if it starts; `rpmatch`;
-- what `geteuid` and `stat` say of the helper; and the environment.
pub record Surroundings : Type 0 where
  pub generator : Bytes → Bytes → Bytes → Generated
  pub stdin : Bytes
  pub stdin_regular : Bool
  pub tmpfile : Bool
  pub dev_fd : Bool
  pub analyze : Option ℕ
  pub rpmatch : Bytes → Option Bool
  pub euid : ℕ
  pub helper_is_setgid : Bool
  pub no_color : Option Bytes
  pub term : Option Bytes
  pub isatty : Bool
  pub version : Bytes

module _ (w : Surroundings) where
  -- Status 1, without a run, where the input has to be copied and cannot be.
  unfoldable pub run_generator : Bytes → Bytes → Bool → ℕ × Bytes × Bytes
  unfolding spawn_status
  run_generator op file_or_line file_is_file =
      let run = w.generator op file_or_line w.stdin in
      if file_is_file && equal file_or_line (codes "-") && not w.stdin_regular && not w.tmpfile
      then (1, [], [])
      else (spawn_status run.spawn, run.timer, run.service)

  unfoldable pub check : Bytes → Bool
  unfolding run_generator
  check file = (run_generator (codes "--check") file true).0 == 0

  -- The answers, each what one `fgets` into the buffer takes, up to the first that is yes or no.
  unfoldable pub decides : List Bytes → Bool
  decides [] = false
  decides (l ∷ ls) = elim (w.rpmatch l) [ some b ↦ b | none ↦ decides ls ]

  unfoldable pub confirm : Bool
  unfolding decides
  confirm = decides (lines_of 128 w.stdin)

  unfoldable pub have_setgid : Bool
  have_setgid = not (w.euid == 0) && w.helper_is_setgid

  unfoldable pub want_colour : Bool
  want_colour =
      let quiet : Bytes = elim w.no_color [ none ↦ [] | some s ↦ s ] in
      let term : Bytes = elim w.term [ none ↦ [] | some s ↦ s ] in
      is_nil quiet && contains_text (codes "color") term && w.isatty
