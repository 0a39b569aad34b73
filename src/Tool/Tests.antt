-- ===== src/Tool/Tests.antt =====
-- Runs of the command with the helper of this repository, and its theorems at concrete inputs.
use systemd_cron.Base.{
  ◌==◌, starts_with, contains, zero, suc, if◌then◌else◌, contains, ◌≡◌, refl, [], ◌∷◌, ◌++◌, none,
  some, true, false, Bytes, codes, equal, arith, concat, map, not, ◌&&◌,
}
use systemd_cron.Setgid.Tests.{ann, blank, faultless}
use systemd_cron.Sys.{eacces, enospc, rename, write_all, mkstemp, fopen, Oracle, Disk}
use systemd_cron.Tool.Colour.Transparent.{colour_crontab-text, text_of}
use systemd_cron.Tool.Colour.{getlines, colour_line, colour_crontab, escape, reset, green}
use systemd_cron.Tool.Copy.{copy_and_flush}
use systemd_cron.Tool.Edit.{install_edit}
use systemd_cron.Tool.Options.{choose, choose_operand, act, translating, needs_file, takes_file}
use systemd_cron.Tool.Outcome.{replace_failed, Holds, install_edit_done, install_edit_kept}
use systemd_cron.Tool.Replace.{IsHelper, IsSeparate, setgid_helper, setgid_helper-IsHelper}
use systemd_cron.Tool.{Session, Helper, replace}

abbrev pub text : Bytes
text = codes "@daily a\n"

abbrev pub session : Session
session = record {
  is_current = true;
  cron_file = codes "/c/ann";
  final_tmp_path = codes "/c/ann.zzzzzz";
  tmp_path = codes "/tmp/crontab_z";
  have_setgid = true;
  want_colour = false;
  confirmed = true;
  stdin = text;
  stdin_regular = true;
  check = λ t. true;
  editor = λ t. (0, t);
}

abbrev pub helper : Helper
helper = setgid_helper faultless ann

helper-IsHelper : IsHelper helper session
unfolding equal
helper-IsHelper =
    setgid_helper-IsHelper faultless ann (codes "ann") session refl refl refl refl refl

session-IsSeparate : IsSeparate session
unfolding equal
session-IsSeparate = record {
  cron_final = refl;
  tmp_final = refl;
  tmp_cron = refl;
  cron_tmp = refl;
}

-- The first call fails, as in a directory of another group.
abbrev pub denied : Oracle
denied = record { fault = λ n. elim n [ zero ↦ some eacces | suc m ↦ none ]; torn = λ n. 0 }

-- Opening works, and nothing else does.
abbrev broken : Oracle
broken = record { fault = λ n. elim n [ zero ↦ none | suc m ↦ some 5 ]; torn = λ n. 0 }

abbrev edited : Disk
edited = record {
  files = λ p. if equal p (codes "/tmp/crontab_z") then some text else none;
  calls = 0;
}

missing : (replace faultless helper session (codes "/f") blank).0.status ≡ 1
unfolding replace equal fopen
missing = refl

replace_failed_example :
    (replace faultless helper session (codes "/f") blank).1.files (codes "/c/ann") ≡ none
replace_failed_example =
    replace_failed faultless helper session helper-IsHelper session-IsSeparate (codes "/f") blank
      (omega (arith, missing))

installed : (install_edit faultless helper session edited).0.status ≡ 0
unfolding install_edit fopen equal mkstemp write_all rename
installed = refl

install_edit_done_example :
    Holds faultless helper session helper-IsHelper session-IsSeparate text
      (install_edit faultless helper session edited).1
unfolding equal
install_edit_done_example =
    install_edit_done faultless helper session helper-IsHelper session-IsSeparate text edited refl
      refl refl installed

stuck : (install_edit broken helper session edited).0.status ≡ 125
unfolding install_edit fopen equal mkstemp
stuck = refl

install_edit_kept_example :
    ((install_edit broken helper session edited).1.files (codes "/tmp/crontab_z") ≡ some text)
    × ((install_edit broken helper session edited).1.files (codes "/c/ann") ≡ none)
unfolding equal
install_edit_kept_example =
    install_edit_kept broken helper session helper-IsHelper session-IsSeparate text edited refl refl
      (omega (arith, stuck))

-- The write of the only block fails: nothing of it is there, and `fflush` has nothing to tell.
abbrev full : Oracle
full = record { fault = λ n. if n == 2 then some enospc else none; torn = λ n. 0 }

lost_run :
    ((replace full helper session (codes "-") blank).0.status ≡ 0)
    × ((replace full helper session (codes "-") blank).1.files (codes "/c/ann") ≡ some [])
unfolding replace equal mkstemp rename copy_and_flush
lost_run = (refl, refl)

colour_crontab-text_example :
    concat (map (λ line. text_of (colour_line line)) (getlines (codes "@daily a\n# b")))
    ≡ codes "@daily a\n# b"
unfolding getlines contains
colour_crontab-text_example = colour_crontab-text (codes "@daily a\n# b") refl

-- A blank before the @: the line loses its first bytes.
indented_run :
    colour_crontab (codes "  @daily x")
    ≡ escape green ++ codes "@daily" ++ reset green ++ codes "ly x"
unfolding colour_crontab starts_with contains
indented_run = refl

chosen :
    choose (act translating ∷ []) (codes "l" ∷ [])
    ≡ some (record { action = translating; ask = false; user = none; file = some (codes "l") })
unfolding choose
chosen = refl

choose_operand_example :
    ((needs_file translating && not true) ≡ false)
    × ((true && not (takes_file translating)) ≡ false)
choose_operand_example =
    choose_operand (act translating ∷ []) (codes "l" ∷ [])
      (record { action = translating; ask = false; user = none; file = some (codes "l") }) chosen
