-- ===== src/Setgid/Tests.antt =====
-- Runs of the helper, and its theorems at concrete inputs.
use systemd_cron.Base.{
  ◌≡◌, ◌≤◌, refl, [], ◌∷◌, none, some, false, codes, equal, if◌then◌else◌, arith, length,
}
use systemd_cron.Setgid.Access.{main_failed, main_written, main_refused, main-read_write}
use systemd_cron.Setgid.Frame.{main-Keeps}
use systemd_cron.Setgid.Install.{copy_of}
use systemd_cron.Setgid.{
  Caller, main, lines_of, max_command, max_lines, cron_allow, fgets_all, is_listed,
}
use systemd_cron.Sys.{rename, write_all, mkstemp, fopen, Oracle, Disk, Files}
use systemd_cron.Vore.Uint.{c_string}

abbrev pub faultless : Oracle
faultless = record { fault = λ n. none; torn = λ n. 0 }

abbrev pub ann : Caller
ann = record {
  uid = 1000;
  pw_name = some (codes "ann");
  login_name_max = 256;
  crontab_dir = codes "/c";
  temp_suffix = codes "abcdef";
  default_noaccess = false;
  stdin = codes "@daily a\n# b";
}

abbrev pub empty : Files
empty path = none

abbrev pub blank : Disk
blank = record { files = empty; calls = 0 }

-- The list of those who may write has another user only.
abbrev guarded : Disk
guarded = record {
  files = λ p. if equal p cron_allow then some (codes "bob\n") else none;
  calls = 0;
}

main-Keeps_example : (main faultless ann (codes "w" ∷ []) blank).1.files (codes "/c/bob") ≡ none
unfolding equal
main-Keeps_example =
    main-Keeps faultless ann (codes "ann") (codes "w" ∷ []) (codes "/c/bob") blank refl refl refl

main_refused_example :
    ((main faultless ann (codes "w" ∷ []) guarded).0.status ≡ 1)
    × ((main faultless ann (codes "w" ∷ []) guarded).1.files (codes "/c/ann") ≡ none)
unfolding equal is_listed fgets_all c_string
main_refused_example =
    main_refused faultless ann (codes "ann") (codes "/c/ann") guarded refl refl refl refl refl

main_failed_example : (main faultless ann (codes "w" ∷ []) guarded).1.files (codes "/c/ann") ≡ none
unfolding equal main fopen c_string
main_failed_example =
    main_failed faultless ann (codes "ann") (codes "w" ∷ []) guarded refl (omega (arith, refused))
  where
    refused : (main faultless ann (codes "w" ∷ []) guarded).0.status ≡ 1
    refused = refl

writes : (main faultless ann (codes "w" ∷ []) blank).0.status ≡ 0
unfolding main fopen mkstemp write_all rename equal
writes = refl

main_written_example :
    ((main faultless ann (codes "w" ∷ []) blank).1.files (codes "/c/ann")
      ≡ some (copy_of (codes "@daily a\n# b")))
    × (length (lines_of max_command (codes "@daily a\n# b")) ≤ max_lines)
main_written_example = main_written faultless ann (codes "ann") blank refl refl writes

main-read_write_example :
    (main faultless ann (codes "r" ∷ []) (main faultless ann (codes "w" ∷ []) blank).1).0
    ≡ record { status = 0; out = codes "@daily a\n# b" }
main-read_write_example =
    main-read_write faultless faultless ann (codes "ann") blank refl refl refl writes refl
