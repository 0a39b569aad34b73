-- ===== src/Setgid/Access.antt =====
-- The helper's `main`: failures, permissions, and what can be read after a write.
use systemd_cron.Base.{
  ℕ, zero, suc, ◌≤◌, ◌≡◌, ◌≢◌, refl, ap, ◌∙◌, List, [], ◌∷◌, ◌++◌, some, none, Bool, true, false,
  not, Bytes, codes, arith, length, concat, map, ◌==◌, all, take_while-all,
}
use systemd_cron.Setgid.Install.{act_failed, write_crontab_done, copy_of}
use systemd_cron.Setgid.{
  Caller, crontab_of, write_crontab, read_crontab, act, main, lines_of, line_of, fgets_all,
  max_command, max_lines, cron_allow, cron_deny, is_listed,
}
use systemd_cron.Sys.Keeps.{fopen_there}
use systemd_cron.Sys.{Oracle, Disk, Files, fopen}
use systemd_cron.Vore.Uint.{c_string}

-- A run that exits with another status than 0 leaves the crontab of its caller as it was.
pub main_failed :
    (o : Oracle) (c : Caller) (name : Bytes) (args : List Bytes) (d : Disk)
    → c.pw_name ≡ some name
    → (main o c args d).0.status ≢ 0
    → (main o c args d).1.files (crontab_of c name) ≡ d.files (crontab_of c name)
unfolding main
main_failed o c name [] d h k = ground arith
main_failed o c name (a ∷ []) d h k = ground (arith, act_failed o c name a d)
main_failed o c name (a ∷ b ∷ more) d h k = ground arith

main-act :
    (o : Oracle) (c : Caller) (name arg : Bytes) (d : Disk)
    → c.pw_name ≡ some name
    → (c.uid == 0) ≡ false
    → main o c (arg ∷ []) d ≡ act o c name arg d
unfolding main
main-act o c name arg d h k = rw (h, k, main) refl

act_write :
    (o : Oracle) (c : Caller) (name : Bytes) (d : Disk)
    → act o c name (codes "w") d ≡ write_crontab o c name d
unfolding act
act_write o c name d = refl

act_read :
    (o : Oracle) (c : Caller) (name : Bytes) (d : Disk)
    → act o c name (codes "r") d ≡ read_crontab o c name d
unfolding act
act_read o c name d = refl

-- A write that exits with 0 has put the lines of its input, each up to its first NUL, into the
-- crontab, and these are 1000 at most.
pub main_written :
    (o : Oracle) (c : Caller) (name : Bytes) (d : Disk)
    → c.pw_name ≡ some name
    → (c.uid == 0) ≡ false
    → (main o c (codes "w" ∷ []) d).0.status ≡ 0
    → ((main o c (codes "w" ∷ []) d).1.files (crontab_of c name) ≡ some (copy_of c.stdin))
      × (length (lines_of max_command c.stdin) ≤ max_lines)
main_written o c name d h k =
    let runs = main-act o c name (codes "w") d h k ∙ act_write o c name d in
    rw runs (write_crontab_done o c name d)

-- Who may write: with /etc/cron.allow those that it lists; else with /etc/cron.deny those that it
-- does not list; else everyone, unless the helper is built without access by default.
abbrev pub may_write : Caller → Bytes → Files → Bool
may_write c name files = elim (files cron_allow) [
  | some s ↦ is_listed name (lines_of c.login_name_max s)
  | none ↦ elim (files cron_deny) [
    | some s ↦ not (is_listed name (lines_of c.login_name_max s))
    | none ↦ not c.default_noaccess
  ]
]

write_crontab_refused :
    (o : Oracle) (c : Caller) (name q : Bytes) (d : Disk)
    → o.fault d.calls ≡ none
    → o.fault (suc d.calls) ≡ none
    → may_write c name d.files ≡ false
    → ((write_crontab o c name d).0.status ≡ 1) × ((write_crontab o c name d).1.files q ≡ d.files q)
unfolding write_crontab fopen
write_crontab_refused o c name q d h k l = ground arith

-- Where opening the two lists does not fail for another reason than that they are missing, a user
-- who may not write gets status 1, and no file changes.
pub main_refused :
    (o : Oracle) (c : Caller) (name q : Bytes) (d : Disk)
    → c.pw_name ≡ some name
    → (c.uid == 0) ≡ false
    → o.fault d.calls ≡ none
    → o.fault (suc d.calls) ≡ none
    → may_write c name d.files ≡ false
    → ((main o c (codes "w" ∷ []) d).0.status ≡ 1)
      × ((main o c (codes "w" ∷ []) d).1.files q ≡ d.files q)
main_refused o c name q d h k e f l =
    let runs = main-act o c name (codes "w") d h k ∙ act_write o c name d in
    rw runs (write_crontab_refused o c name q d e f l)

line_of-whole : (n : ℕ) (s : Bytes) → (line_of n s).0 ++ (line_of n s).1 ≡ s
line_of-whole zero s = refl
line_of-whole (suc n) [] = refl
line_of-whole (suc n) (c ∷ s) = ground (arith, line_of-whole n s)

length-line_of : (n c : ℕ) (s : Bytes) → length (line_of (suc n) (c ∷ s)).1 ≤ length s
length-line_of zero c s = ground arith
length-line_of (suc n) c [] = ground arith
length-line_of (suc n) c (d ∷ s) = ground (arith, length-line_of n d s)

abbrev pub no_nul : Bytes → Bool
no_nul = all (λ b. not (b == 0))

no_nul-line_of :
    (n : ℕ) (s : Bytes)
    → no_nul s ≡ true
    → (no_nul (line_of n s).0 ≡ true) × (no_nul (line_of n s).1 ≡ true)
no_nul-line_of zero s h = (refl, h)
no_nul-line_of (suc n) [] h = (refl, refl)
no_nul-line_of (suc n) (c ∷ s) h = ground (arith, no_nul-line_of n s)

copy_whole :
    (fuel n : ℕ) (s : Bytes)
    → length s ≤ fuel
    → no_nul s ≡ true
    → concat (map c_string (fgets_all fuel (suc n) s)) ≡ s
unfolding fgets_all c_string
copy_whole zero n [] l h = refl
copy_whole zero n (c ∷ s) l h = absurd (omega arith)
copy_whole (suc fuel) n [] l h = refl
copy_whole (suc fuel) n (c ∷ s) l h =
    let (first, rest) = line_of (suc n) (c ∷ s) in
    let (plain, plain') = no_nul-line_of (suc n) (c ∷ s) h in
    rw (take_while-all (λ b. not (b == 0)) first plain) (
      ap (λ t. first ++ t) (copy_whole fuel n rest (omega (arith, length-line_of n c s)) plain')
      ∙ line_of-whole (suc n) (c ∷ s))

-- A text without NULs that a user has written is what the user then reads.
pub main-read_write :
    (o o' : Oracle) (c : Caller) (name : Bytes) (d : Disk)
    → c.pw_name ≡ some name
    → (c.uid == 0) ≡ false
    → no_nul c.stdin ≡ true
    → (main o c (codes "w" ∷ []) d).0.status ≡ 0
    → o'.fault (main o c (codes "w" ∷ []) d).1.calls ≡ none
    → (main o' c (codes "r" ∷ []) (main o c (codes "w" ∷ []) d).1).0
      ≡ record { status = 0; out = c.stdin }
unfolding read_crontab
main-read_write o o' c name d h k plain done works =
    let d' = (main o c (codes "w" ∷ []) d).1 in
    let written = (main_written o c name d h k done).0 in
    let same = copy_whole (length c.stdin) 998 c.stdin (omega arith) plain in
    let there = written ∙ ap some same in
    let back = copy_whole (length c.stdin) 998 c.stdin (omega arith) plain in
    ap (λ r. r.0) (main-act o' c name (codes "r") d' h k ∙ act_read o' c name d')
    ∙ ground (arith, fopen_there o' (crontab_of c name) c.stdin d' works there, back)
