-- ===== src/Setgid.antt =====
-- src/bin/crontab_setgid.c: the helper that reads, writes and deletes the crontab of the user who
-- calls it, with the rights of the group of the crontabs. What it prints to `stderr` is left out.
pub mod Tests
pub mod Frame
pub mod Install
pub mod Access
use systemd_cron.Base.{
  ℕ, zero, suc, ◌+◌, ◌-◌, ◌==◌, List, [], ◌∷◌, ◌++◌, Option, none, some, Bool, true, false, ◌||◌,
  if◌then◌else◌, Bytes, codes, equal, concat, map, ltb, length,
}
use systemd_cron.Sys.{
  Oracle, Disk, M, pure, ◌>>=◌, ◌>>◌, Opened, failed, opened, fails, fopen, mkstemp, write_all,
  unlink, rename, enoent,
}
use systemd_cron.Vore.Uint.{c_string}

-- Who calls, and how the helper is built: `temp_suffix` is what `mkstemp` makes of the six X.
pub record Caller : Type 0 where
  pub uid : ℕ
  pub pw_name : Option Bytes
  pub login_name_max : ℕ
  pub crontab_dir : Bytes
  pub temp_suffix : Bytes
  pub default_noaccess : Bool
  pub stdin : Bytes

pub record Exit : Type 0 where
  pub status : ℕ
  pub out : Bytes

abbrev pub quits : ℕ → M Exit
quits n = pure (record { status = n; out = [] })

-- What one `fgets` into a buffer of `n + 1` bytes takes, and what is left.
abbrev pub line_of : ℕ → Bytes → Bytes × Bytes
line_of zero s = ([], s)
line_of (suc n) [] = ([], [])
line_of (suc n) (c ∷ s) = if c == b'\n' then (c ∷ [], s) else (c ∷ (line_of n s).0, (line_of n s).1)

-- All that a loop of `fgets` reads. Every round takes a byte.
unfoldable pub fgets_all : ℕ → ℕ → Bytes → List Bytes
fgets_all zero n s = []
fgets_all (suc fuel) n [] = []
fgets_all (suc fuel) n (c ∷ s) = (line_of n (c ∷ s)).0 ∷ fgets_all fuel n (line_of n (c ∷ s)).1

abbrev pub lines_of : ℕ → Bytes → List Bytes
lines_of size s = fgets_all (length s) (size - 1) s

abbrev pub max_command : ℕ
max_command = 1000

abbrev pub max_lines : ℕ
max_lines = 1000

-- `rtrim`, which leaves the first byte alone.
unfoldable pub trim_blanks : Bytes → Bytes
trim_blanks [] = []
trim_blanks (c ∷ s) = elim (trim_blanks s) [
  | [] ↦ if c == b' ' || c == b'\n' then [] else c ∷ []
  | d ∷ t ↦ c ∷ d ∷ t
]

unfoldable pub rtrim : Bytes → Bytes
unfolding trim_blanks
rtrim [] = []
rtrim (c ∷ s) = c ∷ trim_blanks s

-- Is the user on a line of this file?
unfoldable pub is_listed : Bytes → List Bytes → Bool
unfolding rtrim
is_listed name [] = false
is_listed name (line ∷ lines) = equal name (rtrim (c_string line)) || is_listed name lines

pub data Copied : Type 0 where
  all_of_it : Bytes → Copied
  write_error : Copied
  too_many : Copied

abbrev pub cron_allow : Bytes
cron_allow = codes "/etc/cron.allow"

abbrev pub cron_deny : Bytes
cron_deny = codes "/etc/cron.deny"

abbrev pub crontab_of : Caller → Bytes → Bytes
crontab_of c name = c.crontab_dir ++ codes "/" ++ name

abbrev pub temp_of : Caller → Bytes → Bytes
temp_of c name = crontab_of c name ++ b'.' ∷ c.temp_suffix

module _ (o : Oracle) (c : Caller) (name : Bytes) where
  -- The loop that copies the input, line by line.
  unfoldable pub copy_lines : ℕ → Bytes → List Bytes → M Copied
  copy_lines lines written [] = pure (all_of_it written)
  copy_lines lines written (b ∷ bs) = do
    e ← write_all o (temp_of c name) (written ++ c_string b)
    elim e [
      | some n ↦ pure write_error
      | none ↦
          if ltb max_lines (lines + 1)
          then pure too_many
          else copy_lines (lines + 1) (written ++ c_string b) bs
    ]

  -- `unlink(temp)`, and an exit with 1.
  unfoldable pub gives_up : M Exit
  gives_up = do e ← unlink o (temp_of c name); quits 1

  unfoldable pub close_and_rename : M Exit
  unfolding gives_up
  close_and_rename = do
    k ← fails o
    elim k [
      | some n ↦ gives_up
      | none ↦ do
        r ← rename o (temp_of c name) (crontab_of c name)
        elim r [ some n ↦ gives_up | none ↦ quits 0 ]
    ]

  unfoldable pub install : M Exit
  unfolding copy_lines gives_up close_and_rename
  install = do
    m ← mkstemp o (temp_of c name)
    elim m [
      | some n ↦ quits 1
      | none ↦ do
        f ← fails o
        elim f [
          | some n ↦ gives_up
          | none ↦ do
            r ← copy_lines 0 [] (lines_of max_command c.stdin)
            elim r [ write_error ↦ gives_up | too_many ↦ gives_up | all_of_it s ↦ close_and_rename ]
        ]
    ]

  -- Action `w`.
  unfoldable pub write_crontab : M Exit
  unfolding install is_listed
  write_crontab = do
    a ← fopen o cron_allow
    elim a [
      | opened s ↦ if is_listed name (lines_of c.login_name_max s) then install else quits 1
      | failed n ↦ do
        b ← fopen o cron_deny
        elim b [
          | opened s ↦ if is_listed name (lines_of c.login_name_max s) then quits 1 else install
          | failed n ↦ if c.default_noaccess then quits 1 else install
        ]
    ]

  -- Action `r`.
  unfoldable pub read_crontab : M Exit
  unfolding fgets_all
  read_crontab = do
    f ← fopen o (crontab_of c name)
    elim f [
      | failed n ↦ quits (if n == enoent then enoent else 1)
      | opened s ↦
          pure (record { status = 0; out = concat (map c_string (lines_of max_command s)) })
    ]

  -- Action `d`.
  unfoldable pub delete_crontab : M Exit
  delete_crontab = do
    e ← unlink o (crontab_of c name)
    quits (elim e [ none ↦ 0 | some n ↦ if n == enoent then 0 else 1 ])

  unfoldable pub act : Bytes → M Exit
  unfolding write_crontab read_crontab delete_crontab
  act [] = quits 1
  act (a ∷ s) =
      if a == b'r'
      then read_crontab
      else if a == b'w'
      then write_crontab
      else if a == b'd'
      then delete_crontab
      else quits 1

-- `main`, on the arguments behind the program's name.
unfoldable pub main : Oracle → Caller → List Bytes → M Exit
unfolding act
main o c args =
    let known : Bytes → M Exit =
      λ arg. elim c.pw_name [ none ↦ quits 1 | some name ↦ act o c name arg ] in
    if c.uid == 0
    then quits 1
    else elim args [ [] ↦ quits 1 | a ∷ [] ↦ known a | a ∷ b ∷ more ↦ quits 1 ]
