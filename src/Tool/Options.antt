-- ===== src/Tool/Options.antt =====
-- `main` of src/bin/crontab.cpp: the options, and the action that they choose. `getopt_long` is
-- the C library's: its results come as a list.
use systemd_cron.Base.{
  ◌++◌, concat, map, keep, List, [], ◌∷◌, Option, none, some, Bool, true, false, ◌&&◌, not,
  if◌then◌else◌, ◌==◌, Bytes, codes, ◌≡◌, arith,
}
use systemd_cron.Setgid.{Exit, quits}
use systemd_cron.Sys.{Oracle, M, pure, ◌>>=◌, touch}
use systemd_cron.Tool.Child.{Surroundings, run_generator, check, confirm, have_setgid, want_colour}
use systemd_cron.Tool.Colour.{list, coloured, blue, plain}
use systemd_cron.Tool.Edit.{edit}
use systemd_cron.Tool.Remove.{remove}
use systemd_cron.Util.System.{mkdirp}
use systemd_cron.Tool.{Session, Helper, replace}

pub data Action : Type 0 where
  replacing : Action
  listing : Action
  removing : Action
  editing : Action
  showing : Action
  translating : Action
  testing : Action
  version : Action

-- A result of `getopt_long`: an action's letter, `-i`, `-u` with its argument, or another.
pub data Opt : Type 0 where
  act : Action → Opt
  ask : Opt
  for_login : Bytes → Opt
  help : Opt

pub record Options : Type 0 where
  pub action : Action
  pub ask : Bool
  pub user : Option Bytes

unfoldable pub read_options : List Opt → Options → Option Options
read_options [] p = some p
read_options (act a ∷ opts) p = read_options opts (record p { action = a })
read_options (ask ∷ opts) p = read_options opts (record p { ask = true })
read_options (for_login u ∷ opts) p = read_options opts (record p { user = some u })
read_options (help ∷ opts) p = none

abbrev pub defaults : Options
defaults = record { action = replacing; ask = false; user = none }

-- May an operand follow, and does one have to?
abbrev pub takes_file : Action → Bool
takes_file replacing = true
takes_file translating = true
takes_file testing = true
takes_file listing = false
takes_file removing = false
takes_file editing = false
takes_file showing = false
takes_file version = false

abbrev pub needs_file : Action → Bool
needs_file translating = true
needs_file testing = true
needs_file replacing = false
needs_file listing = false
needs_file removing = false
needs_file editing = false
needs_file showing = false
needs_file version = false

-- What a command line comes to, before the user is looked up: `none` where the usage is printed.
pub record Choice : Type 0 where
  pub action : Action
  pub ask : Bool
  pub user : Option Bytes
  pub file : Option Bytes

unfoldable pub with_operands : Options → List Bytes → Option Choice
with_operands p [] =
    if needs_file p.action
    then none
    else some (record { action = p.action; ask = p.ask; user = p.user; file = none })
with_operands p (f ∷ []) =
    if takes_file p.action
    then some (record { action = p.action; ask = p.ask; user = p.user; file = some f })
    else none
with_operands p (f ∷ g ∷ more) = none

unfoldable pub choose : List Opt → List Bytes → Option Choice
unfolding read_options with_operands
choose opts operands = elim (read_options opts defaults) [
  | none ↦ none
  | some p ↦ with_operands p operands
]

-- What `main` takes from outside: the login name of the caller, which users there are, CRONTAB_DIR,
-- whether it is there, and its entries, REBOOT_FILE, and what the command finds when it starts
-- programs.
pub record World : Type 0 where
  pub current_user : Option Bytes
  pub knows : Bytes → Bool
  pub crontab_dir : Bytes
  pub has_directory : Bool
  pub reboot_file : Bytes
  pub session : Bytes → Session
  pub is_root : Bool
  pub entries : List Bytes
  pub surroundings : Surroundings

module _ (o : Oracle) (helper : Helper) (w : World) where
  -- `show`: the users who have a crontab, among the entries of the directory.
  unfoldable pub show : M Exit
  show =
      if w.is_root
      then pure (record {
        status = 0;
        out = concat (map (λ u. u ++ codes "\n") (keep w.knows w.entries));
      })
      else quits 1

  unfoldable pub test : Bytes → M Exit
  unfolding check
  test file =
      if check w.surroundings file
      then pure
          (record { status = 0; out = codes "No syntax issues were found in the crontab file.\n" })
      else pure
          (record { status = 1; out = codes "Invalid crontab file. Syntax issues were found.\n" })

  -- What `translate` prints of the two files, and the status of systemd-analyze where that runs.
  unfoldable pub translated : Bytes → Bytes → Exit
  unfolding want_colour
  translated timer service =
      let heading : Bytes → Bytes =
        λ s. coloured (if want_colour w.surroundings then blue else plain, s) in
      record {
        status =
            if w.surroundings.dev_fd
            then elim w.surroundings.analyze [ none ↦ 0 | some n ↦ n ]
            else 0;
        out =
            heading (codes "# /etc/systemd/system/$unit.timer\n")
            ++ timer
            ++ codes "\n"
            ++ heading (codes "# /etc/systemd/system/$unit.service\n")
            ++ service;
      }

  unfoldable pub translate : Bytes → M Exit
  unfolding translated run_generator
  translate line =
      let (err, timer, service) = run_generator w.surroundings (codes "--translate") line false in
      if not w.surroundings.tmpfile
      then quits 1
      else if not (err == 0)
      then quits err
      else pure (translated timer service)

  unfoldable pub print_version : M Exit
  print_version = pure (record { status = 0; out = w.surroundings.version ++ codes "\n" })

  abbrev with_file : (Bytes → M Exit) → Option Bytes → M Exit
  with_file f none = quits 1
  with_file f (some file) = f file

  -- The last `switch`.
  unfoldable pub dispatch : Choice → Bytes → M Exit
  unfolding replace list remove edit show test translate print_version confirm have_setgid
      want_colour
  dispatch c user =
      let s = record (w.session user) {
        confirmed = confirm w.surroundings;
        have_setgid = have_setgid w.surroundings;
        want_colour = want_colour w.surroundings;
        stdin = w.surroundings.stdin;
        stdin_regular = w.surroundings.stdin_regular;
      } in
      elim c.action [
        | replacing ↦ replace o helper s (elim c.file [ none ↦ codes "-" | some f ↦ f ])
        | listing ↦ list o helper s
        | removing ↦ remove o helper s c.ask
        | editing ↦ edit o helper s
        | showing ↦ show
        | testing ↦ with_file test c.file
        | translating ↦ with_file translate c.file
        | version ↦ print_version
      ]

  -- The directory of the crontabs, made where it is not there.
  unfoldable pub make_directory : M Bool
  unfolding mkdirp
  make_directory = if w.has_directory then pure true else mkdirp o w.crontab_dir

  unfoldable pub for_user : Choice → Option Bytes → M Exit
  unfolding dispatch make_directory touch
  for_user c none = quits 1
  for_user c (some user) = if not (w.knows user) then quits 1 else do
    made ← make_directory
    if not made then quits 1 else do e ← touch o w.reboot_file; dispatch c user

  unfoldable pub main : List Opt → List Bytes → M Exit
  unfolding choose for_user
  main opts operands = elim (choose opts operands) [
    | none ↦ quits 1
    | some c ↦ for_user c (elim c.user [ none ↦ w.current_user | some u ↦ some u ])
  ]

abbrev pub has_file : Choice → Bool
has_file c = elim c.file [ none ↦ false | some f ↦ true ]

-- A command line that is accepted has an operand if its action needs one, and only if its action
-- takes one.
pub choose_operand :
    (opts : List Opt) (operands : List Bytes) (c : Choice)
    → choose opts operands ≡ some c
    → ((needs_file c.action && not (has_file c)) ≡ false)
      × ((has_file c && not (takes_file c.action)) ≡ false)
unfolding choose with_operands
choose_operand opts [] c h = ground arith
choose_operand opts (f ∷ []) c h = ground arith
choose_operand opts (f ∷ g ∷ more) c h = ground arith
