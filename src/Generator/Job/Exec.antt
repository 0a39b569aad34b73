-- ===== src/Generator/Job/Exec.antt =====
-- `decode`, `decode_command`, `pull_user`, `debackslashpercentise`, `generate_scriptlet`,
-- `is_active` and `generate_unit_name` of `Job`.
use systemd_cron.Base.Decimal.{decimal}
use systemd_cron.Base.{
  ℕ, zero, suc, ◌+◌, ◌%◌, List, [], ◌∷◌, ◌++◌, Option, none, some, Bool, true, false, ◌&&◌, ◌||◌,
  not, if◌then◌else◌, ◌==◌, leb, Bytes, codes, equal, length, drop, keep, starts_with,
  contains_text, map, init, concat,
}
use systemd_cron.Generator.Environment.{find, assign}
use systemd_cron.Generator.Host.{Host, Passwd}
use systemd_cron.Generator.Job.{Job, Command}
use systemd_cron.Vore.Tokenise.{soft_tokenise, texts}
use systemd_cron.Vore.Uint.{u64_mod}

-- `binary_search` in `ASCII_ALNUM`.
unfoldable pub is_ascii_alnum : ℕ → Bool
is_ascii_alnum c =
    c == b'-'
    || (leb b'0' c && leb c b'9')
    || (leb b'A' c && leb c b'Z')
    || c == b'_'
    || (leb b'a' c && leb c b'z')

-- What the iterator over `command` gives.
unfoldable pub words : Command → List Bytes
words c = elim c.command0 [ none ↦ texts c.words | some w ↦ w ∷ texts c.words ]

unfoldable pub set_user : Option Passwd → Job → Job
set_user none j = j
set_user (some ent) j = record j {
  user_home = some ent.pw_dir;
  user_uid = ent.pw_uid;
  user_gid = ent.pw_gid;
}

-- `pull_user`, with the result that `user_home` then gives. The cache of `getpwnam` is left out.
unfoldable pub pull_user : Host → Job → Job
unfolding set_user
pull_user host j = elim j.user_home [ some home ↦ j | none ↦ set_user (host.getpwnam j.user) j ]

-- A path of `PATH`, with the `~` of `~/` replaced.
unfoldable pub expand_home : Bytes → Bytes → Bytes
expand_home home s = if starts_with (codes "~/") s then home ++ drop 1 s else s

unfoldable pub expand_path : Bytes → Bytes → Bytes
unfolding expand_home
expand_path home path =
    init
      (concat (map (λ p. expand_home home p ++ codes ":") (texts (soft_tokenise path (codes ":")))))

unfoldable pub expand_command : Bytes → Command → Command
unfolding words
expand_command home c = elim (words c) [
  | [] ↦ c
  | w ∷ ws ↦
      if starts_with (codes "~/") w
      then record c { command0 = some (home ++ drop 1 w); words = drop 1 c.words }
      else c
]

unfoldable pub expand_environment : Bytes → Job → Job
unfolding find assign expand_path
expand_environment home j = elim (find (codes "PATH") j.environment) [
  | none ↦ j
  | some path ↦
      if starts_with (codes "~/") path || contains_text (codes ":~/") path
      then record j { environment = assign (codes "PATH") (expand_path home path) j.environment }
      else j
]

unfoldable pub decode_command : Host → Job → Job
unfolding words pull_user expand_command expand_environment
decode_command host j =
    let k = pull_user host j in
    elim (words j.command) [
      | [] ↦ j
      | w ∷ ws ↦ elim k.user_home [
        | none ↦ k
        | some home ↦ expand_environment home (record k { command = expand_command home k.command })
      ]
    ]

unfoldable pub decode : Host → Job → Job
unfolding decode_command is_ascii_alnum
decode host j = decode_command host (record j { jobid = keep is_ascii_alnum j.jobid })

unfoldable pub is_active : Host → Job → Bool
is_active host j = not (equal j.schedule (codes "reboot") && host.reboot_file_exists)

-- A segment that `debackslashpercentise` hands to `append`, and whether percent signs in it are
-- to be replaced.
abbrev pub Segment : Type 0
Segment = Bytes × Bool

-- `find("\\%")`: the text before, and after.
unfoldable pub cut_backpct : Bytes → Option (Bytes × Bytes)
cut_backpct [] = none
cut_backpct (c ∷ []) = none
cut_backpct (c ∷ d ∷ s) =
    let rest : Option (Bytes × Bytes) = elim (cut_backpct (d ∷ s)) [
      | none ↦ none
      | some (a, b) ↦ some (c ∷ a, b)
    ] in
    if c == b'\\' && d == b'%' then some ([], s) else rest

-- The `while` loop; with more fuel than bytes it ends by itself.
unfoldable pub segments_from : ℕ → Bytes → List Segment
unfolding cut_backpct
segments_from zero cmd = []
segments_from (suc fuel) [] = []
segments_from (suc fuel) (c ∷ s) = elim (cut_backpct (c ∷ s)) [
  | none ↦ (c ∷ s, true) ∷ []
  | some (a, b) ↦ (a, true) ∷ (codes "%", false) ∷ segments_from fuel b
]

unfoldable pub debackslashpercentise : Bool → Bytes → List Segment
unfolding segments_from
debackslashpercentise nopercent cmd =
    if nopercent then (cmd, false) ∷ [] else segments_from (suc (length cmd)) cmd

-- The segments one after the other.
abbrev pub appended : List Segment → Bytes
appended [] = []
appended ((s, b) ∷ ss) = s ++ appended ss

-- The end of `generate_scriptlet`: the command goes to a file of its own.
unfoldable pub to_scriptlet : Host → Job → Option Bytes × Job
to_scriptlet host j =
    let scriptlet = host.target_dir ++ codes "/" ++ j.unit_name ++ codes ".sh" in
    (some scriptlet, record j { execstart = j.shell ++ codes " " ++ scriptlet })

-- A single word runs by itself if it is a file of the user's.
unfoldable pub direct : Host → Job → Bytes → Option Bytes → Option Bytes × Job
unfolding debackslashpercentise to_scriptlet
direct host k w none = to_scriptlet host k
direct host k w (some home) =
    let path = k.execstart ++ appended (debackslashpercentise k.command.nopercent w) in
    let l = record k { execstart = path } in
    if host.stat_regular k.user_uid k.user_gid path then (none, l) else to_scriptlet host l

unfoldable pub scriptlet_for : Host → Job → List Bytes → Option Bytes × Job
unfolding direct pull_user to_scriptlet
scriptlet_for host j [] = to_scriptlet host j
scriptlet_for host j (w ∷ []) = let k = pull_user host j in direct host k w k.user_home
scriptlet_for host j (w ∷ u ∷ ws) = to_scriptlet host j

unfoldable pub generate_scriptlet : Host → Job → Option Bytes × Job
unfolding words scriptlet_for
generate_scriptlet host j = scriptlet_for host j (words j.command)

-- The bytes of which a persistent job's name is the digest: every word that is not empty, behind
-- a NUL.
unfoldable pub digested : List Bytes → Bytes
digested [] = []
digested ([] ∷ ws) = digested ws
digested ((c ∷ w) ∷ ws) = 0 ∷ c ∷ w ++ digested ws

-- The job with its name, and the number that the next job of the same id gets.
unfoldable pub generate_unit_name : Host → ℕ → Job → Job × ℕ
unfolding words digested
generate_unit_name host seq j =
    let prefix = codes "cron-" ++ j.jobid ++ codes "-" in
    if not (j.persistent || j.cron_unique_units)
    then (record j { unit_name = prefix ++ decimal seq }, (seq + 1) % u64_mod)
    else (
      record j {
        unit_name = prefix ++ host.md5_hex (j.schedule_raw ++ digested (words j.command));
      },
      seq,
    )
