-- ===== src/Generator/Crontab.antt =====
-- `parse_crontab`: the lines of a crontab, which set variables for the jobs below them or are jobs
-- themselves; and `generate_timer_unit`, which gives each job its name.
mod Tests
pub mod Distinct
pub mod Timed
pub mod Ends
pub mod Variables
use systemd_cron.Base.{
  ℕ, zero, suc, List, [], ◌∷◌, Option, none, some, Bool, true, false, ◌&&◌, ◌||◌, not,
  if◌then◌else◌, ◌==◌, leb, Bytes, codes, equal, length, drop, init, last?, is_space, take_while,
  drop_while, starts_with,
}
use systemd_cron.Generator.Environment.{Environment, assign, erase}
use systemd_cron.Generator.Host.{Host}
use systemd_cron.Generator.Job.Exec.{decode, is_active, generate_unit_name}
use systemd_cron.Generator.Job.Parse.{
  Draws, parse_anacrontab, parse_crontab_at, parse_crontab_timespec,
}
use systemd_cron.Generator.Job.Schedule.{generate_schedule}
use systemd_cron.Generator.Job.{
  Job, WithUser, from_cmd0, from_basename, initial, CronMailSuccess, CronMailFormat, new_job,
  decode_environment,
}
use systemd_cron.Generator.Run.{Run, done, ◌>>=◌}
use systemd_cron.Vore.Tokenise.{texts, soft_tokenise}

-- `[A-Za-z_0-9]`.
abbrev pub is_word : ℕ → Bool
is_word c =
    (leb b'A' c && leb c b'Z')
    || (leb b'a' c && leb c b'z')
    || c == b'_'
    || (leb b'0' c && leb c b'9')

-- `ENVVAR_RE`, `^([A-Za-z_0-9]+)[[:space:]]*=[[:space:]]*(.*)$`, on a text: its two groups.
unfoldable pub envvar : Bytes → Option (Bytes × Bytes)
envvar s =
    let key = take_while is_word s in
    elim key [
      | [] ↦ none
      | k ∷ ks ↦ elim (drop_while is_space (drop_while is_word s)) [
        | [] ↦ none
        | c ∷ rest ↦
            if c == b'='
            then some (k ∷ ks, take_while (λ b. not (b == b'\n')) (drop_while is_space rest))
            else none
      ]
    ]

-- The line without the blanks at its end.
unfoldable pub trim_end : Bytes → Bytes
trim_end [] = []
trim_end (c ∷ s) = elim (trim_end s) [ [] ↦ if is_space c then [] else c ∷ [] | d ∷ t ↦ c ∷ d ∷ t ]

-- Pairs of quotes around a value go, however many there are.
unfoldable pub is_quoted : Bytes → Bool
is_quoted [] = false
is_quoted (c ∷ []) = false
is_quoted (c ∷ d ∷ s) = elim (last? (d ∷ s)) [
  | none ↦ false
  | some e ↦ (c == b'\'' && e == b'\'') || (c == b'"' && e == b'"')
]

unfoldable pub unquote : ℕ → Bytes → Bytes
unfolding is_quoted
unquote zero value = value
unquote (suc fuel) value =
    let rest = unquote fuel (init (drop 1 value)) in if is_quoted value then rest else value

-- What the loop over the lines keeps: the variables so far, the names to inherit, and the jobs
-- that it has handed to the callback, the last first.
pub record Reader : Type 0 where
  pub environment : Environment
  pub cron_inherit_variables : Bytes
  pub jobs : List Job

unfoldable pub set_variable : Bytes → Bytes → Reader → Reader
unfolding assign erase
set_variable key value r =
    if equal key (codes "PERSISTENT") && equal value (codes "auto")
    then record r { environment = erase key r.environment }
    else if equal key (codes "CRON_INHERIT_VARIABLES")
    then record r { cron_inherit_variables = value }
    else record r { environment = assign key value r.environment }

-- The arguments of `parse_crontab` that the loop reads.
pub record Crontab : Type 0 where
  pub filename : Bytes
  pub withuser : WithUser
  pub anacrontab : Bool
  pub mail_success : CronMailSuccess
  pub mail_format : CronMailFormat

unfoldable pub read_job : Host → Draws → Crontab → Environment → Bytes → Run Job
unfolding decode_environment parse_anacrontab parse_crontab_at parse_crontab_timespec new_job
read_job host draws c env line =
    let decoded : Bool → Job = λ persistent.
      decode_environment host env persistent c.mail_success c.mail_format
        (new_job c.filename line) in
    if c.anacrontab
    then done (parse_anacrontab (decoded true))
    else if starts_with (codes "@") line
    then done (parse_crontab_at c.withuser (decoded true))
    else parse_crontab_timespec draws c.withuser (decoded false)

-- One line. The n-th job draws from its own stretch of the random engines.
unfoldable pub read_line : Host → (ℕ → Draws) → Crontab → Bytes → Reader → Run Reader
unfolding envvar trim_end unquote set_variable read_job decode generate_schedule
read_line host draws c raw r =
    let line = trim_end (drop_while is_space raw) in
    if equal line [] || starts_with (codes "#") line then done r else elim (envvar line) [
      | some (key, value) ↦ done (set_variable key (unquote (length value) value) r)
      | none ↦ do
        j ← read_job host (draws (length r.jobs)) c r.environment line
        done (record r { jobs = generate_schedule host (decode host j) ∷ r.jobs })
    ]

unfoldable pub read_lines : Host → (ℕ → Draws) → Crontab → List Bytes → Reader → Run Reader
unfolding read_line
read_lines host draws c [] r = done r
read_lines host draws c (line ∷ lines) r =
    read_line host draws c line r >>= read_lines host draws c lines

-- What opening the file and mapping it comes to.
pub data File : Type 0 where
  missing : File
  refused : File
  unmapped : File
  contents : Bytes → File

-- The result, and what the loop has kept. A missing file is an error only for the tools.
unfoldable pub parse_crontab :
    Host → (ℕ → Draws) → Crontab → Environment → File → Run (Bool × Reader)
unfolding read_lines soft_tokenise
parse_crontab host draws c env file =
    let r : Reader = record { environment = env; cron_inherit_variables = []; jobs = [] } in
    elim file [
      | missing ↦
          done (elim c.withuser [ initial ↦ false | from_cmd0 ↦ true | from_basename ↦ true ], r)
      | refused ↦ done (false, r)
      | unmapped ↦ done (false, r)
      | contents s ↦ do
        q ← read_lines host draws c (texts (soft_tokenise s (codes "\n"))) r
        done (true, q)
    ]

-- `seqs`: the number that the next job of an id gets.
abbrev pub Seqs : Type 0
Seqs = Bytes → ℕ

-- The job with its name, where it gets units at all.
unfoldable pub generate_timer_unit : Host → Seqs → Job → Option Job × Seqs
unfolding is_active generate_unit_name
generate_timer_unit host seqs j =
    if j.valid && is_active host j
    then (
      some (generate_unit_name host (seqs j.jobid) j).0,
      λ id. if equal id j.jobid then (generate_unit_name host (seqs j.jobid) j).1 else seqs id,
    )
    else (none, seqs)

-- The jobs of a run, one after the other, with the names they get.
unfoldable pub generate_timer_units : Host → Seqs → List Job → List Job
unfolding generate_timer_unit
generate_timer_units host seqs [] = []
generate_timer_units host seqs (j ∷ js) =
    let (named, seqs') = generate_timer_unit host seqs j in
    let rest = generate_timer_units host seqs' js in elim named [ none ↦ rest | some k ↦ k ∷ rest ]
