-- ===== src/Generator/Output.antt =====
-- `output` of `Job`: the script, the timer, the link to it and the service, one after the other.
pub mod Written
pub mod Script
pub mod Frame
pub mod Names
pub mod All
mod Tests
use systemd_cron.Base.{
  ℕ, List, [], ◌∷◌, ◌++◌, Option, none, some, Bool, true, false, if◌then◌else◌, Bytes, codes,
}
use systemd_cron.Generator.Host.{Host}
use systemd_cron.Generator.Job.Exec.{words, debackslashpercentise, appended, generate_scriptlet}
use systemd_cron.Generator.Job.Unit.{generate_timer, generate_service}
use systemd_cron.Generator.Job.{Job}
use systemd_cron.Sys.{Oracle, Disk, M, pure, ◌>>=◌, create_and_write, symlink}

-- The words of the script that are not empty, with blanks between them, and a newline after them;
-- `first` is the variable of that name.
unfoldable pub script_words : Bool → Bool → List Bytes → Bytes
unfolding debackslashpercentise
script_words nopercent first [] = if first then [] else codes "\n"
script_words nopercent first ([] ∷ ws) = script_words nopercent first ws
script_words nopercent first ((c ∷ w) ∷ ws) =
    (if first then [] else codes " ")
    ++ (appended (debackslashpercentise nopercent (c ∷ w)) ++ script_words nopercent false ws)

unfoldable pub script_text : Job → Bytes
unfolding script_words words
script_text j = script_words j.command.nopercent true (words j.command)

abbrev pub unit_path : Host → Job → Bytes → Bytes
unit_path host j suffix = host.target_dir ++ (codes "/" ++ (j.unit_name ++ suffix))

abbrev pub link_path : Host → Job → Bytes
link_path host j =
    host.target_dir ++ (codes "/cron.target.wants/" ++ (j.unit_name ++ codes ".timer"))

module _ (o : Oracle) (host : Host) where
  abbrev try_next : Option ℕ → M Bool → M Bool
  try_next none m = m
  try_next (some n) m = pure false

  unfoldable pub write_service : Job → M Bool
  unfolding generate_service
  write_service j = do
    e ← create_and_write o (unit_path host j (codes ".service")) (generate_service host j)
    try_next e (pure true)

  unfoldable pub write_units : Job → M Bool
  unfolding write_service generate_timer
  write_units j = do
    e ← create_and_write o (unit_path host j (codes ".timer")) (generate_timer host j)
    try_next e (do
      l ← symlink o (unit_path host j (codes ".timer")) (link_path host j)
      try_next l (write_service j))

  unfoldable pub output : Job → M Bool
  unfolding write_units generate_scriptlet script_text
  output j =
      let (scriptlet, k) = generate_scriptlet host j in
      elim scriptlet [
        | none ↦ write_units k
        | some path ↦ do e ← create_and_write o path (script_text k); try_next e (write_units k)
      ]

  -- The units of a run, one after the other. `generate_timer_unit` drops the result.
  unfoldable pub output_all : List Job → M (Unit {0})
  output_all [] = pure tt
  output_all (j ∷ js) = do e ← output j; output_all js
