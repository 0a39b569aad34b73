-- ===== src/Generator/Output/Script.antt =====
-- The script of `output`, and the whole of it.
use systemd_cron.Base.{
  ◌≡◌, refl, ap, ◌∙◌, List, [], ◌∷◌, ◌++◌, Option, none, some, Bool, true, false, Bytes, codes,
  arith, inl, inr, append_assoc, if◌then◌else◌, ◌⊎◌,
}
use systemd_cron.Generator.Host.{Host}
use systemd_cron.Generator.Job.Exec.{
  direct, scriptlet_for, generate_scriptlet, to_scriptlet, pull_user, set_user, words,
  debackslashpercentise, appended,
}
use systemd_cron.Generator.Job.Unit.{generate_timer, generate_service}
use systemd_cron.Generator.Job.{Job}
use systemd_cron.Generator.Output.Written.{write_units_done, link_not}
use systemd_cron.Generator.Output.{unit_path, link_path, output, script_text}
use systemd_cron.Sys.Keeps.{Keeps-create_and_write}
use systemd_cron.Sys.{Oracle, Disk, create_and_write}

-- The job keeps its name, and a script has its path from that.
pub record IsScript (host : Host) (j : Job) (r : Option Bytes × Job) : Type 0 where
  pub same_name : r.1.unit_name ≡ j.unit_name
  pub path : (r.0 ≡ none) ⊎ (r.0 ≡ some (unit_path host j (codes ".sh")))

to_scriptlet-IsScript :
    (host : Host) (j k : Job) → k.unit_name ≡ j.unit_name → IsScript host j (to_scriptlet host k)
unfolding to_scriptlet
to_scriptlet-IsScript host j k h = record {
  same_name = h;
  path = inr (
      ap some (
        append_assoc (host.target_dir ++ codes "/") k.unit_name (codes ".sh")
        ∙ append_assoc host.target_dir (codes "/") (k.unit_name ++ codes ".sh")
        ∙ ap (λ u. unit_path host (record j { unit_name = u }) (codes ".sh")) h));
}

pull_user_name : (host : Host) (j : Job) → (pull_user host j).unit_name ≡ j.unit_name
unfolding pull_user set_user
pull_user_name host j = ground arith

direct-IsScript :
    (host : Host) (j k : Job) (w : Bytes) (home : Option Bytes)
    → k.unit_name ≡ j.unit_name
    → IsScript host j (direct host k w home)
unfolding direct
direct-IsScript host j k w none h = to_scriptlet-IsScript host j k h
direct-IsScript host j k w (some home) h = by_stat (host.stat_regular k.user_uid k.user_gid path)
  where
    path : Bytes
    path = k.execstart ++ appended (debackslashpercentise k.command.nopercent w)

    l : Job
    l = record k { execstart = path }

    by_stat : (b : Bool) → IsScript host j (if b then (none, l) else to_scriptlet host l)
    by_stat true = record { same_name = h; path = inl refl }
    by_stat false = to_scriptlet-IsScript host j l h

scriptlet_for-IsScript :
    (host : Host) (j : Job) (ws : List Bytes) → IsScript host j (scriptlet_for host j ws)
unfolding scriptlet_for
scriptlet_for-IsScript host j [] = to_scriptlet-IsScript host j j refl
scriptlet_for-IsScript host j (w ∷ []) =
    let k = pull_user host j in direct-IsScript host j k w k.user_home (pull_user_name host j)
scriptlet_for-IsScript host j (w ∷ u ∷ us) = to_scriptlet-IsScript host j j refl

pub generate_scriptlet-IsScript :
    (host : Host) (j : Job) → IsScript host j (generate_scriptlet host j)
unfolding generate_scriptlet
generate_scriptlet-IsScript host j = scriptlet_for-IsScript host j (words j.command)

-- Where `output` succeeds for a job with a name of the generator's, and there was no link of that
-- name, its timer, its service and the link are there, with the whole of their texts.
pub output_done :
    (o : Oracle) (host : Host) (j : Job) (x : Bytes) (d : Disk)
    → j.unit_name ≡ codes "cron-" ++ x
    → d.files (link_path host j) ≡ none
    → (output o host j d).0 ≡ true
    → let k = (generate_scriptlet host j).1 in
      ((output o host j d).1.files (unit_path host j (codes ".timer"))
        ≡ some (generate_timer host k))
      × ((output o host j d).1.files (unit_path host j (codes ".service"))
          ≡ some (generate_service host k))
      × ((output o host j d).1.files (link_path host j) ≡ some (unit_path host j (codes ".timer")))
unfolding output
output_done o host j x d named free h =
    let script = generate_scriptlet-IsScript host j in
    let k = (generate_scriptlet host j).1 in
    let p = unit_path host j (codes ".sh") in
    let d1 = (create_and_write o p (script_text k) d).1 in
    elim script.path [
      | inl e ↦
          ground (arith, script.same_name, write_units_done host k x (script.same_name ∙ named) o d)
      | inr e ↦ ground (
        arith,
        script.same_name,
        Keeps-create_and_write o p (link_path host j) (script_text k)
            (link_not host j x named (codes ".sh")) d,
        write_units_done host k x (script.same_name ∙ named) o d1,
      )
    ]
