-- ===== src/Generator/Output/Frame.antt =====
-- The files of one unit are not those of another.
use systemd_cron.Base.{◌≡◌, inl, inr, false, Bytes, codes, equal, arith}
use systemd_cron.Generator.Host.{Host}
use systemd_cron.Generator.Job.Exec.{generate_scriptlet}
use systemd_cron.Generator.Job.Unit.{generate_timer, generate_service}
use systemd_cron.Generator.Job.{Job}
use systemd_cron.Generator.Output.Script.{generate_scriptlet-IsScript}
use systemd_cron.Generator.Output.{
  unit_path, link_path, output, write_units, write_service, script_text,
}
use systemd_cron.Sys.Keeps.{Keeps, Keeps-create_and_write, Keeps-symlink}
use systemd_cron.Sys.{Oracle, create_and_write, symlink}

-- The files that `output` can change.
pub record Apart (host : Host) (j : Job) (q : Bytes) : Type 0 where
  pub script : equal q (unit_path host j (codes ".sh")) ≡ false
  pub timer : equal q (unit_path host j (codes ".timer")) ≡ false
  pub service : equal q (unit_path host j (codes ".service")) ≡ false
  pub link : equal q (link_path host j) ≡ false

module _ (o : Oracle) (host : Host) (q : Bytes) where
  write_service-Keeps : (j : Job) → Apart host j q → Keeps q (write_service o host j)
  unfolding write_service
  write_service-Keeps j a d = ground (
    arith,
    Keeps-create_and_write o (unit_path host j (codes ".service")) q (generate_service host j)
        a.service d,
  )

  write_units-Keeps : (j : Job) → Apart host j q → Keeps q (write_units o host j)
  unfolding write_units
  write_units-Keeps j a d =
      let t = unit_path host j (codes ".timer") in
      let d1 = (create_and_write o t (generate_timer host j) d).1 in
      let d2 = (symlink o t (link_path host j) d1).1 in
      ground (
        arith,
        Keeps-create_and_write o t q (generate_timer host j) a.timer d,
        Keeps-symlink o (link_path host j) q t a.link d1,
        write_service-Keeps j a d2,
      )

  Apart-renamed : (j k : Job) → k.unit_name ≡ j.unit_name → Apart host j q → Apart host k q
  Apart-renamed j k e a = record {
    script = rw e a.script;
    timer = rw e a.timer;
    service = rw e a.service;
    link = rw e a.link;
  }

  pub output-Keeps : (j : Job) → Apart host j q → Keeps q (output o host j)
  unfolding output
  output-Keeps j a d =
      let script = generate_scriptlet-IsScript host j in
      let k = (generate_scriptlet host j).1 in
      let p = unit_path host j (codes ".sh") in
      let d1 = (create_and_write o p (script_text k) d).1 in
      let b = Apart-renamed j k script.same_name a in
      elim script.path [
        | inl e ↦ ground (arith, e, write_units-Keeps k b d)
        | inr e ↦ ground (
          arith,
          e,
          Keeps-create_and_write o p q (script_text k) a.script d,
          write_units-Keeps k b d1,
        )
      ]
