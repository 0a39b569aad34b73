-- ===== src/Generator/Start.antt =====
-- The effects of `realmain`, `workaround_var_not_mounted`, and the modes of `main`.
mod Tests
use systemd_cron.Base.{
  ℕ, List, [], ◌∷◌, ◌++◌, ◌==◌, none, some, Bool, true, false, not, if◌then◌else◌, Bytes, codes,
  equal, length,
}
use systemd_cron.Generator.Host.{Host}
use systemd_cron.Generator.Main.Toplevel.{Inputs, in_order}
use systemd_cron.Generator.Main.{realmain}
use systemd_cron.Generator.Output.{output_all}
use systemd_cron.Generator.Run.{Run, done, out_of_bounds, spinning}
use systemd_cron.Sys.{Oracle, M, pure, ◌>>=◌, create_and_write, symlink, mkdir, touch}
use systemd_cron.Util.System.{mkdirp}

module _ (o : Oracle) (host : Host) where
  abbrev cron_after_var : Bytes
  cron_after_var =
      codes "[Unit]\n"
      ++ codes "Description=Rerun systemd-crontab-generator because /var is a separate mount\n"
      ++ codes "Documentation=man:systemd.cron(7)\n"
      ++ codes "After=cron.target\n"
      ++ codes "ConditionDirectoryNotEmpty="
      ++ host.statedir
      ++ codes "\n"
      ++ codes "\n"
      ++ codes "[Service]\n"
      ++ codes "Type=oneshot\n"
      ++ codes
          "ExecStart=/bin/sh -c \"systemctl daemon-reload ; systemctl try-restart cron.target\"\n"

  unfoldable pub workaround_var_not_mounted : M Bool
  workaround_var_not_mounted =
      let service = host.target_dir ++ codes "/cron-after-var.service" in
      let multiuser_dir = host.target_dir ++ codes "/multi-user.target.wants" in
      do
        e ← create_and_write o service cron_after_var
        elim e [
          | some n ↦ pure false
          | none ↦ do
            made ← mkdir o multiuser_dir
            if not made then pure false else do
              l ← symlink o service (multiuser_dir ++ codes "/cron-after-var.service")
              pure (elim l [ none ↦ true | some n ↦ false ])
        ]

  -- What comes after the crontabs. The results are dropped, but for a message.
  unfoldable pub finish : Bytes → Bool → M (Run ℕ)
  unfolding workaround_var_not_mounted touch
  finish reboot_file var_there =
      if var_there
      then (do e ← touch o reboot_file; pure (done 0))
      else (do e ← workaround_var_not_mounted; pure (done 0))

  -- The status of `realmain`. No unit that it writes is among the files that it reads, so that the
  -- units are written at the end here.
  unfoldable pub generate : Bytes → Inputs → M (Run ℕ)
  unfolding realmain output_all finish mkdirp
  generate reboot_file inputs = do
    made ← mkdirp o (host.target_dir ++ codes "/cron.target.wants")
    if not made then pure (done 1) else elim (realmain host inputs) [
      | out_of_bounds ↦ pure out_of_bounds
      | spinning ↦ pure spinning
      | done p ↦ do
        u ← output_all o host (in_order p.units [])
        finish reboot_file (inputs.is_dir host.statedir)
    ]

-- What `main` does with its arguments. `by_systemd` is RUN_BY_SYSTEMD.
pub data Mode : Type 0 where
  usage : Mode
  checks : Bytes → Mode
  translates : Bytes → Mode
  runs : (target_dir : Bytes) (by_systemd : Bool) → Mode

unfoldable pub mode : List Bytes → Mode
unfolding equal
mode [] = usage
mode (target ∷ rest) =
    let file : Bytes = elim rest [ [] ↦ codes "-" | f ∷ more ↦ f ] in
    if equal target (codes "--check")
    then checks file
    else if equal target (codes "--translate")
    then translates file
    else runs target (length rest == 2)
