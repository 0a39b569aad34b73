-- ===== src/Generator/Main/Sound.antt =====
-- The units of a whole run: their time fields, and the calendar expressions they get.
use systemd_cron.Base.{
  ℕ, ◌≡◌, inl, inr, refl, ap, subst, [], ◌∷◌, ◌++◌, Option, none, some, true, ◌&&◌, ◌||◌, Bytes,
  codes, Bool-cases, not,
}
use systemd_cron.Generator.Crontab.Timed.{
  IsSound, AreSound, untimed, decode-Unscheduled, generate_schedule-IsSound, parse_crontab-Holds,
}
use systemd_cron.Generator.Crontab.{Seqs, generate_timer_unit}
use systemd_cron.Generator.Environment.{emplace_entry}
use systemd_cron.Generator.Host.{Host}
use systemd_cron.Generator.Job.Exec.{decode, generate_unit_name, is_active}
use systemd_cron.Generator.Job.Kept.{decode_environment-times}
use systemd_cron.Generator.Job.Schedule.{generate_schedule}
use systemd_cron.Generator.Job.{Job, new_job, decode_environment}
use systemd_cron.Generator.Main.Files.{part_job}
use systemd_cron.Generator.Main.Invariant.{Invariant, realmain-Holds}
use systemd_cron.Generator.Main.Toplevel.{
  Inputs, jobs_of, Toplevel, Progress, emit_unit, with_mailto,
}
use systemd_cron.Generator.Main.{realmain}
use systemd_cron.Generator.Run.{done, Holds}

with_mailto-IsSound :
    (host : Host) (top : Toplevel) (j : Job) → IsSound j → IsSound (with_mailto host top j)
unfolding with_mailto
with_mailto-IsSound host top j h = go top.fallback_mailto
  where
    go :
        (o : Option Bytes)
        → IsSound (elim o [
          | none ↦ j
          | some to ↦ record j { environment = emplace_entry (codes "MAILTO") to j.environment }
        ])
    go none = h
    go (some to) = record { timed = h.timed; read = h.read }

generate_unit_name-IsSound :
    (host : Host) (seq : ℕ) (j : Job) → IsSound j → IsSound (generate_unit_name host seq j).0
unfolding generate_unit_name
generate_unit_name-IsSound host seq j h =
    elim (Bool-cases (not (j.persistent || j.cron_unique_units))) [
      | inl e ↦ rw e (record { timed = h.timed; read = h.read })
      | inr e ↦ rw e (record { timed = h.timed; read = h.read })
    ]

-- What a job becomes, where it gets units.
abbrev Named : Option Job → Type 0
Named none = Unit
Named (some k) = IsSound k

generate_timer_unit-Named :
    (host : Host) (seqs : Seqs) (j : Job) → IsSound j → Named (generate_timer_unit host seqs j).0
unfolding generate_timer_unit
generate_timer_unit-Named host seqs j h = elim (Bool-cases (j.valid && is_active host j)) [
  | inl e ↦ rw (e, generate_timer_unit) (generate_unit_name-IsSound host (seqs j.jobid) j h)
  | inr e ↦ rw (e, generate_timer_unit) tt
]

emit_unit-AreSound :
    (host : Host) (j : Job) (p : Progress)
    → IsSound j
    → AreSound p.units
    → AreSound (emit_unit host j p).units
unfolding emit_unit
emit_unit-AreSound host j p h i =
    go (generate_timer_unit host p.seqs j).0 (generate_timer_unit-Named host p.seqs j h)
  where
    go : (o : Option Job) → Named o → AreSound (elim o [ none ↦ p.units | some k ↦ k ∷ p.units ])
    go none n = i
    go (some k) n = (n, i)

-- The job of a script has a period, and no time fields.
part_job-IsSound :
    (host : Host) (inputs : Inputs) (top : Toplevel) (period : Bytes) (delay : ℕ) (name : Bytes)
    (p : Progress)
    → IsSound (part_job host inputs top period delay name p)
unfolding part_job new_job
part_job-IsSound host inputs top period delay name p =
    let filename = codes "/etc/cron." ++ period ++ codes "/" ++ name in
    let j =
      decode_environment host top.inherit_variables true top.mail_success top.mail_format
        (new_job filename filename) in
    let bare =
      ap (λ t. t.0)
        (decode_environment-times host top.inherit_variables true top.mail_success top.mail_format
          (new_job filename filename)) in
    let k : Job = record j {
      period = period;
      start_hour = p.start_hours period;
      boot_delay = delay;
      command = record {
        words = record { text = filename; after = [] } ∷ [];
        command0 = none;
        nopercent = true;
      };
      jobid = period ++ codes "-" ++ name;
    } in
    let sound = with_mailto-IsSound host top (generate_schedule host (decode host k)) (
      generate_schedule-IsSound host (decode host k)
        (decode-Unscheduled host k (untimed j k refl bare))) in
    record { timed = sound.timed; read = sound.read }

-- Whatever the crontabs of the system and its users hold, every unit of a run has sets in order that
-- come from the tables of their fields, or the asterisk alone; and where it is valid and has
-- minutes, its calendar expression is read back as its time fields.
pub realmain-AreSound :
    (host : Host) (inputs : Inputs) (p : Progress)
    → realmain host inputs ≡ done p
    → AreSound p.units
unfolding jobs_of
realmain-AreSound host inputs p e =
    let inv : Invariant host inputs IsSound (λ q. AreSound q.units) = record {
      reads = λ c env.
          parse_crontab-Holds host (inputs.draws c.filename) c env (inputs.read c.filename);
      mails = with_mailto-IsSound host;
      emits = emit_unit-AreSound host;
      hours = λ f q h. h;
      scripts =
          λ e top period delay name q h. (part_job-IsSound host inputs top period delay name q, h);
    } in
    (subst (Holds (λ q. AreSound q.units)) e
      (realmain-Holds host inputs IsSound (λ q. AreSound q.units) inv tt)).result
