-- ===== src/Generator/Main/Invariant.antt =====
-- What holds of the units so far, and stays so whatever job a file hands over, holds at the end.
use systemd_cron.Base.{
  Every, true, false, refl, ℕ, List, [], ◌∷◌, ◌≡◌, Bool, Bytes, arith, if◌then◌else◌, codes, equal,
}
use systemd_cron.Generator.Crontab.{Crontab}
use systemd_cron.Generator.Environment.{Environment}
use systemd_cron.Generator.Host.{Host}
use systemd_cron.Generator.Job.{Job}
use systemd_cron.Generator.Main.Files.{
  part_job, part_file, part_dir, periods, cron_d_job, cron_d_file, anacrontab_job, spool_job,
  cron_d, parts, anacrontab, spool_file, spool,
}
use systemd_cron.Generator.Main.Toplevel.{
  Inputs, Toplevel, Progress, each, in_order, emit_unit, save_start_hour, etc_crontab_job, jobs_of,
  etc_crontab, with_mailto, unless, each_job, main_crontab,
}
use systemd_cron.Generator.Main.{realmain}
use systemd_cron.Generator.Run.{Run, done, Holds, Holds-bind}

Every-in_order :
    (P : Job → Type 0) (js acc : List Job) → Every P js → Every P acc → Every P (in_order js acc)
Every-in_order P [] acc h k = k
Every-in_order P (j ∷ js) acc h k = Every-in_order P js (j ∷ acc) h.1 (h.0, k)

-- What holds of the jobs that files hand over, and what of the progress, at every step of a run.
pub record Invariant (host : Host) (inputs : Inputs) (Fair : Job → Type 0) (I : Progress → Type 0)
    : Type 0 where
  pub reads :
      (c : Crontab) (env : Environment)
      → Holds (λ r. Every Fair r.1.jobs) (jobs_of host inputs c env)
  pub mails : (top : Toplevel) (j : Job) → Fair j → Fair (with_mailto host top j)
  pub emits : (j : Job) (p : Progress) → Fair j → I p → I (emit_unit host j p)
  pub hours : (f : Bytes → ℕ) (p : Progress) → I p → I (record p { start_hours = f })
  pub scripts :
      inputs.use_runparts ≡ false
      → (top : Toplevel) (period : Bytes) (delay : ℕ) (name : Bytes) (p : Progress) → I p
      → I (record p { units = part_job host inputs top period delay name p ∷ p.units })

module _ (host : Host) (inputs : Inputs) (Fair : Job → Type 0) (I : Progress → Type 0)
    (inv : Invariant host inputs Fair I) where
  -- The step keeps the invariant.
  abbrev Keep : (Progress → Run Progress) → Type 0
  Keep f = (p : Progress) → I p → Holds I (f p)

  each-Keep :
      {A : Type 0} (f : A → Progress → Run Progress) (xs : List A)
      → ((x : A) → Keep (f x))
      → Keep (each f xs)
  unfolding each
  each-Keep f [] k p i = record { result = i }
  each-Keep f (x ∷ xs) k p i = Holds-bind I (f x p) (each f xs) (k x p i) (each-Keep f xs k)

  each_listed-Keep :
      (f : Job → Progress → Run Progress) (js : List Job)
      → Every Fair js
      → ((j : Job) → Fair j → Keep (f j))
      → Keep (each f js)
  unfolding each
  each_listed-Keep f [] h k p i = record { result = i }
  each_listed-Keep f (j ∷ js) h k p i =
      Holds-bind I (f j p) (each f js) (k j h.0 p i) (each_listed-Keep f js h.1 k)

  save_start_hour-Keep : (period : Bytes) (hs : List ℕ) → Keep (save_start_hour host period hs)
  unfolding save_start_hour
  save_start_hour-Keep period [] p i = record { result = tt }
  save_start_hour-Keep period (h ∷ hs) p i =
      ground (arith, i, inv.hours (λ k. if equal k period then h else p.start_hours k) p i)

  emit-Keep : (j : Job) → Fair j → Keep (λ p. done (emit_unit host j p))
  emit-Keep j fair p i = record { result = inv.emits j p fair i }

  etc_crontab_job-Keep : (j : Job) → Fair j → Keep (etc_crontab_job host j)
  unfolding etc_crontab_job
  etc_crontab_job-Keep j fair p i =
      let hour = j.timespec.hour in
      ground (
        arith,
        i,
        save_start_hour-Keep (codes "daily") hour p i,
        save_start_hour-Keep (codes "weekly") hour p i,
        save_start_hour-Keep (codes "monthly") hour p i,
        emit-Keep j fair p i,
      )

  valid-Keep : (j k : Job) → Fair k → Keep (λ p. done (if j.valid then emit_unit host k p else p))
  valid-Keep j k fair p i = ground (arith, i, emit-Keep k fair p i)

  unless-Keep : (b : Bool) (f : Progress → Run Progress) → Keep f → Keep (unless b f)
  unfolding unless
  unless-Keep b f k p i = ground (arith, i, k p i)

  unless_not-Keep :
      (b : Bool) (f : Progress → Run Progress) → (b ≡ false → Keep f) → Keep (unless b f)
  unfolding unless
  unless_not-Keep true f k p i = record { result = i }
  unless_not-Keep false f k p i = k refl p i

  each_job-Keep :
      (f : Job → Progress → Run Progress) (c : Crontab) (env : Environment)
      → ((j : Job) → Fair j → Keep (f j))
      → Keep (each_job host inputs f c env)
  unfolding each_job
  each_job-Keep f c env k p i =
      Holds-bind (λ r. Every Fair r.1.jobs) (jobs_of host inputs c env)
        (λ r. each f (in_order r.1.jobs []) p) (inv.reads c env)
        (λ r h.
          each_listed-Keep f (in_order r.1.jobs []) (Every-in_order Fair r.1.jobs [] h tt) k p i)

  etc_crontab-Keep : (p : Progress) → I p → Holds (λ r. I r.1) (etc_crontab host inputs p)
  unfolding etc_crontab
  etc_crontab-Keep p i =
      Holds-bind (λ r. Every Fair r.1.jobs) (jobs_of host inputs main_crontab []) _
        (inv.reads main_crontab [])
        λ r fair.
          Holds-bind I (each (etc_crontab_job host) (in_order r.1.jobs []) p) _
            (each_listed-Keep (etc_crontab_job host) (in_order r.1.jobs [])
              (Every-in_order Fair r.1.jobs [] fair tt) etc_crontab_job-Keep p i)
            (λ q h. record { result = h })

  module _ (top : Toplevel) where
    cron_d_job-Keep : (j : Job) → Fair j → Keep (cron_d_job host inputs top j)
    unfolding cron_d_job
    cron_d_job-Keep j fair = valid-Keep j (with_mailto host top j) (inv.mails top j fair)

    cron_d-Keep : Keep (cron_d host inputs top)
    unfolding cron_d cron_d_file
    cron_d-Keep = each-Keep _ _ λ name. unless-Keep _ _ (each_job-Keep _ _ _ cron_d_job-Keep)

    anacrontab-Keep : Keep (anacrontab host inputs top)
    unfolding anacrontab anacrontab_job
    anacrontab-Keep = each_job-Keep _ _ _ λ j. valid-Keep j j

    spool-Keep : Keep (spool host inputs top)
    unfolding spool spool_file spool_job
    spool-Keep =
        unless-Keep _ _ (each-Keep _ _ λ name. unless-Keep _ _ (each_job-Keep _ _ _ emit-Keep))

    script-Keep :
        inputs.use_runparts ≡ false
        → (period : Bytes) (delay : ℕ) (name : Bytes)
        → Keep (part_file host inputs top period delay name)
    unfolding part_file
    script-Keep e period delay name =
        unless-Keep _ _ (λ p i. record { result = inv.scripts e top period delay name p i })

    parts-Keep : Keep (parts host inputs top)
    unfolding parts part_dir
    parts-Keep = unless_not-Keep inputs.use_runparts _ (λ e.
        each-Keep _ (periods host inputs top)
          (λ d. unless-Keep _ _ (each-Keep _ _ (script-Keep e d.0 d.1))))

  pub realmain-Holds :
      I (record { seqs = λ id. 0; start_hours = λ k. 0; units = [] })
      → Holds I (realmain host inputs)
  unfolding realmain
  realmain-Holds i =
      Holds-bind (λ r. I r.1) (etc_crontab host inputs _) _ (etc_crontab-Keep _ i)
        λ r ir. Holds-bind I (cron_d host inputs r.0 r.1) _ (cron_d-Keep r.0 r.1 ir) λ p ip.
          Holds-bind I (parts host inputs r.0 p) _ (parts-Keep r.0 p ip) λ q iq.
            Holds-bind I (anacrontab host inputs r.0 q) _ (anacrontab-Keep r.0 q iq)
              (spool-Keep r.0)
