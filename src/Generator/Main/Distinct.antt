-- ===== src/Generator/Main/Distinct.antt =====
-- The names of the units of a whole run, over every file.
use systemd_cron.Base.{
  Every, Bool, true, false, ℕ, ◌+◌, ◌≤◌, ◌<◌, ◌≡◌, refl, ap, subst, ◌∙◌, List, [], ◌∷◌, ◌++◌,
  Option, none, some, ◌&&◌, inl, inr, Bytes, keep, length, equal, equal_iff, Bool-cases, arith,
  if◌then◌else◌, codes, ◌⊎◌, sym,
}
use systemd_cron.Generator.Crontab.Distinct.{distinct, names, bump, unit_active, unit_inactive}
use systemd_cron.Generator.Crontab.{Reader, Seqs, generate_timer_unit}
use systemd_cron.Generator.Host.{Host}
use systemd_cron.Generator.Job.Exec.{is_active, generate_unit_name, digested, words}
use systemd_cron.Generator.Job.Names.{counted_name, counted_name_injective, is_counted}
use systemd_cron.Generator.Job.Schedule.{member}
use systemd_cron.Generator.Job.{Job}
use systemd_cron.Generator.Main.Invariant.{Invariant, realmain-Holds}
use systemd_cron.Generator.Main.Toplevel.{Inputs, jobs_of, Progress, emit_unit}
use systemd_cron.Generator.Main.{realmain}
use systemd_cron.Generator.Run.{Run, out_of_bounds, spinning, done, Holds}
use systemd_cron.Vore.Uint.{u64_mod}

-- The names of the units that are named by a number.
abbrev pub counted_names : List Job → List Bytes
counted_names js = names (keep is_counted js)

-- No unit has a name that the numbers of its id have not reached, and all names differ.
record Fresh (seqs : Seqs) (js : List Job) : Type 0 where
  bound : (id : Bytes) → seqs id ≤ length js
  ahead : (id : Bytes) (k : ℕ) → seqs id ≤ k → member (counted_name id k) (counted_names js) ≡ false
  differ : distinct (counted_names js) ≡ true

names_digest :
    (js : List Job) (j : Job) → is_counted j ≡ false → counted_names (j ∷ js) ≡ counted_names js
names_digest js j h = rw h refl

names_counted :
    (js : List Job) (j : Job)
    → is_counted j ≡ true
    → counted_names (j ∷ js) ≡ j.unit_name ∷ counted_names js
names_counted js j h = rw h refl

add_digest :
    (seqs next : Seqs) (js : List Job) (j : Job)
    → is_counted j ≡ false
    → ((id : Bytes) → next id ≡ seqs id)
    → Fresh seqs js
    → Fresh next (j ∷ js)
add_digest seqs next js j h same f = record {
  bound = λ id. omega (arith, same id, f.bound id);
  ahead = λ id k l. rw (names_digest js j h) (f.ahead id k (omega (arith, same id, l)));
  differ = ap distinct (names_digest js j h) ∙ f.differ;
}

-- The numbers do not wrap, since there are fewer units.
bump-cases :
    (seqs : Seqs) (jobid id : Bytes)
    → seqs jobid + 1 < u64_mod
    → ((id ≡ jobid) × (bump seqs jobid id ≡ seqs id + 1))
      ⊎ ((equal id jobid ≡ false) × (bump seqs jobid id ≡ seqs id))
bump-cases seqs jobid id l = elim (Bool-cases (equal id jobid)) [
  | inl e ↦ let same = (equal_iff id jobid).0 e in inl (same, rw e (omega (arith, l, ap seqs same)))
  | inr e ↦ inr (e, rw e refl)
]

differs :
    (a b : Bytes) (m n : ℕ)
    → ¬ ((a ≡ b) × (m ≡ n))
    → equal (counted_name a m) (counted_name b n) ≡ false
differs a b m n h = elim (Bool-cases (equal (counted_name a m) (counted_name b n))) [
  | inl e ↦ absurd (h (counted_name_injective a b m n ((equal_iff _ _).0 e)))
  | inr e ↦ e
]

add_counted :
    (seqs : Seqs) (js : List Job) (j : Job)
    → is_counted j ≡ true
    → length js + 1 < u64_mod
    → Fresh seqs js
    → Fresh (bump seqs j.jobid) (record j { unit_name = counted_name j.jobid (seqs j.jobid) } ∷ js)
unfolding member
add_counted seqs js j h l f = record {
  bound = λ id. ground (arith, bump-cases seqs j.jobid id room, f.bound id);
  ahead = λ id k m.
      rw (names_counted js named h, member, differs j.jobid id (seqs j.jobid) k (apart id k m))
        (f.ahead id k (ground (arith, bump-cases seqs j.jobid id room, m)));
  differ = rw (names_counted js named h, f.ahead j.jobid (seqs j.jobid) (omega arith)) f.differ;
}
  where
    named : Job
    named = record j { unit_name = counted_name j.jobid (seqs j.jobid) }

    room : seqs j.jobid + 1 < u64_mod
    room = omega (arith, l, f.bound j.jobid)

    apart :
        (id : Bytes) (k : ℕ) → bump seqs j.jobid id ≤ k → ¬ ((j.jobid ≡ id) × (seqs j.jobid ≡ k))
    apart id k m (e, n) = elim (bump-cases seqs j.jobid id room) [
      | inl c ↦ omega (arith, m, c.1, ap seqs e, n)
      | inr c ↦ cc (c.0, (equal_iff id j.jobid).1 (sym e))
    ]

-- What holds of the progress of a run whose units have not passed the range of the numbers.
abbrev Apart : Progress → Type 0
Apart p = length p.units < u64_mod → Fresh p.seqs p.units

unit_digest :
    (host : Host) (seqs : Seqs) (j : Job)
    → is_counted j ≡ false
    → (j.valid && is_active host j) ≡ true
    → (k : Job) × (next : Seqs) × (is_counted k ≡ false)
      × ((id : Bytes) → next id ≡ seqs id)
      × (generate_timer_unit host seqs j ≡ (some k, next))
unfolding generate_timer_unit generate_unit_name
unit_digest host seqs j c e = (
  record j {
    unit_name =
        codes "cron-"
        ++ j.jobid
        ++ codes "-"
        ++ host.md5_hex (j.schedule_raw ++ digested (words j.command));
  },
  (λ id. if equal id j.jobid then seqs j.jobid else seqs id),
  c,
  (λ id. same id (Bool-cases (equal id j.jobid))),
  rw (e, c) refl,
)
  where
    same :
        (id : Bytes)
        → (equal id j.jobid ≡ true) ⊎ (equal id j.jobid ≡ false)
        → (if equal id j.jobid then seqs j.jobid else seqs id) ≡ seqs id
    same id (inl e) = rw e (ap seqs (sym ((equal_iff id j.jobid).0 e)))
    same id (inr e) = rw e refl

-- The progress after this outcome for a job.
abbrev after : Progress → Option Job × Seqs → Progress
after p r = record p { seqs = r.1; units = elim r.0 [ none ↦ p.units | some k ↦ k ∷ p.units ] }

emit_unit-after :
    (host : Host) (j : Job) (p : Progress) (r : Option Job × Seqs)
    → generate_timer_unit host p.seqs j ≡ r
    → emit_unit host j p ≡ after p r
unfolding emit_unit
emit_unit-after host j p r e = ap (after p) e

emit_unit-Apart : (host : Host) (j : Job) (p : Progress) → Apart p → Apart (emit_unit host j p)
emit_unit-Apart host j p a = elim (Bool-cases (j.valid && is_active host j)) [
  | inr e ↦ rw (emit_unit-after host j p (none, p.seqs) (unit_inactive host p.seqs j e)) a
  | inl e ↦ elim (Bool-cases (is_counted j)) [
    | inl c ↦
        rw (emit_unit-after host j p _ (unit_active host p.seqs j c e))
          (λ l. add_counted p.seqs p.units j c (omega (arith, l)) (a (omega (arith, l))))
    | inr c ↦
        let (k, next, d, same, r) = unit_digest host p.seqs j c e in
        rw (emit_unit-after host j p (some k, next) r)
          (λ l. add_digest p.seqs next p.units k d same (a (omega (arith, l))))
  ]
]

trivial_jobs : (js : List Job) → Every (λ j. Unit) js
trivial_jobs [] = tt
trivial_jobs (j ∷ js) = (tt, trivial_jobs js)

trivial_read : (m : Run (Bool × Reader)) → Holds (λ r. Every (λ j. Unit) r.1.jobs) m
trivial_read (done r) = record { result = trivial_jobs r.1.jobs }
trivial_read out_of_bounds = record { result = tt }
trivial_read spinning = record { result = tt }

-- Where the directories of scripts are left to run-parts, and a run makes fewer than 2 ^ 64 units,
-- no two of its units that are named by a number have the same name, whatever the crontabs of the
-- system and its users hold.
pub realmain-distinct :
    (host : Host) (inputs : Inputs) (p : Progress)
    → inputs.use_runparts ≡ true
    → realmain host inputs ≡ done p
    → length p.units < u64_mod
    → distinct (counted_names p.units) ≡ true
unfolding member
realmain-distinct host inputs p runparts e l =
    let empty : Fresh (λ id. 0) [] = record {
      bound = λ id. omega arith;
      ahead = λ id k m. refl;
      differ = refl;
    } in
    let inv : Invariant host inputs (λ j. Unit) Apart = record {
      reads = λ c env. trivial_read (jobs_of host inputs c env);
      mails = λ top j fair. fair;
      emits = λ j q fair a. emit_unit-Apart host j q a;
      hours = λ f q a. a;
      scripts = λ other top period delay name q a.
          absurd (let no : true ≡ false = sym runparts ∙ other in cc);
    } in
    let held : Holds Apart (realmain host inputs) =
      realmain-Holds host inputs (λ j. Unit) Apart inv (λ m. empty) in
    ((subst (Holds Apart) e held).result l).differ
