-- ===== src/Generator/Crontab/Distinct.antt =====
-- The jobs of one run that count get names that differ.
use systemd_cron.Base.{
  ℕ, suc, Option, none, some, ◌∙◌, ◌+◌, ◌%◌, ◌≤◌, ◌<◌, ◌≡◌, refl, ap, List, [], ◌∷◌, Bool, true,
  false, not, ◌&&◌, inl, inr, Bytes, map, all, length, equal, equal_iff, equal_refl, Bool-cases,
  arith, if◌then◌else◌, length,
}
use systemd_cron.Generator.Crontab.{Seqs, generate_timer_unit, generate_timer_units}
use systemd_cron.Generator.Host.{Host}
use systemd_cron.Generator.Job.Exec.{is_active}
use systemd_cron.Generator.Job.Names.{
  counted_name, counted_name_injective, is_counted, generate_unit_name_counted,
}
use systemd_cron.Generator.Job.Schedule.{member}
use systemd_cron.Generator.Job.{Job}
use systemd_cron.Vore.Uint.{u64_mod}

abbrev pub distinct : List Bytes → Bool
distinct [] = true
distinct (x ∷ xs) = not (member x xs) && distinct xs

abbrev pub names : List Job → List Bytes
names = map (λ j. j.unit_name)

abbrev pub bump : Seqs → Bytes → Seqs
bump seqs id other = if equal other id then (seqs id + 1) % u64_mod else seqs other

pub unit_active :
    (host : Host) (seqs : Seqs) (j : Job)
    → is_counted j ≡ true
    → (j.valid && is_active host j) ≡ true
    → generate_timer_unit host seqs j
      ≡ (some (record j { unit_name = counted_name j.jobid (seqs j.jobid) }), bump seqs j.jobid)
unfolding generate_timer_unit
unit_active host seqs j h a =
    rw (a, generate_timer_unit)
      (ap
        (λ (r : Job × ℕ).
          let t : Option Job × Seqs = (some r.0, λ id. if equal id j.jobid then r.1 else seqs id) in
          t)
        (generate_unit_name_counted host (seqs j.jobid) j h))

pub unit_inactive :
    (host : Host) (seqs : Seqs) (j : Job)
    → (j.valid && is_active host j) ≡ false
    → generate_timer_unit host seqs j ≡ (none, seqs)
unfolding generate_timer_unit
unit_inactive host seqs j a = rw (a, generate_timer_unit) refl

-- The names of a run that begins with this outcome for a job.
abbrev extended : Host → List Job → Option Job × Seqs → List Bytes
extended host js (none, seqs) = names (generate_timer_units host seqs js)
extended host js (some k, seqs) = k.unit_name ∷ names (generate_timer_units host seqs js)

names_first :
    (host : Host) (seqs : Seqs) (j : Job) (js : List Job)
    → names (generate_timer_units host seqs (j ∷ js))
      ≡ extended host js (generate_timer_unit host seqs j)
unfolding generate_timer_units
names_first host seqs j js = by_outcome (generate_timer_unit host seqs j)
  where
    by_outcome :
        (r : Option Job × Seqs)
        → names (elim r.0 [
          | none ↦ generate_timer_units host r.1 js
          | some k ↦ k ∷ generate_timer_units host r.1 js
        ])
          ≡ extended host js r
    by_outcome (none, seqs') = refl
    by_outcome (some k, seqs') = refl

names_active :
    (host : Host) (seqs : Seqs) (j : Job) (js : List Job)
    → is_counted j ≡ true
    → (j.valid && is_active host j) ≡ true
    → names (generate_timer_units host seqs (j ∷ js))
      ≡ counted_name j.jobid (seqs j.jobid)
        ∷ names (generate_timer_units host (bump seqs j.jobid) js)
names_active host seqs j js h a =
    names_first host seqs j js ∙ ap (extended host js) (unit_active host seqs j h a)

names_inactive :
    (host : Host) (seqs : Seqs) (j : Job) (js : List Job)
    → (j.valid && is_active host j) ≡ false
    → names (generate_timer_units host seqs (j ∷ js)) ≡ names (generate_timer_units host seqs js)
names_inactive host seqs j js a =
    names_first host seqs j js ∙ ap (extended host js) (unit_inactive host seqs j a)

-- No number is near the end of its range.
abbrev Roomy : Seqs → ℕ → Type 0
Roomy seqs n = (id : Bytes) → seqs id + n < u64_mod

bump-Roomy : (seqs : Seqs) (id : Bytes) (n : ℕ) → Roomy seqs (suc n) → Roomy (bump seqs id) n
bump-Roomy seqs id n h other = ground (arith, h id, h other)

bump_self : (seqs : Seqs) (id : Bytes) (n : ℕ) → Roomy seqs (suc n) → bump seqs id id ≡ seqs id + 1
bump_self seqs id n h = rw (equal_refl id) (omega (arith, h id))

bump-le :
    (seqs : Seqs) (id other : Bytes) (n : ℕ) → Roomy seqs (suc n) → seqs other ≤ bump seqs id other
bump-le seqs id other n h = elim (Bool-cases (equal other id)) [
  | inl e ↦ let same = ap seqs ((equal_iff other id).0 e) in rw e (omega (arith, h id, same))
  | inr e ↦ rw e (omega arith)
]

-- A name with a number that the run has passed does not come again.
not_again :
    (host : Host) (seqs : Seqs) (js : List Job) (id : Bytes) (k : ℕ)
    → all is_counted js ≡ true
    → Roomy seqs (length js)
    → k < seqs id
    → member (counted_name id k) (names (generate_timer_units host seqs js)) ≡ false
unfolding generate_timer_units member
not_again host seqs [] id k c h l = refl
not_again host seqs (j ∷ js) id k c h l = elim (Bool-cases (j.valid && is_active host j)) [
  | inr a ↦
      rw (names_inactive host seqs j js a)
        (not_again host seqs js id k rest (λ i. omega (arith, h i)) l)
  | inl a ↦ rw (names_active host seqs j js first a) (
      let later =
        not_again host (bump seqs j.jobid) js id k rest (bump-Roomy seqs j.jobid (length js) h)
          (omega (arith, l, bump-le seqs j.jobid id (length js) h)) in
      rw (later, differs, member) refl)
]
  where
    first : is_counted j ≡ true
    first = ground arith

    rest : all is_counted js ≡ true
    rest = ground arith

    differs : equal (counted_name j.jobid (seqs j.jobid)) (counted_name id k) ≡ false
    differs = elim (Bool-cases (equal (counted_name j.jobid (seqs j.jobid)) (counted_name id k))) [
      | inr e ↦ e
      | inl e ↦
          let (ids, numbers) =
            counted_name_injective j.jobid id (seqs j.jobid) k ((equal_iff _ _).0 e) in
          absurd (omega (arith, l, numbers, ap seqs ids))
    ]

distinct-names :
    (host : Host) (seqs : Seqs) (js : List Job)
    → all is_counted js ≡ true
    → Roomy seqs (length js)
    → distinct (names (generate_timer_units host seqs js)) ≡ true
unfolding generate_timer_units
distinct-names host seqs [] c h = refl
distinct-names host seqs (j ∷ js) c h = elim (Bool-cases (j.valid && is_active host j)) [
  | inr a ↦
      rw (names_inactive host seqs j js a)
        (distinct-names host seqs js rest (λ i. omega (arith, h i)))
  | inl a ↦
      let room = bump-Roomy seqs j.jobid (length js) h in
      let once =
        not_again host (bump seqs j.jobid) js j.jobid (seqs j.jobid) rest room
          (omega (arith, bump_self seqs j.jobid (length js) h)) in
      rw (names_active host seqs j js first a, once)
        (distinct-names host (bump seqs j.jobid) js rest room)
]
  where
    first : is_counted j ≡ true
    first = ground arith

    rest : all is_counted js ≡ true
    rest = ground arith

-- In a run over fewer than 2 ^ 64 jobs, all named by numbers and none by a digest, no two units
-- have the same name, whatever the ids of the jobs.
pub generate_timer_units-distinct :
    (host : Host) (js : List Job)
    → all is_counted js ≡ true
    → length js < u64_mod
    → distinct (names (generate_timer_units host (λ id. 0) js)) ≡ true
generate_timer_units-distinct host js c h =
    distinct-names host (λ id. 0) js c (λ id. omega (arith, h))
