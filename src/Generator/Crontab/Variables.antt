-- ===== src/Generator/Crontab/Variables.antt =====
-- The variables of a crontab: what a line that sets one leaves for the jobs below it.
use systemd_cron.Base.{
  ◌≡◌, refl, ap, ◌∙◌, [], ◌∷◌, some, false, ◌&&◌, Bytes, codes, equal, equal_iff, equal_refl, arith,
  Bool-cases, inl, inr,
}
use systemd_cron.Generator.Crontab.{Reader, set_variable}
use systemd_cron.Generator.Environment.{Environment, find, assign}

find-assign_self : (k v : Bytes) (env : Environment) → find k (assign k v env) ≡ some v
unfolding find assign
find-assign_self k v [] = rw (equal_refl k) refl
find-assign_self k v ((l, w) ∷ env) = ground (arith, equal_refl k, find-assign_self k v env)

find-assign_other :
    (k l v : Bytes) (env : Environment) → equal k l ≡ false → find l (assign k v env) ≡ find l env
unfolding find assign
find-assign_other k l v [] h = rw h refl
find-assign_other k l v ((m, w) ∷ env) h = elim (Bool-cases (equal m k)) [
  | inl e ↦
      let same = (equal_iff m k).0 e in
      let other : equal m l ≡ false = ap (λ x. equal x l) same ∙ h in rw (e, h, other) refl
  | inr e ↦ ground (arith, find-assign_other k l v env h)
]

-- A line that sets a variable, but for PERSISTENT=auto and CRON_INHERIT_VARIABLES, gives it its
-- value for the jobs below, leaves any other variable as it was, and adds no job.
pub set_variable-find :
    (key value : Bytes) (r : Reader)
    → (equal key (codes "PERSISTENT") && equal value (codes "auto")) ≡ false
    → equal key (codes "CRON_INHERIT_VARIABLES") ≡ false
    → (l : Bytes) → equal key l ≡ false
    → (find key (set_variable key value r).environment ≡ some value)
      × (find l (set_variable key value r).environment ≡ find l r.environment)
      × ((set_variable key value r).jobs ≡ r.jobs)
unfolding set_variable
set_variable-find key value r p c l h =
    rw (p, c)
      (
        find-assign_self key value r.environment,
        find-assign_other key l value r.environment h,
        refl,
      )
