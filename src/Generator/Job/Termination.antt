-- ===== src/Generator/Job/Termination.antt =====
-- Reading a whole time field comes to an end.
use systemd_cron.Base.{
  ℕ, ◌^◌, ◌<◌, ◌≡◌, refl, List, [], ◌∷◌, Bool, true, false, ◌&&◌, Bytes, codes, all, length, ltb,
  arith, equal, Bool-cases, inl, inr,
}
use systemd_cron.Generator.Field.{Mapping}
use systemd_cron.Generator.Job.Parse.{parse_elements, parse_time_unit}
use systemd_cron.Generator.OrderedSet.{Less}
use systemd_cron.Generator.Period.Safety.{IsUniform, step_of, parse_period-Ends}
use systemd_cron.Generator.Period.{Engine, Target, Verdict, fine, complain, off_range, parse_period}
use systemd_cron.Generator.Run.{Run, done, is_done, is_done-bind}
use systemd_cron.Vore.Tokenise.{View, soft_tokenise}

-- Is the step of every element positive, and below 2 ^ 61?
abbrev pub has_steps : List View → Bool
has_steps = all (λ v. ltb 0 (step_of v.text) && ltb (step_of v.text) (2 ^ 61))

module _ (draw : Engine) (uniform : IsUniform draw) {A : Type 0} ⦃o : Less A⦄ (values : List A)
    (some_value : 0 < length values) (small : length values < 2 ^ 61) (mapping : Mapping)
    (base : ℕ) where
  parse_elements-Ends :
      (vs : List View) (t : Target A)
      → has_steps vs ≡ true
      → is_done (parse_elements draw values mapping base vs t) ≡ true
  unfolding parse_elements
  parse_elements-Ends [] t h = refl
  parse_elements-Ends (v ∷ vs) t h =
      let pos : 0 < step_of v.text = ground arith in
      let below : step_of v.text < 2 ^ 61 = ground arith in
      let rest : has_steps vs ≡ true = ground arith in
      is_done-bind (parse_period draw values mapping base v.text t)
        (λ r. elim r.0 [
          | fine ↦ parse_elements draw values mapping base vs r.1
          | complain message ↦ done (false, r.1)
          | off_range ↦ done (false, r.1)
        ])
        (parse_period-Ends draw uniform values some_value small mapping base v.text t pos below)
        (λ r. by_verdict (λ u. parse_elements-Ends vs u rest) r.0 r.1)
    where
      by_verdict :
          ((u : Target A) → is_done (parse_elements draw values mapping base vs u) ≡ true)
          → (verdict : Verdict) (u : Target A)
          → is_done (elim verdict as (λ _. Run (Bool × Target A)) [
            | fine ↦ parse_elements draw values mapping base vs u
            | complain message ↦ done (false, u)
            | off_range ↦ done (false, u)
          ])
            ≡ true
      by_verdict rest fine u = rest u
      by_verdict rest (complain message) u = refl
      by_verdict rest off_range u = refl

  -- A time field, a list of elements with commas between them, is read to its end, with every
  -- read inside the table, if that has a value and fewer than 2 ^ 61, the random engine is uniform and the step of every element is
  -- positive and below 2 ^ 61.
  pub parse_time_unit-Ends :
      (persistent : Bool) (asterisk : A) (value : Bytes)
      → has_steps (soft_tokenise value (codes ",")) ≡ true
      → is_done (parse_time_unit draw values mapping persistent asterisk base value) ≡ true
  unfolding parse_time_unit
  parse_time_unit-Ends persistent asterisk value h = elim (Bool-cases (equal value (codes "*"))) [
    | inl e ↦ rw (e, parse_time_unit) refl
    | inr e ↦
        rw (e, parse_time_unit)
          (is_done-bind
            (parse_elements draw values mapping base (soft_tokenise value (codes ","))
              (record { into = []; raw_for_schedule = false; drawn = 0 }))
            _
            (parse_elements-Ends (soft_tokenise value (codes ","))
              (record { into = []; raw_for_schedule = false; drawn = 0 }) h)
            (λ r. refl))
  ]
