-- ===== src/Generator/Job/Timed.antt =====
-- The sets that the reader of a job's five time fields leaves.
use systemd_cron.Base.{
  ℕ, ◌≡◌, ◌⊎◌, inl, inr, refl, List, [], ◌∷◌, Bool, true, false, Bytes, codes, equal, if◌then◌else◌,
  length, ltb, ◌+◌,
}
use systemd_cron.Generator.Field.{
  Mapping, int_map, month_map, dow_map, minutes_set, hours_set, days_set, dows_set, months_set,
}
use systemd_cron.Generator.Job.Parse.{
  parse_elements, parse_time_unit, parse_numbers, parse_fields, parse_crontab_timespec,
  take_command, timespec_asterisk, Draws, one_for_user,
}
use systemd_cron.Generator.Job.{Job, TimeFields, WithUser}
use systemd_cron.Generator.OrderedSet.{Less, number_less, text_less}
use systemd_cron.Generator.Period.Members.{IsSubset, IsSubset-nil, Kept, parse_period-Kept}
use systemd_cron.Generator.Period.{Engine, Target, Verdict, fine, complain, off_range}
use systemd_cron.Generator.Run.{Run, done, Holds, Holds-bind, Holds-if}
use systemd_cron.Vore.Tokenise.{View, soft_tokenise}

-- The set of a field: the asterisk alone, or values of its table, in order.
abbrev pub IsField : {A : Type 0} ⦃o : Less A⦄ → List A → A → List A → Type 0
IsField values asterisk set = (set ≡ asterisk ∷ []) ⊎ IsSubset values set

module _ (draw : Engine) {A : Type 0} ⦃o : Less A⦄ (values : List A) (mapping : Mapping) where
  parse_elements-IsSubset :
      (base : ℕ) (vs : List View) (t : Target A)
      → IsSubset values t.into
      → Holds (λ r. IsSubset values r.1.into) (parse_elements draw values mapping base vs t)
  unfolding parse_elements
  parse_elements-IsSubset base [] t h = record { result = h }
  parse_elements-IsSubset base (v ∷ vs) t h =
      Holds-bind (Kept values) _ _ (parse_period-Kept values draw mapping base v.text t h)
        (λ r k. by_verdict r.1 (parse_elements-IsSubset base vs r.1 k) r.0 k)
    where
      by_verdict :
          (u : Target A)
          → Holds (λ r. IsSubset values r.1.into) (parse_elements draw values mapping base vs u)
          → (verdict : Verdict) → IsSubset values u.into
          → Holds
              (λ r. IsSubset values r.1.into)
              (elim verdict as (λ _. Run (Bool × Target A)) [
                | fine ↦ parse_elements draw values mapping base vs u
                | complain message ↦ done (false, u)
                | off_range ↦ done (false, u)
              ])
      by_verdict u rest fine k = rest
      by_verdict u rest (complain message) k = record { result = k }
      by_verdict u rest off_range k = record { result = k }

  kept_or_nil :
      (b : Bool) (set : List A) → IsSubset values set → IsSubset values (if b then set else [])
  kept_or_nil true set h = h
  kept_or_nil false set h = IsSubset-nil values

  parse_time_unit-IsField :
      (persistent : Bool) (asterisk : A) (base : ℕ) (value : Bytes)
      → Holds
          (λ p. IsField values asterisk p.set)
          (parse_time_unit draw values mapping persistent asterisk base value)
  unfolding parse_time_unit
  parse_time_unit-IsField persistent asterisk base value =
      Holds-if (equal value (codes "*")) _ _ (record { result = inl refl })
        (Holds-bind (λ r. IsSubset values r.1.into) _ _
          (parse_elements-IsSubset base (soft_tokenise value (codes ","))
            (record { into = []; raw_for_schedule = false; drawn = 0 }) (IsSubset-nil values))
          (λ r k. record { result = inr (kept_or_nil r.0 r.1.into k) }))

-- The five sets of a job.
pub record IsTimed (t : TimeFields) : Type 0 where
  pub minute : IsField minutes_set timespec_asterisk t.minute
  pub hour : IsField hours_set timespec_asterisk t.hour
  pub dom : IsField days_set timespec_asterisk t.dom
  pub dow : IsField dows_set (codes "*") t.dow
  pub month : IsField months_set timespec_asterisk t.month

parse_fields-IsTimed :
    (draws : Draws) (persistent : Bool) (minutes hours days months dows : Bytes)
    → Holds (λ r. IsTimed r.0) (parse_fields draws persistent minutes hours days months dows)
unfolding parse_fields parse_numbers
parse_fields-IsTimed draws persistent minutes hours days months dows =
    Holds-bind (λ p. IsField minutes_set timespec_asterisk p.set) _ _
      (parse_time_unit-IsField draws.minute minutes_set int_map _ _ _ _)
      λ minute hm.
        Holds-bind (λ p. IsField hours_set timespec_asterisk p.set) _ _
          (parse_time_unit-IsField draws.hour hours_set int_map _ _ _ _)
          λ hour hh.
            Holds-bind (λ p. IsField days_set timespec_asterisk p.set) _ _
              (parse_time_unit-IsField draws.dom days_set int_map _ _ _ _)
              λ dom hd.
                Holds-bind (λ p. IsField dows_set (codes "*") p.set) _ _
                  (parse_time_unit-IsField draws.dow dows_set dow_map _ _ _ _)
                  λ dow hw.
                    Holds-bind (λ p. IsField months_set timespec_asterisk p.set) _ _
                      (parse_time_unit-IsField draws.month months_set month_map _ _ _ _)
                      λ month hn. record {
                        result = record { minute = hm; hour = hh; dom = hd; dow = hw; month = hn };
                      }

-- The fields that are read, or those that were there where the line is too short.
pub parse_crontab_timespec-IsTimed :
    (draws : Draws) (withuser : WithUser) (j : Job)
    → IsTimed j.timespec
    → Holds
        (λ k. IsTimed k.timespec × (k.period ≡ j.period))
        (parse_crontab_timespec draws withuser j)
unfolding parse_crontab_timespec take_command
parse_crontab_timespec-IsTimed draws withuser j h =
    Holds-if (ltb (length j.parts) (6 + one_for_user withuser)) _ _ (record { result = (h, refl) })
      (Holds-bind (λ r. IsTimed r.0) _ _ (parse_fields-IsTimed draws _ _ _ _ _ _)
        (λ r k. record { result = (k, refl) }))
