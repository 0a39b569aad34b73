-- ===== src/Generator/Period/Members.antt =====
-- What an element of a time field adds to its set comes from the table of the field, and the set
-- stays in order.
use systemd_cron.Base.{
  ℕ, zero, suc, ◌≡◌, ◌⊎◌, inl, inr, List, [], ◌∷◌, Bool, true, false, none, some, if◌then◌else◌,
  Bytes, codes, equal, cut, contains, length, get_elem?, In, Bool-cases, Option-cases, ◌-◌, ltb,
  ◌||◌, ◌%◌, ◌+◌,
}
use systemd_cron.Generator.Field.{Mapping, int_map}
use systemd_cron.Generator.OrderedSet.Ascending.{Ascending, emplace-Ascending}
use systemd_cron.Generator.OrderedSet.{Less, emplace, In-emplace}
use systemd_cron.Generator.Period.{
  Target, Verdict, complain, Engine, walk, star, between, tilde, ranged, parse_period,
  insert_between, insert_random,
}
use systemd_cron.Generator.Run.{Run, done, Holds, Holds-bind, Holds-if}
use systemd_cron.Vore.Uint.{u64_mod}

get_elem?-In : {A : Type 0} (xs : List A) (i : ℕ) (x : A) → get_elem? xs i ≡ some x → In x xs
get_elem?-In [] i x e = cc
get_elem?-In (y ∷ xs) zero x e = inl (cc e)
get_elem?-In (y ∷ xs) (suc i) x e = inr (get_elem?-In xs i x e)

module _ {A : Type 0} ⦃o : Less A⦄ (values : List A) where
  -- A set of values of the table.
  pub record IsSubset (set : List A) : Type 0 where
    pub ascending : Ascending set
    pub members : (x : A) → In x set → In x values

  pub IsSubset-nil : IsSubset []
  IsSubset-nil = record { ascending = tt; members = λ x h. elim h [ ] }

  emplace-IsSubset :
      (i : ℕ) (v : A) (s : List A)
      → get_elem? values i ≡ some v
      → IsSubset s
      → IsSubset (emplace v s)
  emplace-IsSubset i v s e h = record {
    ascending = emplace-Ascending v s h.ascending;
    members = λ x m. elim (In-emplace v x s m) [
      | inl new ↦ rw new (get_elem?-In values i v e)
      | inr old ↦ h.members x old
    ];
  }

  walk-IsSubset :
      (fuel : ℕ) (test : ℕ → Bool) (step i : ℕ) (into : List A) (any : Bool)
      → IsSubset into
      → Holds (λ r. IsSubset r.0) (walk values fuel test step i into any)
  unfolding walk
  walk-IsSubset zero test step i into any h = record { result = tt }
  walk-IsSubset (suc fuel) test step i into any h = elim (Bool-cases (test i)) [
    | inr e ↦ rw (e, walk) (record { result = h })
    | inl e ↦ elim (Option-cases (get_elem? values i)) [
      | inl off ↦ rw (e, off, walk) (record { result = tt })
      | inr (v, f) ↦
          rw (e, f, walk)
            (walk-IsSubset fuel test step ((i + step) % u64_mod) (emplace v into) true
              (emplace-IsSubset i v into f h))
    ]
  ]

  -- The set of a target, whatever the verdict.
  abbrev pub Kept : Verdict × Target A → Type 0
  Kept r = IsSubset r.1.into

  star-Kept : (step : ℕ) (t : Target A) → IsSubset t.into → Holds Kept (star values step t)
  unfolding star
  star-Kept step t h =
      Holds-bind (λ r. IsSubset r.0) _ _ (walk-IsSubset _ _ step 0 t.into false h)
        (λ r k. record { result = k })

  insert_between-Kept :
      (step i j : ℕ) (t : Target A)
      → IsSubset t.into
      → Holds Kept (insert_between values step i j t)
  unfolding insert_between
  insert_between-Kept step i j t h =
      Holds-bind (λ r. IsSubset r.0) _ _ (walk-IsSubset _ _ step i t.into false h)
        (λ r k. record { result = k })

  between-Kept :
      (mapping : Mapping) (base step : ℕ) (start end : Bytes) (t : Target A)
      → IsSubset t.into
      → Holds Kept (between values mapping base step start end t)
  unfolding between
  between-Kept mapping base step start end t h =
      Holds-if (mapping end (mapping start false false).1 true).1 _ _ (record { result = h })
        (insert_between-Kept step _ _ t h)

  insert_random-Kept :
      (draw : Engine) (i j : ℕ) (t : Target A)
      → IsSubset t.into
      → Holds Kept (insert_random draw values i j t)
  unfolding insert_random
  insert_random-Kept draw i j t h =
      Holds-if (ltb (length values - 1) i || ltb j i) _ _ (record { result = h })
        (elim (Option-cases (get_elem? values (draw t.drawn i j))) [
          | inl off ↦ rw off (record { result = tt })
          | inr (v, e) ↦ rw e (record { result = emplace-IsSubset (draw t.drawn i j) v t.into e h })
        ])

  tilde-Kept :
      (draw : Engine) (mapping : Mapping) (base : ℕ) (start end : Bytes) (t : Target A)
      → IsSubset t.into
      → Holds Kept (tilde draw values mapping base start end t)
  unfolding tilde
  tilde-Kept draw mapping base start end t h = insert_random-Kept draw _ _ _ h

  ranged-Kept :
      (draw : Engine) (mapping : Mapping) (base : ℕ) (range : Bytes) (step : ℕ) (t : Target A)
      → IsSubset t.into
      → Holds Kept (ranged draw values mapping base range step t)
  unfolding ranged
  ranged-Kept draw mapping base range step t h =
      Holds-if (equal range (codes "*")) _ _ (star-Kept step t h)
        (elim (Option-cases (cut b'~' range)) [
          | inl none_found ↦ rw none_found (dashed (Option-cases (cut b'-' range)))
          | inr ((start, end), found) ↦ rw found (
              Holds-if (contains b'~' end) _ _ (record { result = h })
                (tilde-Kept draw mapping base start end t h))
        ])
    where
      dashed :
          (cut b'-' range ≡ none) ⊎ ((p : Bytes × Bytes) × (cut b'-' range ≡ some p))
          → Holds Kept (elim (cut b'-' range) as (λ x. Run (Verdict × Target A)) [
            | none ↦ between values mapping base step range range t
            | some (start, end) ↦
                if contains b'-' end
                then done (complain (codes "doubled -"), t)
                else between values mapping base step start end t
          ])
      dashed (inl none_found) = rw none_found (between-Kept mapping base step range range t h)
      dashed (inr ((start, end), found)) = rw found (
          Holds-if (contains b'-' end) _ _ (record { result = h })
            (between-Kept mapping base step start end t h))

  pub parse_period-Kept :
      (draw : Engine) (mapping : Mapping) (base : ℕ) (value : Bytes) (t : Target A)
      → IsSubset t.into
      → Holds Kept (parse_period draw values mapping base value t)
  unfolding parse_period
  parse_period-Kept draw mapping base value t h = elim (Option-cases (cut b'/' value)) [
    | inl whole ↦ rw (whole, parse_period) (ranged-Kept draw mapping base value 1 t h)
    | inr ((range, rest), found) ↦
        rw (found, parse_period)
          (Holds-if (contains b'/' rest) _ _ (record { result = h })
            (Holds-if (int_map rest false false).1 _ _ (record { result = h })
              (ranged-Kept draw mapping base range (int_map rest false false).0 t h)))
  ]
