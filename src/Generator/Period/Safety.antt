-- ===== src/Generator/Period/Safety.antt =====
-- `parse_period` never reads outside its table and never loops for ever, as long as the step is
-- positive and no wrap-around of the index is possible; a zero step does loop for ever.
use systemd_cron.Base.{
  ℕ, ◌-◌, ◌^◌, ◌≤◌, ◌<◌, ◌≡◌, ◌⊎◌, inl, inr, refl, ◌∙◌, List, [], Bool, true, false, none, some,
  arith, ltb, lt→ltb, ltb-false, min, length, get_elem?-some, Bytes, if◌then◌else◌, codes, equal,
  cut, contains, Bool-cases, Option-cases, cut-append,
}
use native.Mathlib.Decide.{dec_lt}
use systemd_cron.Base.Decimal.{decimal}
use systemd_cron.Generator.Field.Numbers.{int_map-IsNumeric}
use systemd_cron.Generator.Field.{Mapping, int_map}
use systemd_cron.Generator.OrderedSet.{Less}
use systemd_cron.Generator.Period.{
  Target, Verdict, complain, Engine, walk, rounds, signed_below, star, between, tilde, ranged,
  parse_period, start_index, end_index, insert_between, insert_random,
}
use systemd_cron.Generator.Period.Dispatch.{parse_period_stepped, ranged-star}
use systemd_cron.Generator.Period.Walk.{walk-Walked, walk_stop, walk_zero_step}
use systemd_cron.Generator.Run.{Run, done, spinning, is_done, is_done-bind}

-- `std::uniform_int_distribution{lo, hi}` draws from the closed interval.
abbrev pub IsUniform : Engine → Type 0
IsUniform draw = (n lo hi : ℕ) → lo ≤ hi → (lo ≤ draw n lo hi) × (draw n lo hi ≤ hi)

-- The step that a text asks for: what follows its first slash, or 1.
unfoldable pub step_of : Bytes → ℕ
step_of value = elim (cut b'/' value) [
  | none ↦ 1
  | some (range, rest) ↦ (int_map rest false false).0
]

abbrev Ends {ℓ} : {B : Type ℓ} → Run B → Type 0
Ends m = is_done m ≡ true

Ends-if {ℓ} : {B : Type ℓ} (b : Bool) (m n : Run B) → Ends m → Ends n → Ends (if b then m else n)
Ends-if true m n h k = h
Ends-if false m n h k = k

module _ {A : Type 0} ⦃o : Less A⦄ (values : List A) (small : length values < 2 ^ 61) where
  -- A walk whose test is false from the 2 ^ 63rd index on, if it starts there.
  walk-Ends :
      (test : ℕ → Bool) (j step i : ℕ) (into : List A)
      → ((m : ℕ) → m < 2 ^ 63 → test m ≡ ltb m j)
      → 0 < step
      → step < 2 ^ 61
      → j ≤ length values
      → (2 ^ 63 ≤ i → test i ≡ false)
      → Ends (walk values (rounds values) test step i into false)
  walk-Ends test j step i into agrees pos hs hj late = elim (dec_lt i (2 ^ 63)) [
    | yes early ↦
        let (out, run, _) =
          walk-Walked values step j test agrees pos (omega arith) hj (rounds values) i into false
            early (omega arith) (omega arith) in
        rw run refl
    | no far ↦
        rw (walk_stop values step j test (length values) i into false (late (omega arith))) refl
  ]

  star-Ends : (step : ℕ) (t : Target A) → 0 < step → step < 2 ^ 61 → Ends (star values step t)
  unfolding star
  star-Ends step t pos hs =
      is_done-bind _ _
        (walk-Ends (signed_below {A = A} values (length values)) (length values) step 0 t.into
          (λ m h. ground arith) pos hs (omega arith) (λ far. absurd (omega arith)))
        (λ r. refl)

  insert_between-Ends :
      (step i j : ℕ) (t : Target A)
      → 0 < step
      → step < 2 ^ 61
      → j ≤ length values
      → Ends (insert_between values step i j t)
  unfolding insert_between
  insert_between-Ends step i j t pos hs hj =
      is_done-bind _ _
        (walk-Ends (λ k. ltb k j) j step i t.into (λ m h. refl) pos hs hj
          (λ far. ltb-false i j (omega arith)))
        (λ r. refl)

  between-Ends :
      (mapping : Mapping) (base step : ℕ) (start end : Bytes) (t : Target A)
      → 0 < step
      → step < 2 ^ 61
      → Ends (between values mapping base step start end t)
  unfolding between
  between-Ends mapping base step start end t pos hs =
      let s = mapping start false false in
      let e = mapping end s.1 true in
      let j = min (end_index base e.0) (length values) in
      elim (Bool-cases e.1) [
        | inl bad ↦ rw bad refl
        | inr good ↦
            rw good (insert_between-Ends step (start_index base s.0) j t pos hs (omega arith))
      ]

  insert_random-Ends :
      (draw : Engine)
      → IsUniform draw
      → 0 < length values
      → (i j : ℕ) (t : Target A) → j ≤ length values - 1
      → Ends (insert_random draw values i j t)
  unfolding insert_random
  insert_random-Ends draw uniform some_value i j t hj = elim (dec_lt j i) [
    | yes off ↦ rw (lt→ltb j i off) (ground arith)
    | no on ↦
        let (lo, hi) = uniform t.drawn i j (omega arith) in
        let (v, e) = get_elem?-some values (draw t.drawn i j) (omega arith) in
        rw (ltb-false (length values - 1) i (omega arith), ltb-false j i (omega arith), e) refl
  ]

  tilde-Ends :
      (draw : Engine)
      → IsUniform draw
      → 0 < length values
      → (mapping : Mapping) (base : ℕ) (start end : Bytes) (t : Target A)
      → Ends (tilde draw values mapping base start end t)
  unfolding tilde
  tilde-Ends draw uniform some_value mapping base start end t = elim (Bool-cases (equal end [])) [
    | inl open_end ↦ rw open_end (insert_random-Ends draw uniform some_value _ _ _ (omega arith))
    | inr closed ↦ rw closed (insert_random-Ends draw uniform some_value _ _ _ (omega arith))
  ]

  ranged-Ends :
      (draw : Engine)
      → IsUniform draw
      → 0 < length values
      → (mapping : Mapping) (base : ℕ) (range : Bytes) (step : ℕ) (t : Target A) → 0 < step
      → step < 2 ^ 61
      → Ends (ranged draw values mapping base range step t)
  unfolding ranged
  ranged-Ends draw uniform some_value mapping base range step t pos hs =
      Ends-if (equal range (codes "*")) _ _ (star-Ends step t pos hs)
        (elim (Option-cases (cut b'~' range)) [
          | inl none_found ↦ rw none_found (dashed (Option-cases (cut b'-' range)))
          | inr ((start, end), found) ↦ rw found (
              Ends-if (contains b'~' end) _ _ refl
                (tilde-Ends draw uniform some_value mapping base start end t))
        ])
    where
      dashed :
          (cut b'-' range ≡ none) ⊎ ((p : Bytes × Bytes) × (cut b'-' range ≡ some p))
          → Ends (elim (cut b'-' range) as (λ x. Run (Verdict × Target A)) [
            | none ↦ between values mapping base step range range t
            | some (start, end) ↦
                if contains b'-' end
                then done (complain (codes "doubled -"), t)
                else between values mapping base step start end t
          ])
      dashed (inl none_found) = rw none_found (between-Ends mapping base step range range t pos hs)
      dashed (inr ((start, end), found)) =
          rw found (
            Ends-if (contains b'-' end) _ _ refl
              (between-Ends mapping base step start end t pos hs))

-- With a uniform engine, a table of fewer than 2 ^ 61 values that has one, and a step that is
-- positive and below 2 ^ 61, `parse_period` comes to an
-- end on every text, with every read inside the table.
pub parse_period-Ends :
    (draw : Engine)
    → IsUniform draw
    → {A : Type 0} ⦃o : Less A⦄ (values : List A) → 0 < length values
    → length values < 2 ^ 61
    → (mapping : Mapping) (base : ℕ) (value : Bytes) (t : Target A) → 0 < step_of value
    → step_of value < 2 ^ 61
    → is_done (parse_period draw values mapping base value t) ≡ true
unfolding parse_period step_of
parse_period-Ends draw uniform values some_value small mapping base value t pos hs =
    elim (Option-cases (cut b'/' value)) [
      | inl whole ↦
          rw (whole, parse_period)
            (ranged-Ends values small draw uniform some_value mapping base value 1 t (omega arith)
              (omega arith))
      | inr ((range, rest), found) ↦
          rw (found, parse_period)
            (Ends-if (contains b'/' rest) _ _ refl (
              Ends-if (int_map rest false false).1 _ _ refl (
                ranged-Ends values small draw uniform some_value mapping base range
                  (int_map rest false false).0 t (rw (found, step_of) at pos)
                  (rw (found, step_of) at hs))))
    ]

-- `*/0` loops for ever, and so does every walk with a zero step, whatever fuel it is granted.
pub parse_period_zero_step :
    (draw : Engine) {A : Type 0} ⦃o : Less A⦄ (values : List A)
    → 0 < length values
    → (mapping : Mapping) (base : ℕ) (t : Target A)
    → (parse_period draw values mapping base (codes "*/0") t ≡ spinning)
      × ((fuel : ℕ)
          → walk values fuel (signed_below values (length values)) 0 0 t.into false ≡ spinning)
unfolding star
parse_period_zero_step draw values some_value mapping base t =
    let spins =
      walk_zero_step values 0 (length values) (signed_below values (length values)) 0 (ground arith)
        some_value (omega arith) refl in
    (
      parse_period_stepped draw values mapping base t (codes "*/0") (codes "*") (codes "0") 0
            (cut-append b'/' (codes "*") (codes "0") (unfold contains in refl))
            (unfold contains in refl) (unfold decimal in int_map-IsNumeric 0 false (omega arith))
          ∙ ranged-star draw values mapping base t 0
          ∙ rw (spins (rounds values) t.into false, star) refl,
      λ fuel. spins fuel t.into false,
    )
