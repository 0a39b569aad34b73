-- ===== src/Generator/Period/Range.antt =====
-- `a-b/s` on a numeric field: the elements are a, a + s, a + 2 s, … up to b.
use systemd_cron.Base.{
  ℕ, ◌+◌, ◌-◌, ◌*◌, ◌^◌, ◌≤◌, ◌<◌, ◌≡◌, ◌⊎◌, inl, inr, refl, ap, ◌∙◌, List, ◌∷◌, ◌++◌, true, false,
  ◌||◌, some, arith, ltb, lt→ltb, min, length, In, Bytes, codes, contains, cut-append,
  contains-append, contains_digits, is_digit, equal, equal_iff, Bool-cases, ◌==◌, cut-eq-none,
}
use systemd_cron.Base.Decimal.{decimal, all-decimal}
use systemd_cron.Generator.Field.{Mapping, count_from}
use systemd_cron.Generator.Field.Numbers.{
  IsNumeric, int_map-IsNumeric, length-count_from, get_elem?-count_from,
}
use systemd_cron.Generator.OrderedSet.{number_less}
use systemd_cron.Generator.Period.{
  Target, fine, Engine, walk, rounds, between, insert_between, parse_period, start_index, end_index,
}
use systemd_cron.Generator.Period.Dispatch.{parse_period_stepped, ranged_dashed}
use systemd_cron.Generator.Period.Walk.{Walked, walk-Walked}
use systemd_cron.Generator.Run.{done}

-- The elements of `a-b/s` in a field that starts at `base` and has `n` values.
pub record IsRange (base n a b s : ℕ) (into out : List ℕ) : Type 0 where
  pub sound :
      (x : ℕ) → In x out → In x into ⊎ ((k : ℕ) × (x ≡ a + k * s) × (x ≤ b) × (x < base + n))
  pub keeps : (x : ℕ) → In x into → In x out
  pub listed : (k : ℕ) → a + k * s ≤ b → a + k * s < base + n → In (a + k * s) out

module _ (base n a b s : ℕ) (low : base ≤ 1) (into out : List ℕ) where
  abbrev i_start : ℕ
  i_start = a - base

  abbrev i_end : ℕ
  i_end = min (b + 1 - base) n

  Walked-IsRange :
      base ≤ a → Walked (count_from base n) s i_start i_end into out → IsRange base n a b s into out
  Walked-IsRange ha w = record { sound = sound; keeps = w.keeps; listed = listed }
    where
      sound :
          (x : ℕ) → In x out → In x into ⊎ ((k : ℕ) × (x ≡ a + k * s) × (x ≤ b) × (x < base + n))
      sound x m = elim (w.sound x m) [
        | inl old ↦ inl old
        | inr (k, (below, e)) ↦
            let at = get_elem?-count_from base n (i_start + k * s) (omega arith) in
            let value : x ≡ base + (i_start + k * s) = cc (e, at) in
            inr (k, omega arith, omega arith, omega arith)
      ]

      listed : (k : ℕ) → a + k * s ≤ b → a + k * s < base + n → In (a + k * s) out
      listed k h h' =
          let at = get_elem?-count_from base n (i_start + k * s) (omega arith) in
          let same : base + (i_start + k * s) ≡ a + k * s = omega arith in
          w.visited (a + k * s) k (omega arith, at ∙ ap some same)

-- The text of a range with a step.
abbrev pub range_text : ℕ → ℕ → Bytes
range_text a b = decimal a ++ b'-' ∷ decimal b

abbrev pub stepped_text : ℕ → ℕ → ℕ → Bytes
stepped_text a b s = range_text a b ++ b'/' ∷ decimal s

lacks_range :
    (c a b : ℕ) → is_digit c ≡ false → (c == b'-') ≡ false → contains c (range_text a b) ≡ false
unfolding contains
lacks_range c a b h d = ground (
  arith,
  contains-append c (decimal a) (b'-' ∷ decimal b),
  contains_digits c (decimal a) h (all-decimal a),
  contains_digits c (decimal b) h (all-decimal b),
)

module _ (mapping : Mapping) (numeric : IsNumeric mapping) (base n a b s : ℕ) where
  between_done :
      (t : Target ℕ) (i j : ℕ) (out : List ℕ)
      → a < 2 ^ 61
      → b < 2 ^ 61
      → start_index base a ≡ i
      → min (end_index base b) (length (count_from base n)) ≡ j
      → i < j
      → walk (count_from base n) (rounds (count_from base n)) (λ k. ltb k j) s i t.into false
        ≡ done (out, false || ltb i j)
      → between (count_from base n) mapping base s (decimal a) (decimal b) t
        ≡ done (fine, record t { into = out })
  unfolding between insert_between
  between_done t i j out ha hb start end some_round run =
      rw (numeric a false (omega arith), numeric b true (omega arith), start, end)
        (rw (run, insert_between) (rw (lt→ltb i j some_round)))

  between_runs :
      base ≤ 1
      → base ≤ a
      → a ≤ b
      → a < base + n
      → b < 2 ^ 61
      → n < 2 ^ 61
      → 0 < s
      → s < 2 ^ 61
      → (t : Target ℕ)
      → (out : List ℕ) × (between (count_from base n) mapping base s (decimal a) (decimal b) t
          ≡ done (fine, record t { into = out }))
        × IsRange base n a b s t.into out
  between_runs low ha hab hn hb small pos hs t =
      let i = i_start base n a b s low t.into t.into in
      let j = i_end base n a b s low t.into t.into in
      let len : length (count_from base n) ≡ n = length-count_from base n in
      let start : start_index base a ≡ i = ground arith in
      let end : min (end_index base b) (length (count_from base n)) ≡ j = rw len (ground arith) in
      let (out, run, w) =
        walk-Walked (count_from base n) s j (λ k. ltb k j) (λ m h. refl) pos (omega arith)
          (omega arith) (rounds (count_from base n)) i t.into false (omega arith) (omega arith)
          (omega arith) in
      (
        out,
        between_done t i j out (omega arith) hb start end (omega arith) run,
        Walked-IsRange base n a b s low t.into out ha w,
      )

range_ne_star : (a b : ℕ) → equal (range_text a b) (codes "*") ≡ false
unfolding contains
range_ne_star a b = elim (Bool-cases (equal (range_text a b) (codes "*"))) [
  | inl e ↦
      let same = (equal_iff (range_text a b) (codes "*")).0 e in
      let dash = contains-append b'-' (decimal a) (b'-' ∷ decimal b) in
      let all = ap (contains b'-') same in ground arith
  | inr e ↦ e
]

-- On a numeric field of fewer than 2^61 values from 0 or 1 on, where a is in the field and not above
-- b, b and s are below 2^61, and s is not 0, `a-b/s` adds a, a + s, a + 2 s and so on, up to b and to
-- the end of the field, and nothing else.
pub parse_period-IsRange :
    (draw : Engine) (mapping : Mapping)
    → IsNumeric mapping
    → (base n a b s : ℕ) → base ≤ 1
    → base ≤ a
    → a ≤ b
    → a < base + n
    → b < 2 ^ 61
    → n < 2 ^ 61
    → 0 < s
    → s < 2 ^ 61
    → (t : Target ℕ)
    → (out : List ℕ) × (parse_period draw (count_from base n) mapping base (stepped_text a b s) t
        ≡ done (fine, record t { into = out }))
      × IsRange base n a b s t.into out
parse_period-IsRange draw mapping numeric base n a b s low ha hab hn hb small pos hs t =
    let (out, run, spec) =
      between_runs mapping numeric base n a b s low ha hab hn hb small pos hs t in
    let values = count_from base n in
    let range = range_text a b in
    let no_slash = lacks_range b'/' a b refl refl in
    let no_tilde = lacks_range b'~' a b refl refl in
    let no_dash = λ (k : ℕ). contains_digits b'-' (decimal k) refl (all-decimal k) in
    (
      out,
      parse_period_stepped draw values mapping base t (stepped_text a b s) range (decimal s) s
            (cut-append b'/' range (decimal s) no_slash)
            (contains_digits b'/' (decimal s) refl (all-decimal s))
            (int_map-IsNumeric s false (omega arith))
          ∙ ranged_dashed draw values mapping base t range (decimal a) (decimal b) s
              (range_ne_star a b) (cut-eq-none b'~' range no_tilde)
              (cut-append b'-' (decimal a) (decimal b) (no_dash a)) (no_dash b)
          ∙ run,
      spec,
    )
