-- ===== src/Generator/Period/Names.antt =====
-- Names of months and of days where a number could stand, and the upper end of `~`.
use systemd_cron.Base.{
  ℕ, ◌+◌, ◌-◌, ◌^◌, ◌≤◌, ◌<◌, ◌≡◌, inl, inr, refl, ap, ◌∙◌, List, [], ◌∷◌, ◌++◌, Bool, true, false,
  some, arith, ltb, ltb-false, min, get_elem?, get_elem?-lt, ◌==◌, ◌*◌, Bytes, codes, equal,
  contains, Bool-cases, cut-eq-none, take, lower, is_digit, In, cut-append, contains_digits,
  contains-append, equal_iff,
}
use systemd_cron.Base.Decimal.{decimal, all-decimal, decimal-ne-nil}
use systemd_cron.Generator.Field.{
  Mapping, int_map, month_map, month_name, dow_map, dows_set, months_set, count_from,
}
use systemd_cron.Generator.Field.Numbers.{IsNumeric, length-count_from, get_elem?-count_from}
use systemd_cron.Generator.OrderedSet.{Less, number_less, text_less, emplace}
use systemd_cron.Generator.Period.{
  Target, fine, off_range, Engine, walk, rounds, between, insert_between, insert_random, tilde,
  parse_period, start_index, end_index,
}
use systemd_cron.Generator.Period.Dispatch.{parse_period_plain, ranged_single, ranged-tilde}
use systemd_cron.Generator.Period.Walk.{walk-Walked}
use systemd_cron.Generator.Run.{done}

-- An element with no step, no range and no asterisk.
pub record IsSingle (value : Bytes) : Type 0 where
  pub no_slash : contains b'/' value ≡ false
  pub no_tilde : contains b'~' value ≡ false
  pub no_dash : contains b'-' value ≡ false
  pub no_star : equal value (codes "*") ≡ false

parse_period_single :
    (draw : Engine) {A : Type 0} ⦃o : Less A⦄ (values : List A) (mapping : Mapping) (base : ℕ)
    (value : Bytes) (t : Target A)
    → IsSingle value
    → parse_period draw values mapping base value t ≡ between values mapping base 1 value value t
parse_period_single draw values mapping base value t h =
    parse_period_plain draw values mapping base t value (cut-eq-none b'/' value h.no_slash)
    ∙ ranged_single draw values mapping base t value 1 h.no_star (cut-eq-none b'~' value h.no_tilde)
        (cut-eq-none b'-' value h.no_dash)

-- `month_map` leaves the error of `int_map` set, also where it finds the name of a month.
month_map_keeps_err :
    (month : Bytes) (err to : Bool)
    → (int_map month err to).1 ≡ true
    → (month_map month err to).1 ≡ true
unfolding month_map month_name
month_map_keeps_err month err to h = ground arith

int_map_keeps_err : (s : Bytes) (to : Bool) → (int_map s true to).1 ≡ true
unfolding int_map
int_map_keeps_err s to = refl

-- So no element that is not a number is ever accepted in the month field: a lone name, though the
-- table has it, is refused as out of range, and nothing is added.
pub parse_period_month_name :
    (draw : Engine) (value : Bytes) (t : Target ℕ)
    → IsSingle value
    → (int_map value false false).1 ≡ true
    → parse_period draw months_set month_map 1 value t ≡ done (off_range, t)
unfolding between
parse_period_month_name draw value t single not_number =
    let start = month_map_keeps_err value false false not_number in
    let end = month_map_keeps_err value true true (int_map_keeps_err value true) in
    parse_period_single draw months_set month_map 1 value t single ∙ rw (start, between) (rw end)

dow_map_sunday :
    (value : Bytes)
    → lower (take 3 value) ≡ codes "sun"
    → (dow_map value false false ≡ (0, false)) × (dow_map value false true ≡ (7, false))
unfolding dow_map equal
dow_map_sunday value name = (rw (name, dow_map) refl, rw (name, dow_map) refl)

-- The three letters of Sunday, alone, stand for every day of the week: the name is the first index
-- where a range begins and the last where it ends.
pub parse_period_sunday :
    (draw : Engine) (value : Bytes) (t : Target Bytes)
    → IsSingle value
    → lower (take 3 value) ≡ codes "sun"
    → (out : List Bytes) × (parse_period draw dows_set dow_map 0 value t
        ≡ done (fine, record t { into = out }))
      × ((i : ℕ) (day : Bytes) → get_elem? dows_set i ≡ some day → In day out)
unfolding between
parse_period_sunday draw value t single name =
    let (first, last) = dow_map_sunday value name in
    let (out, run, w) =
      walk-Walked dows_set 1 8 (λ k. ltb k 8) (λ m h. refl) (omega arith) (omega arith)
        (omega arith) (rounds dows_set) 0 t.into false (omega arith) (omega arith) (omega arith) in
    (
      out,
      parse_period_single draw dows_set dow_map 0 value t single
          ∙ rw (first, between) (rw last (whole_week t out run)),
      λ i day e. w.visited day i (in_week i day e, ap (get_elem? dows_set) (omega arith) ∙ e),
    )
  where
    whole_week :
        (t : Target Bytes) (out : List Bytes)
        → walk dows_set (rounds dows_set) (λ k. ltb k 8) 1 0 t.into false ≡ done (out, true)
        → insert_between dows_set 1 0 8 t ≡ done (fine, record t { into = out })
    whole_week t out run = unfold insert_between in rw (run, insert_between)

    in_week : (i : ℕ) (day : Bytes) → get_elem? dows_set i ≡ some day → 0 + i * 1 < 8
    in_week i day e = omega (arith, get_elem?-lt dows_set i day e)

abbrev pub tilde_text : ℕ → ℕ → Bytes
tilde_text a b = decimal a ++ b'~' ∷ decimal b

lacks_tilde :
    (c a b : ℕ) → is_digit c ≡ false → (c == b'~') ≡ false → contains c (tilde_text a b) ≡ false
unfolding contains
lacks_tilde c a b h d = ground (
  arith,
  contains-append c (decimal a) (b'~' ∷ decimal b),
  contains_digits c (decimal a) h (all-decimal a),
  contains_digits c (decimal b) h (all-decimal b),
)

tilde_ne_star : (a b : ℕ) → equal (tilde_text a b) (codes "*") ≡ false
unfolding contains
tilde_ne_star a b = elim (Bool-cases (equal (tilde_text a b) (codes "*"))) [
  | inl e ↦
      let same = (equal_iff (tilde_text a b) (codes "*")).0 e in
      let found = contains-append b'~' (decimal a) (b'~' ∷ decimal b) in
      let all = ap (contains b'~') same in ground arith
  | inr e ↦ e
]

decimal_given : (k : ℕ) → equal (decimal k) [] ≡ false
decimal_given k = elim (Bool-cases (equal (decimal k) [])) [
  | inl e ↦ absurd (decimal-ne-nil k ((equal_iff (decimal k) []).0 e))
  | inr e ↦ e
]

tilde_runs :
    (draw : Engine) (mapping : Mapping)
    → IsNumeric mapping
    → (base n a b : ℕ) → base ≤ 1
    → base ≤ a
    → a < 2 ^ 61
    → b + 1 < base + n
    → n < 2 ^ 61
    → (t : Target ℕ)
    → tilde draw (count_from base n) mapping base (decimal a) (decimal b) t
      ≡ insert_random draw
          (count_from base n)
          (a - base)
          (b + 1 - base)
          (record t { raw_for_schedule = true })
unfolding tilde
tilde_runs draw mapping numeric base n a b low ha small hb hn t =
    let start : start_index base a ≡ a - base = ground arith in
    let end : min (end_index base b) (n - 1) ≡ b + 1 - base = ground arith in
    rw
      (
        decimal_given a,
        decimal_given b,
        numeric a false (omega arith),
        numeric b true (omega arith),
        length-count_from base n,
        start,
        end,
      )
      refl

insert_random_runs :
    (draw : Engine) (base n i_start i_end i : ℕ)
    → i_start ≤ i_end
    → i_end < n
    → (t : Target ℕ) → draw t.drawn i_start i_end ≡ i
    → i < n
    → insert_random draw (count_from base n) i_start i_end t
      ≡ done (fine, record t { into = emplace (base + i) t.into; drawn = t.drawn + 1 })
unfolding insert_random
insert_random_runs draw base n i_start i_end i lo hi t drawn fits =
    let in_field : ltb (n - 1) i_start ≡ false = ltb-false (n - 1) i_start (omega arith) in
    rw
      (
        length-count_from base n,
        in_field,
        ltb-false i_end i_start lo,
        drawn,
        get_elem?-count_from base n i fits,
      )
      refl

-- On a numeric field of values from 0 or 1 on, where a is not below the first, a is b + 1 at most and
-- b + 1 is in the field, `a~b` asks the engine for an index from that of a to that of b + 1, and adds
-- the value at the index drawn, if that is in the field. The upper end, made exclusive for the loop
-- of a range, is inclusive here: with an engine that gives the greatest index of its interval, b + 1
-- comes out.
pub parse_period_tilde :
    (draw : Engine) (mapping : Mapping)
    → IsNumeric mapping
    → (base n a b : ℕ) → base ≤ 1
    → base ≤ a
    → a ≤ b + 1
    → b + 1 < base + n
    → n < 2 ^ 61
    → (t : Target ℕ) (i : ℕ) → draw t.drawn (a - base) (b + 1 - base) ≡ i
    → i < n
    → parse_period draw (count_from base n) mapping base (tilde_text a b) t
      ≡ done (
        fine,
        record { into = emplace (base + i) t.into; raw_for_schedule = true; drawn = t.drawn + 1 },
      )
parse_period_tilde draw mapping numeric base n a b low ha hab hb small t i drawn hi =
    let values = count_from base n in
    let text = tilde_text a b in
    let no_tilde = λ (k : ℕ). contains_digits b'~' (decimal k) refl (all-decimal k) in
    parse_period_plain draw values mapping base t text
      (cut-eq-none b'/' text (lacks_tilde b'/' a b refl refl))
    ∙ ranged-tilde draw values mapping base t text (decimal a) (decimal b) 1 (tilde_ne_star a b)
        (cut-append b'~' (decimal a) (decimal b) (no_tilde a)) (no_tilde b)
    ∙ tilde_runs draw mapping numeric base n a b low ha (omega arith) (omega arith) (omega arith) t
    ∙ insert_random_runs draw base n (a - base) (b + 1 - base) i (omega arith) (omega arith)
        (record t { raw_for_schedule = true }) drawn hi
