-- ===== src/Generator/Period.antt =====
-- `parse_period`: one element of a comma-separated time field, such as `*/5`, `1-10/2`, `mon` or
-- `0~30`. The loops run on fuel: a round for every value of the field, and one to stop.
pub mod Dispatch
pub mod Walk
mod Tests
pub mod Names
pub mod Safety
pub mod Range
pub mod Members
use systemd_cron.Base.{
  ℕ, zero, suc, ◌+◌, ◌-◌, ◌%◌, ◌^◌, List, [], Bool, true, false, ◌||◌, none, some, min, ltb, leb,
  ◌==◌, if◌then◌else◌, Bytes, codes, equal, cut, contains, length, get_elem?,
}
use systemd_cron.Generator.Field.{Mapping, int_map}
use systemd_cron.Generator.OrderedSet.{Less, emplace}
use systemd_cron.Generator.Run.{Run, done, out_of_bounds, spinning, ◌>>=◌}
use systemd_cron.Vore.Uint.{u64_mod}

-- `std::optional<const char *>`: no error, an error with its text, or `nullptr`, after which the
-- caller prints the range of the field.
pub data Verdict : Type 0 where
  fine : Verdict
  complain : Bytes → Verdict
  off_range : Verdict

-- What `parse_period` writes through its references, and the count of draws from `rand`.
pub record Target (A : Type 0) : Type 0 where
  pub into : List A
  pub raw_for_schedule : Bool
  pub drawn : ℕ

-- `mapping(…) - 1 + !base` and `mapping(…) + !base`, in `std::size_t`.
abbrev pub not_base : ℕ → ℕ
not_base base = if base == 0 then 1 else 0

abbrev pub start_index : ℕ → ℕ → ℕ
start_index base n = (n + (u64_mod - 1) + not_base base) % u64_mod

abbrev pub end_index : ℕ → ℕ → ℕ
end_index base n = (n + not_base base) % u64_mod

module _ {A : Type 0} ⦃o : Less A⦄ (values : List A) where
  -- `for(i = …; test i; i += step) into.emplace(values[i]), any = true;`
  unfoldable pub walk : ℕ → (ℕ → Bool) → ℕ → ℕ → List A → Bool → Run (List A × Bool)
  walk zero test step i into any = spinning
  walk (suc fuel) test step i into any = elim (test i) [
    | false ↦ done (into, any)
    | true ↦ elim (get_elem? values i) [
      | none ↦ out_of_bounds
      | some v ↦ walk fuel test step ((i + step) % u64_mod) (emplace v into) true
    ]
  ]

  abbrev pub rounds : ℕ
  rounds = suc (length values)

  -- `i < std::distance(…)` with a signed `i`.
  abbrev pub signed_below : ℕ → ℕ → Bool
  signed_below n i = leb (2 ^ 63) i || ltb i n

  unfoldable pub star : ℕ → Target A → Run (Verdict × Target A)
  star step t = do
    r ← walk rounds (signed_below (length values)) step 0 t.into false
    done (fine, record t { into = r.0 })

  -- The loop of a range, between two indices.
  unfoldable pub insert_between : ℕ → ℕ → ℕ → Target A → Run (Verdict × Target A)
  insert_between step i_start i_end t = do
    r ← walk rounds (λ i. ltb i i_end) step i_start t.into false
    done (if r.1 then fine else off_range, record t { into = r.0 })

  unfoldable pub between : Mapping → ℕ → ℕ → Bytes → Bytes → Target A → Run (Verdict × Target A)
  between mapping base step start end t =
      let (s, err) = mapping start false false in
      let (e, err') = mapping end err true in
      let i_start = start_index base s in
      let i_end = min (end_index base e) (length values) in
      if err' then done (off_range, t) else insert_between step i_start i_end t

-- The engine of `~`: its n-th draw from the closed interval between two indices.
abbrev pub Engine : Type 0
Engine = ℕ → ℕ → ℕ → ℕ

module _ (draw : Engine) {A : Type 0} ⦃o : Less A⦄ (values : List A) where
  -- A random value between two indices, both included.
  unfoldable pub insert_random : ℕ → ℕ → Target A → Run (Verdict × Target A)
  insert_random i_start i_end t =
      if ltb (length values - 1) i_start || ltb i_end i_start
      then done (off_range, t)
      else elim (get_elem? values (draw t.drawn i_start i_end)) [
        | none ↦ out_of_bounds
        | some v ↦ done (fine, record t { into = emplace v t.into; drawn = t.drawn + 1 })
      ]

  unfoldable pub tilde : Mapping → ℕ → Bytes → Bytes → Target A → Run (Verdict × Target A)
  tilde mapping base start end t =
      let max = length values - 1 in
      let (s, err) =
        if equal start []
        then (base, false)
        else (start_index base (mapping start false false).0, (mapping start false false).1) in
      let i_end = if equal end [] then max else min (end_index base (mapping end err true).0) max in
      insert_random s i_end (record t { raw_for_schedule = true })

  -- What follows once the step is known.
  unfoldable pub ranged : Mapping → ℕ → Bytes → ℕ → Target A → Run (Verdict × Target A)
  ranged mapping base range step t =
      let dashed : Run (Verdict × Target A) = elim (cut b'-' range) [
        | none ↦ between values mapping base step range range t
        | some (start, end) ↦
            if contains b'-' end
            then done (complain (codes "doubled -"), t)
            else between values mapping base step start end t
      ] in
      if equal range (codes "*") then star values step t else elim (cut b'~' range) [
        | none ↦ dashed
        | some (start, end) ↦
            if contains b'~' end
            then done (complain (codes "doubled ~"), t)
            else tilde mapping base start end t
      ]

  unfoldable pub parse_period : Mapping → ℕ → Bytes → Target A → Run (Verdict × Target A)
  parse_period mapping base value t = elim (cut b'/' value) [
    | none ↦ ranged mapping base value 1 t
    | some (range, rest) ↦
        if contains b'/' rest
        then done (complain (codes "doubled /"), t)
        else if (int_map rest false false).1
        then done (complain (codes "/-skip not an integer"), t)
        else ranged mapping base range (int_map rest false false).0 t
  ]
