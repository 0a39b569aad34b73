-- ===== src/Generator/Period/Walk.antt =====
-- The loops of `parse_period`: what they insert, that a positive step ends them, and that a zero
-- step never does.
use systemd_cron.Base.{
  ℕ, zero, suc, ◌+◌, ◌*◌, ◌%◌, ◌^◌, ◌≤◌, ◌<◌, ◌≡◌, ◌⊎◌, inl, inr, refl, sym, ap, ◌∙◌, List, Bool,
  true, false, ◌||◌, some, arith, ltb, lt→ltb, ltb-false, length, get_elem?, get_elem?-some, In,
}
use native.Mathlib.Decide.{dec_lt}
use systemd_cron.Generator.OrderedSet.{Less, emplace, In-emplace, emplace_self, emplace_keeps}
use systemd_cron.Generator.Period.{walk}
use systemd_cron.Generator.Run.{done, spinning}
use systemd_cron.Vore.Uint.{u64_mod}

-- The k-th index of a walk from `i` is below `j`, and the value there is `x`.
abbrev pub Visits : {A : Type 0} → List A → ℕ → ℕ → ℕ → A → ℕ → Type 0
Visits values step i j x k = (i + k * step < j) × (get_elem? values (i + k * step) ≡ some x)

-- The set after a walk: the old members, and the values at the indices that were visited.
pub record Walked {A : Type 0} (values : List A) (step i j : ℕ) (into out : List A) : Type 0 where
  pub sound : (x : A) → In x out → In x into ⊎ ((k : ℕ) × Visits values step i j x k)
  pub keeps : (x : A) → In x into → In x out
  pub visited : (x : A) (k : ℕ) → Visits values step i j x k → In x out

module _ {A : Type 0} ⦃o : Less A⦄ (values : List A) (step j : ℕ) where
  Walked-stop : (i : ℕ) (into : List A) → j ≤ i → Walked values step i j into into
  Walked-stop i into h = record {
    sound = λ x m. inl m;
    keeps = λ x m. m;
    visited = λ x k v. absurd (grind arith);
  }

  Visits-suc :
      (i : ℕ) (x : A) (k : ℕ)
      → Visits values step (i + step) j x k
      → Visits values step i j x (suc k)
  Visits-suc i x k (below, e) =
      let same : i + suc k * step ≡ i + step + k * step = omega arith in
      (omega arith, ap (get_elem? values) same ∙ e)

  Visits-pred :
      (i : ℕ) (x : A) (k : ℕ)
      → Visits values step i j x (suc k)
      → Visits values step (i + step) j x k
  Visits-pred i x k (below, e) =
      let same : i + step + k * step ≡ i + suc k * step = omega arith in
      (omega arith, ap (get_elem? values) same ∙ e)

  Visits-zero : (i : ℕ) (x : A) → get_elem? values (i + 0 * step) ≡ get_elem? values i
  Visits-zero i x = ap (get_elem? values) (omega arith)

  Walked-next :
      (i : ℕ) (into out : List A) (v : A)
      → i < j
      → get_elem? values i ≡ some v
      → Walked values step (i + step) j (emplace v into) out
      → Walked values step i j into out
  Walked-next i into out v h e w = record {
    sound = sound;
    keeps = λ x m. w.keeps x (emplace_keeps v x into m);
    visited = visited;
  }
    where
      sound : (x : A) → In x out → In x into ⊎ ((k : ℕ) × Visits values step i j x k)
      sound x m = elim (w.sound x m) [
        | inl old ↦ elim (In-emplace v x into old) [
          | inl new ↦ inr (0, (omega arith, Visits-zero i x ∙ e ∙ ap some (sym new)))
          | inr older ↦ inl older
        ]
        | inr (k, vis) ↦ inr (suc k, Visits-suc i x k vis)
      ]

      visited : (x : A) (k : ℕ) → Visits values step i j x k → In x out
      visited x zero (below, f) =
          let same : x ≡ v = cc (sym (Visits-zero i x) ∙ f, e) in
          w.keeps x (rw same (emplace_self v into))
      visited x (suc k) vis = w.visited x k (Visits-pred i x k vis)

  pub walk_stop :
      (test : ℕ → Bool) (fuel i : ℕ) (into : List A) (any : Bool)
      → test i ≡ false
      → walk values (suc fuel) test step i into any ≡ done (into, any)
  unfolding walk
  walk_stop test fuel i into any e = rw (e, walk)

  walk_step :
      (test : ℕ → Bool) (fuel i : ℕ) (into : List A) (any : Bool) (v : A)
      → test i ≡ true
      → get_elem? values i ≡ some v
      → i + step < u64_mod
      → walk values (suc fuel) test step i into any
        ≡ walk values fuel test step (i + step) (emplace v into) true
  unfolding walk
  walk_step test fuel i into any v e f h =
      let same : (i + step) % u64_mod ≡ i + step = omega arith in rw (e, f, walk) (rw same)

  -- A loop whose test is `i < j` as far as it goes, with a positive step and enough rounds, ends
  -- within the array, and the set is as described.
  pub walk-Walked :
      (test : ℕ → Bool)
      → ((m : ℕ) → m < 2 ^ 63 → test m ≡ ltb m j)
      → 0 < step
      → j + step ≤ 2 ^ 63
      → j ≤ length values
      → (fuel i : ℕ) (into : List A) (any : Bool) → i < 2 ^ 63
      → 0 < fuel
      → j < i + fuel
      → (out : List A) × (walk values fuel test step i into any ≡ done (out, any || ltb i j))
        × Walked values step i j into out
  walk-Walked test agrees pos small fits zero i into any hi hf hj = absurd (omega arith)
  walk-Walked test agrees pos small fits (suc fuel) i into any hi hf hj = elim (dec_lt i j) [
    | no stop ↦
        let off : ltb i j ≡ false = ltb-false i j (omega arith) in
        let ends = walk_stop test fuel i into any (agrees i hi ∙ off) in
        (into, rw off (rw (ends) (ground arith)), Walked-stop i into (omega arith))
    | yes go ↦
        let on : ltb i j ≡ true = lt→ltb i j go in
        let (v, e) = get_elem?-some values i (omega arith) in
        let (out, run, w) =
          walk-Walked test agrees pos small fits fuel (i + step) (emplace v into) true (omega arith)
            (omega arith) (omega arith) in
        let first = walk_step test fuel i into any v (agrees i hi ∙ on) e (omega arith) in
        (out, first ∙ run ∙ rw on (ground arith), Walked-next i into out v go e w)
  ]

  -- A zero step visits the same index for ever: however many rounds are granted, none is enough.
  pub walk_zero_step :
      (test : ℕ → Bool) (i : ℕ)
      → test i ≡ true
      → i < length values
      → i < u64_mod
      → step ≡ 0
      → (fuel : ℕ) (into : List A) (any : Bool) → walk values fuel test step i into any ≡ spinning
  walk_zero_step test i e h small z zero into any = unfold walk in refl
  walk_zero_step test i e h small z (suc fuel) into any =
      let (v, f) = get_elem?-some values i h in
      let same : i + step ≡ i = omega arith in
      walk_step test fuel i into any v e f (omega arith)
      ∙ rw same (walk_zero_step test i e h small z fuel (emplace v into) true)
