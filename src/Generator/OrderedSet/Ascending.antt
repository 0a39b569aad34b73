-- ===== src/Generator/OrderedSet/Ascending.antt =====
-- A set keeps its members in increasing order, each once.
use systemd_cron.Base.{◌≡◌, inl, inr, List, [], ◌∷◌, true, Bool-cases}
use systemd_cron.Generator.OrderedSet.{Less, emplace}

module _ {A : Type 0} ⦃o : Less A⦄ where
  -- What follows `a` in a set.
  abbrev pub Above : A → List A → Type 0
  Above a [] = Unit
  Above a (x ∷ s) = o.lt a x ≡ true

  abbrev pub Ascending : List A → Type 0
  Ascending [] = Unit
  Ascending (x ∷ s) = Above x s × Ascending s

  emplace-Above : (a v : A) (s : List A) → o.lt a v ≡ true → Above a s → Above a (emplace v s)
  unfolding emplace
  emplace-Above a v [] h k = h
  emplace-Above a v (x ∷ s) h k = elim (Bool-cases (o.lt v x)) [
    | inl e ↦ rw e h
    | inr e ↦ elim (Bool-cases (o.lt x v)) [ inl f ↦ rw (e, f) k | inr f ↦ rw (e, f) k ]
  ]

  pub emplace-Ascending : (v : A) (s : List A) → Ascending s → Ascending (emplace v s)
  unfolding emplace
  emplace-Ascending v [] h = (tt, tt)
  emplace-Ascending v (x ∷ s) h = elim (Bool-cases (o.lt v x)) [
    | inl e ↦ rw e (e, h)
    | inr e ↦ elim (Bool-cases (o.lt x v)) [
      | inl f ↦ rw (e, f) (emplace-Above x v s f h.0, emplace-Ascending v s h.1)
      | inr f ↦ rw (e, f) h
    ]
  ]
