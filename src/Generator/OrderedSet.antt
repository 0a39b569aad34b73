-- ===== src/Generator/OrderedSet.antt =====
-- `std::set`, as the list of its members in increasing order.
pub mod Ascending
use systemd_cron.Base.{
  ℕ, ◌≡◌, ◌⊎◌, inl, inr, refl, List, [], ◌∷◌, Bool, false, arith, ltb, if◌then◌else◌, Bytes, less,
  In, Bool-cases,
}

-- The order of the members: two that neither precedes the other are equal.
pub record Less (A : Type 0) : Type 0 where
  pub lt : A → A → Bool
  pub eq_of_neither : (a b : A) → lt a b ≡ false → lt b a ≡ false → a ≡ b

pub number_eq : (a b : ℕ) → ltb a b ≡ false → ltb b a ≡ false → a ≡ b
number_eq a b h k = ground arith

pub text_eq : (a b : Bytes) → less a b ≡ false → less b a ≡ false → a ≡ b
unfolding less
text_eq [] [] h k = refl
text_eq [] (y ∷ b) h k = cc
text_eq (x ∷ a) [] h k = cc
text_eq (x ∷ a) (y ∷ b) h k = ground (arith, text_eq a b)

instance abbrev pub number_less : Less ℕ
number_less = record { lt = ltb; eq_of_neither = number_eq }

instance abbrev pub text_less : Less Bytes
unfolding less
text_less = record { lt = less; eq_of_neither = text_eq }

module _ {A : Type 0} ⦃o : Less A⦄ where
  unfoldable pub emplace : A → List A → List A
  emplace v [] = v ∷ []
  emplace v (x ∷ s) = if o.lt v x then v ∷ x ∷ s else if o.lt x v then x ∷ emplace v s else x ∷ s

  -- The members after an `emplace` are the new one and the old ones.
  pub In-emplace : (v x : A) (s : List A) → In x (emplace v s) → (x ≡ v) ⊎ In x s
  unfolding emplace
  In-emplace v x [] h = h
  In-emplace v x (y ∷ s) h = elim (Bool-cases (o.lt v y)) [
    | inl e ↦ rw e at h
    | inr e ↦ elim (Bool-cases (o.lt y v)) [
      | inl f ↦ elim (let g : (x ≡ y) ⊎ In x (emplace v s) = rw (e, f) at h in g) [
        | inl here ↦ inr (inl here)
        | inr later ↦ elim (In-emplace v x s later) [ inl new ↦ inl new | inr old ↦ inr (inr old) ]
      ]
      | inr f ↦ inr (rw (e, f) at h)
    ]
  ]

  pub emplace_self : (v : A) (s : List A) → In v (emplace v s)
  unfolding emplace
  emplace_self v [] = inl refl
  emplace_self v (y ∷ s) = elim (Bool-cases (o.lt v y)) [
    | inl e ↦ rw e (inl refl)
    | inr e ↦ elim (Bool-cases (o.lt y v)) [
      | inl f ↦ rw (e, f) (inr (emplace_self v s))
      | inr f ↦ rw (e, f) (inl (o.eq_of_neither v y e f))
    ]
  ]

  pub emplace_keeps : (v x : A) (s : List A) → In x s → In x (emplace v s)
  unfolding emplace
  emplace_keeps v x [] h = elim h [ ]
  emplace_keeps v x (y ∷ s) h = elim (Bool-cases (o.lt v y)) [
    | inl e ↦ rw e (inr h)
    | inr e ↦ elim (Bool-cases (o.lt y v)) [
      | inl f ↦ rw (e, f) (elim h [ inl here ↦ inl here | inr old ↦ inr (emplace_keeps v x s old) ])
      | inr f ↦ rw (e, f) h
    ]
  ]
