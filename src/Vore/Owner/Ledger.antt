-- ===== src/Vore/Owner/Ledger.antt =====
-- Sums over the objects, and what putting, swapping and handing over does to them.
use systemd_cron.Base.{
  ℕ, zero, suc, ◌+◌, ◌≤◌, ◌≡◌, refl, ap, subst, List, [], ◌∷◌, false, if◌then◌else◌, ◌==◌, arith,
  Bool-cases, inl, inr,
}
use systemd_cron.Vore.Owner.{
  Owner, Owners, empty_owner, owner_at, put_owner, swap_owners, move_owner, disowned, count,
  remove_one,
}

abbrev pub total : (Owner → ℕ) → Owners → ℕ
total f [] = 0
total f (w ∷ ws) = f w + total f ws

module _ (f : Owner → ℕ) (nought : f empty_owner ≡ 0) where
  pub total-put :
      (i : ℕ) (v : Owner) (ws : Owners)
      → total f (put_owner i v ws) + f (owner_at i ws) ≡ total f ws + f v
  total-put zero v [] = omega (arith, nought)
  total-put (suc i) v [] = omega (arith, nought, total-put i v [])
  total-put zero v (w ∷ ws) = omega arith
  total-put (suc i) v (w ∷ ws) = omega (arith, total-put i v ws)

  pub at-le-total : (i : ℕ) (ws : Owners) → f (owner_at i ws) ≤ total f ws
  at-le-total i [] = omega (arith, nought)
  at-le-total zero (w ∷ ws) = omega arith
  at-le-total (suc i) (w ∷ ws) = omega (arith, at-le-total i ws)

at-put_same : (i : ℕ) (v : Owner) (ws : Owners) → owner_at i (put_owner i v ws) ≡ v
at-put_same zero v [] = refl
at-put_same (suc i) v [] = at-put_same i v []
at-put_same zero v (w ∷ ws) = refl
at-put_same (suc i) v (w ∷ ws) = at-put_same i v ws

pub at-put_other :
    (i j : ℕ) (v : Owner) (ws : Owners)
    → (i == j) ≡ false
    → owner_at i (put_owner j v ws) ≡ owner_at i ws
at-put_other zero zero v ws h = cc
at-put_other zero (suc j) v [] h = refl
at-put_other (suc i) zero v [] h = refl
at-put_other (suc i) (suc j) v [] h = at-put_other i j v [] (ground arith)
at-put_other zero (suc j) v (w ∷ ws) h = refl
at-put_other (suc i) zero v (w ∷ ws) h = refl
at-put_other (suc i) (suc j) v (w ∷ ws) h = at-put_other i j v ws (ground arith)

-- Putting what is at `i` elsewhere leaves it at `i`.
pub at-put_copy :
    (i j : ℕ) (ws : Owners) → owner_at i (put_owner j (owner_at i ws) ws) ≡ owner_at i ws
at-put_copy i j ws = elim (Bool-cases (i == j)) [
  | inl e ↦
      let same : i ≡ j = ground arith in
      subst (λ k. owner_at i (put_owner k (owner_at i ws) ws) ≡ owner_at i ws) same
        (at-put_same i (owner_at i ws) ws)
  | inr e ↦ at-put_other i j (owner_at i ws) ws e
]

module _ (f : Owner → ℕ) (nought : f empty_owner ≡ 0) where
  pub total-swap_owners : (i j : ℕ) (ws : Owners) → total f (swap_owners i j ws) ≡ total f ws
  total-swap_owners i j ws = omega (
    arith,
    total-put f nought j (owner_at i ws) ws,
    total-put f nought i (owner_at j ws) (put_owner j (owner_at i ws) ws),
    ap f (at-put_copy i j ws),
  )

  -- From an object that then counts nothing. What the target has counted is gone.
  pub total-move_owner :
      (i j : ℕ) (ws : Owners)
      → f (disowned (owner_at j ws)) ≡ 0
      → total f (move_owner i j ws) + f (owner_at i ws) ≡ total f ws
  total-move_owner i j ws source = omega (
    arith,
    source,
    total-put f nought i (owner_at j ws) ws,
    total-put f nought j (disowned (owner_at j ws)) (put_owner i (owner_at j ws) ws),
    ap f (at-put_copy j i ws),
  )

pub count-remove_one :
    (r q : ℕ) (xs : List ℕ)
    → 1 ≤ count q xs
    → count r (remove_one q xs) + (if q == r then 1 else 0) ≡ count r xs
count-remove_one r q [] h = absurd (omega (arith, h))
count-remove_one r q (x ∷ xs) h = elim (Bool-cases (x == q)) [
  | inl e ↦ ground arith
  | inr e ↦ ground (arith, count-remove_one r q xs (ground arith))
]
