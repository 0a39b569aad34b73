-- ===== src/Vore/Timespec.antt =====
-- The operators on `struct timespec` of src/include/libvoreutils.hpp.
use native.Mathlib.Decide.{dec_lt}
use systemd_cron.Base.{
  ℕ, ◌+◌, ◌-◌, ◌*◌, ◌/◌, ◌%◌, ◌<◌, ◌≤◌, ◌≡◌, ◌↔◌, ◌⊎◌, inl, inr, refl, Bool, true, ◌||◌, ◌&&◌,
  arith, ltb, lt→ltb, ltb-false, if◌then◌else◌,
}
use systemd_cron.Base.Int.{neg_part, pos_part, negsuc, -ℤ_parts, ℤ, pos, ◌-ℤ◌, ltb_ℤ, eqb_ℤ}

pub record Timespec : Type 0 where
  pub tv_sec : ℤ
  pub tv_nsec : ℕ

abbrev pub billion : ℕ
billion = 1_000_000_000

-- `lhs > rhs`.
unfoldable pub later : Timespec → Timespec → Bool
later lhs rhs =
    ltb_ℤ rhs.tv_sec lhs.tv_sec || (eqb_ℤ lhs.tv_sec rhs.tv_sec && ltb rhs.tv_nsec lhs.tv_nsec)

-- `lhs - rhs`, with a borrow of one second.
unfoldable pub minus : Timespec → Timespec → Timespec
minus lhs rhs =
    let borrow = ltb lhs.tv_nsec rhs.tv_nsec in
    let sec = if borrow then lhs.tv_sec -ℤ pos 1 else lhs.tv_sec in
    let nsec = if borrow then lhs.tv_nsec + billion else lhs.tv_nsec in
    record { tv_sec = sec -ℤ rhs.tv_sec; tv_nsec = nsec - rhs.tv_nsec }

-- A time that is not negative and has less than a second in its nanoseconds, as nanoseconds.
abbrev pub at : ℕ → Timespec
at ns = record { tv_sec = pos (ns / billion); tv_nsec = ns % billion }

-- With the seconds of the right side not negative, the comparison is one of the parts.
later_parts :
    (x : ℤ) (n s m : ℕ)
    → (later (record { tv_sec = x; tv_nsec = n }) (record { tv_sec = pos s; tv_nsec = m }) ≡ true)
      ↔ ((s + neg_part x < pos_part x) ⊎ ((pos_part x ≡ s + neg_part x) × (m < n)))
unfolding later
later_parts (pos k) n s m = (λ h. ground arith, λ h. ground arith)
later_parts (negsuc k) n s m = (λ h. ground arith, λ h. ground arith)

pub minus_borrow :
    (x y : ℤ) (n m : ℕ)
    → n < m
    → minus (record { tv_sec = x; tv_nsec = n }) (record { tv_sec = y; tv_nsec = m })
      ≡ record { tv_sec = x -ℤ pos 1 -ℤ y; tv_nsec = n + billion - m }
unfolding minus
minus_borrow x y n m h = rw (lt→ltb n m h) refl

pub minus_plain :
    (x y : ℤ) (n m : ℕ)
    → m ≤ n
    → minus (record { tv_sec = x; tv_nsec = n }) (record { tv_sec = y; tv_nsec = m })
      ≡ record { tv_sec = x -ℤ y; tv_nsec = n - m }
unfolding minus
minus_plain x y n m h = rw (ltb-false n m h) refl

-- The same in nanoseconds.
later_ns :
    (x : ℤ) (n s m : ℕ)
    → n < billion
    → m < billion
    → (later (record { tv_sec = x; tv_nsec = n }) (record { tv_sec = pos s; tv_nsec = m }) ≡ true)
      ↔ ((s + neg_part x) * billion + m < pos_part x * billion + n)
later_ns x n s m hn hm =
    let (to, from) = later_parts x n s m in
    (
      λ h. let parts = to h in omega arith,
      λ h. from (elim (dec_lt (s + neg_part x) (pos_part x)) [
        | yes more ↦ inl more
        | no same ↦ inr (omega arith, omega arith)
      ]),
    )

-- Comparing a difference with an interval is comparing nanoseconds, also where the difference is
-- negative.
pub later-minus : (a b d : ℕ) → (later (minus (at a) (at b)) (at d) ≡ true) ↔ (b + d < a)
later-minus a b d = elim (dec_lt (a % billion) (b % billion)) [
  | yes borrow ↦
      let x = pos (a / billion) -ℤ pos 1 -ℤ pos (b / billion) in
      let (to, from) =
        later_ns x (a % billion + billion - b % billion) (d / billion) (d % billion) (omega arith)
          (omega arith) in
      rw (minus_borrow (pos (a / billion)) (pos (b / billion)) (a % billion) (b % billion) borrow)
        (λ h. let ns = to h in omega (arith, -ℤ_parts), λ h. from (omega (arith, -ℤ_parts)))
  | no plain ↦
      let x = pos (a / billion) -ℤ pos (b / billion) in
      let (to, from) =
        later_ns x (a % billion - b % billion) (d / billion) (d % billion) (omega arith)
          (omega arith) in
      rw
        (minus_plain (pos (a / billion)) (pos (b / billion)) (a % billion) (b % billion)
          (omega arith))
        (λ h. let ns = to h in omega (arith, -ℤ_parts), λ h. from (omega (arith, -ℤ_parts)))
]
