-- ===== src/Dam/Group/Quiet.antt =====
-- When a round of the throttle lets the job go: exactly if no unit that it recognises as of its group
-- runs, and each has ended a blanking interval ago or earlier.
use native.Mathlib.Decide.{dec_lt}
use systemd_cron.Base.Int.{ℤ, pos, negsuc, pos_part, neg_part, ◌-ℤ◌, -ℤ_parts}
use systemd_cron.Base.{
  ℕ, ◌+◌, ◌*◌, ◌<◌, ◌≡◌, refl, List, [], ◌∷◌, Option, none, some, Bool, true, false, not, ◌&&◌,
  ◌||◌, Bytes, arith, leb, ltb, Bool-cases, inl, inr, all,
}
use systemd_cron.Dam.Group.{
  ListedUnit, blanking_interval, zero_time, of_usec, any_ours, is_running, Settled, wins, rests,
  settle_times, settle, is_watched, max_time, Verdict, admit, sleep, is_zero, verdict,
}
use systemd_cron.Vore.Timespec.{Timespec, later, minus, billion, at, minus_borrow, minus_plain}

-- The time is `more` less `less`, in nanoseconds, and has less than a second in its nanoseconds.
pub record Means (t : Timespec) (more less : ℕ) : Type 0 where
  pub normal : t.tv_nsec < billion
  pub value : pos_part t.tv_sec * billion + t.tv_nsec + less ≡ neg_part t.tv_sec * billion + more

pub at-Means : (n : ℕ) → Means (at n) n 0
at-Means n = record { normal = omega arith; value = omega arith }

pub of_usec-Means : (n : ℕ) → Means (of_usec n) (n * 1000) 0
unfolding of_usec
of_usec-Means n = record { normal = omega arith; value = omega arith }

pub minus-Means :
    (a b : Timespec) (p n q m : ℕ) → Means a p n → Means b q m → Means (minus a b) (p + m) (n + q)
minus-Means a b p n q m ha hb = elim (dec_lt a.tv_nsec b.tv_nsec) [
  | yes borrow ↦ rw (minus_borrow a.tv_sec b.tv_sec a.tv_nsec b.tv_nsec borrow) (record {
    normal = omega (arith, ha.normal, hb.normal);
    value =
        let one = -ℤ_parts a.tv_sec (pos 1) in
        let all = -ℤ_parts (a.tv_sec -ℤ pos 1) b.tv_sec in
        omega (arith, ha.value, hb.value, ha.normal, hb.normal);
  })
  | no plain ↦ rw (minus_plain a.tv_sec b.tv_sec a.tv_nsec b.tv_nsec (omega arith)) (record {
    normal = omega (arith, ha.normal, hb.normal);
    value = let all = -ℤ_parts a.tv_sec b.tv_sec in omega (arith, ha.value, hb.value);
  })
]

-- The sign of such a time, on its parts.
later_zero_parts :
    (x : ℤ) (k more less : ℕ)
    → Means (record { tv_sec = x; tv_nsec = k }) more less
    → later (record { tv_sec = x; tv_nsec = k }) zero_time ≡ ltb less more
unfolding later
later_zero_parts (pos s) k more less h = ground (arith, h.normal, h.value)
later_zero_parts (negsuc s) k more less h = ground (arith, h.normal, h.value)

-- Comparing a number of microseconds is comparing times.
pub later_usec : (m n : ℕ) → later (of_usec m) (of_usec n) ≡ ltb n m
unfolding later of_usec
later_usec m n = ground arith

-- Has the unit ended, and a blanking interval ago or earlier? `now` is in nanoseconds. Where a time
-- is missing, the throttle does not wait.
abbrev pub has_rested : ℕ → Option ℕ → Option ℕ → Bool
has_rested now none exit = true
has_rested now (some start) none = true
has_rested now (some start) (some exit) = leb start exit && leb (exit * 1000 + 300 * billion) now

-- Does this unit leave the others of its group alone?
abbrev pub is_quiet : ℕ → ListedUnit → Bool
is_quiet now unit = not (is_running unit) && has_rested now unit.exec_main_start unit.exec_main_exit

-- Does what a unit settles to let the job go?
abbrev frees : Settled → Bool
frees wins = false
frees (rests t) = not (later t zero_time)

settle_times-frees :
    (now : ℕ) (start exit : Option ℕ)
    → frees (settle_times (at now) start exit) ≡ has_rested now start exit
unfolding settle_times later
settle_times-frees now none exit = refl
settle_times-frees now (some start) none = refl
settle_times-frees now (some start) (some exit) =
    let since =
      minus-Means (at now) (of_usec exit) now 0 (exit * 1000) 0 (at-Means now)
        (of_usec-Means exit) in
    let t = minus blanking_interval (minus (at now) (of_usec exit)) in
    let left =
      minus-Means blanking_interval (minus (at now) (of_usec exit)) (300 * billion) 0 (now + 0)
        (0 + exit * 1000) (record { normal = omega arith; value = refl }) since in
    let sign =
      later_zero_parts t.tv_sec t.tv_nsec (300 * billion + (0 + exit * 1000)) (0 + (now + 0))
        left in
    ground (arith, later_usec start exit, sign)

settle-frees :
    (now : ℕ) (self group : Bytes) (unit : ListedUnit)
    → frees (settle (at now) self group unit)
      ≡ (not (any_ours self group unit.exec_start_pre) || is_quiet now unit)
unfolding settle later is_running
settle-frees now self group unit =
    ground (arith, settle_times-frees now unit.exec_main_start unit.exec_main_exit)

-- The longer of two times is nought if the second is and the first is not above it; on their parts.
max_time_zero :
    (x y : ℤ) (k n : ℕ)
    → neg_part y ≡ 0
    → let m = max_time (record { tv_sec = x; tv_nsec = k }) (record { tv_sec = y; tv_nsec = n }) in
      (is_zero m ≡ (
        not (later (record { tv_sec = x; tv_nsec = k }) zero_time)
        && is_zero (record { tv_sec = y; tv_nsec = n })))
      × (neg_part m.tv_sec ≡ 0)
unfolding max_time later
max_time_zero (pos s) (pos r) k n h = ground arith
max_time_zero (negsuc s) (pos r) k n h = ground arith
max_time_zero x (negsuc r) k n h = absurd (omega (arith, h))

abbrev pub admits : Verdict → Bool
admits admit = true
admits (sleep t) = false

-- The units that a round looks at and recognises as of its group: no command before the throttle of
-- one has more strings than the round reads.
abbrev pub is_of_group : Bytes → Bytes → Bytes → ListedUnit → Bool
is_of_group self group self_object unit =
    is_watched self_object unit && any_ours self group unit.exec_start_pre

-- One unit of the loop, before the rest of it.
settled-admits :
    (r : Settled) (free rest : Bool) (next : Timespec → Verdict) (acc : Timespec)
    → neg_part acc.tv_sec ≡ 0
    → frees r ≡ free
    → ((t : Timespec) → neg_part t.tv_sec ≡ 0 → admits (next t) ≡ (is_zero t && rest))
    → admits (elim r [ wins ↦ sleep blanking_interval | rests t ↦ next (max_time t acc) ])
      ≡ (is_zero acc && (free && rest))
settled-admits wins free rest next acc h f k = ground (arith, f)
settled-admits (rests t) free rest next acc h f k =
    let (zero, sign) = max_time_zero t.tv_sec acc.tv_sec t.tv_nsec acc.tv_nsec h in
    ground (arith, f, zero, k (max_time t acc) sign)

module _ (now : ℕ) (self group self_object : Bytes) where
  -- A unit that is recognised as of the group is quiet.
  abbrev leaves_alone : ListedUnit → Bool
  leaves_alone u = not (is_of_group self group self_object u) || is_quiet now u

  admits-verdict_from :
      (units : List ListedUnit) (acc : Timespec)
      → neg_part acc.tv_sec ≡ 0
      → admits (verdict (at now) self group self_object units acc)
        ≡ (is_zero acc && all leaves_alone units)
  unfolding verdict
  admits-verdict_from [] acc h = ground arith
  admits-verdict_from (u ∷ us) acc h = elim (Bool-cases (is_watched self_object u)) [
    | inr e ↦ ground (arith, e, admits-verdict_from us acc h)
    | inl e ↦ rw e (
        settled-admits (settle (at now) self group u) _ _
          (verdict (at now) self group self_object us) acc h (settle-frees now self group u)
          (admits-verdict_from us))
  ]

  -- A round of the throttle goes on to the compare-exchange exactly if every unit that it looks at
  -- and recognises as of its group is neither running nor ended less than the blanking interval ago,
  -- as far as its times could be read.
  pub admits-verdict :
      (units : List ListedUnit)
      → admits (verdict (at now) self group self_object units zero_time)
        ≡ all (λ u. not (is_of_group self group self_object u) || is_quiet now u) units
  admits-verdict units = admits-verdict_from units zero_time refl
