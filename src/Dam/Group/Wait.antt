-- ===== src/Dam/Group/Wait.antt =====
-- How long a round of the throttle sleeps where no unit of its group runs.
use systemd_cron.Base.Int.{ℤ, pos, negsuc, pos_part, neg_part}
use systemd_cron.Base.{
  ℕ, ◌+◌, ◌-◌, ◌*◌, ◌<◌, ◌≡◌, refl, List, [], ◌∷◌, Option, none, some, Bool, true, false, not, ◌&&◌,
  ◌||◌, if◌then◌else◌, Bytes, arith, leb, Bool-cases, inl, inr, all, ap, ◌∙◌, sym, subst,
}
use systemd_cron.Dam.Group.Quiet.{
  Means, at-Means, of_usec-Means, minus-Means, later_usec, admits, is_of_group, is_quiet,
  has_rested, admits-verdict,
}
use systemd_cron.Dam.Group.{
  ListedUnit, blanking_interval, zero_time, of_usec, any_ours, is_running, Settled, rests,
  settle_times, settle, is_watched, max_time, Verdict, admit, sleep, is_zero, verdict,
}
use systemd_cron.Vore.Timespec.{Timespec, later, minus, billion, at}

abbrev in_order : Option ℕ → Option ℕ → Bool
in_order none exit = true
in_order (some start) none = true
in_order (some start) (some exit) = leb start exit

-- Neither running nor started after it ended.
abbrev pub has_ended : ListedUnit → Bool
has_ended unit = not (is_running unit) && in_order unit.exec_main_start unit.exec_main_exit

-- The rest of the blanking interval of a unit, in nanoseconds.
abbrev remaining : ℕ → Option ℕ → Option ℕ → ℕ
remaining now none exit = 0
remaining now (some start) none = 0
remaining now (some start) (some exit) = exit * 1000 + 300 * billion - now

abbrev longer : ℕ → ℕ → ℕ
longer a b = a + (b - a)

-- A time that is not negative, of so many nanoseconds.
record IsLong (t : Timespec) (ns : ℕ) : Type 0 where
  means : Means t ns 0
  sign : neg_part t.tv_sec ≡ 0

max_time-parts :
    (x y : ℤ) (k n p q a : ℕ)
    → Means (record { tv_sec = x; tv_nsec = k }) p q
    → IsLong (record { tv_sec = y; tv_nsec = n }) a
    → let m = max_time (record { tv_sec = x; tv_nsec = k }) (record { tv_sec = y; tv_nsec = n }) in
      (m.tv_nsec < billion)
      × (pos_part m.tv_sec * billion + m.tv_nsec ≡ longer a (p - q))
      × (neg_part m.tv_sec ≡ 0)
unfolding max_time later
max_time-parts (pos s) (pos r) k n p q a h l =
    ground (arith, h.normal, h.value, l.means.normal, l.means.value)
max_time-parts (negsuc s) (pos r) k n p q a h l =
    ground (arith, h.normal, h.value, l.means.normal, l.means.value)
max_time-parts x (negsuc r) k n p q a h l = absurd (omega (arith, l.sign))

max_time-IsLong :
    (t acc : Timespec) (p q a : ℕ)
    → Means t p q
    → IsLong acc a
    → IsLong (max_time t acc) (longer a (p - q))
max_time-IsLong t acc p q a h l =
    let (normal, value, sign) =
      max_time-parts t.tv_sec acc.tv_sec t.tv_nsec acc.tv_nsec p q a h l in
    record { means = record { normal = normal; value = omega (arith, value, sign) }; sign = sign }

-- What a unit that has ended settles.
record Rests (r : Settled) (ns : ℕ) : Type 0 where
  time : Timespec
  more : ℕ
  less : ℕ
  settled : r ≡ rests time
  means : Means time more less
  left : more - less ≡ ns

zero-Rests : Rests (rests zero_time) 0
zero-Rests = record {
  time = zero_time;
  more = 0;
  less = 0;
  settled = refl;
  means = record { normal = omega arith; value = refl };
  left = refl;
}

settle_times-Rests :
    (now : ℕ) (start exit : Option ℕ)
    → in_order start exit ≡ true
    → Rests (settle_times (at now) start exit) (remaining now start exit)
unfolding settle_times
settle_times-Rests now none exit h = zero-Rests
settle_times-Rests now (some start) none h = zero-Rests
settle_times-Rests now (some start) (some exit) h = record {
  time = minus blanking_interval (minus (at now) (of_usec exit));
  more = 300 * billion + (0 + exit * 1000);
  less = 0 + (now + 0);
  settled = ground (arith, later_usec start exit);
  means =
      minus-Means blanking_interval (minus (at now) (of_usec exit)) (300 * billion) 0 (now + 0)
        (0 + exit * 1000) (record { normal = omega arith; value = refl })
        (minus-Means (at now) (of_usec exit) now 0 (exit * 1000) 0 (at-Means now)
          (of_usec-Means exit));
  left = omega arith;
}

abbrev asleep : Verdict → Timespec
asleep admit = zero_time
asleep (sleep t) = t

slept : (b : Bool) (acc t : Timespec) → (if b then admit else sleep acc) ≡ sleep t → acc ≡ t
slept true acc t e = cc
slept false acc t e = ap asleep e

rested_later :
    (now d : ℕ) (start exit : Option ℕ)
    → in_order start exit ≡ true
    → has_rested (now + d) start exit ≡ leb (remaining now start exit) d
rested_later now d none exit h = ground arith
rested_later now d (some start) none h = ground arith
rested_later now d (some start) (some exit) h = ground arith

module _ (now : ℕ) (self group self_object : Bytes) where
  abbrev ours : ListedUnit → Bool
  ours u = any_ours self group u.exec_start_pre

  abbrev waits : ListedUnit → ℕ
  waits u = if ours u then remaining now u.exec_main_start u.exec_main_exit else 0

  settle-Rests :
      (u : ListedUnit)
      → (not (ours u) || has_ended u) ≡ true
      → Rests (settle (at now) self group u) (waits u)
  unfolding settle
  settle-Rests u h = elim (Bool-cases (ours u)) [
    | inr e ↦ rw e zero-Rests
    | inl e ↦
        let ended : is_running u ≡ false = ground arith in
        rw (e, ended) (settle_times-Rests now u.exec_main_start u.exec_main_exit (ground arith))
  ]

  -- The longest time that a unit asks for, or `a` where that is longer.
  longest : List ListedUnit → ℕ → ℕ
  longest [] a = a
  longest (u ∷ us) a = longest us (if is_watched self_object u then longer a (waits u) else a)

  verdict-Rests :
      (u : ListedUnit) (us : List ListedUnit) (acc : Timespec) (ns : ℕ)
      → is_watched self_object u ≡ true
      → (r : Rests (settle (at now) self group u) ns)
      → verdict (at now) self group self_object (u ∷ us) acc
        ≡ verdict (at now) self group self_object us (max_time r.time acc)
  unfolding verdict
  verdict-Rests u us acc ns e r = rw (e, r.settled) refl

  verdict-longest :
      (units : List ListedUnit) (acc t : Timespec) (a : ℕ)
      → all (λ u. not (is_of_group self group self_object u) || has_ended u) units ≡ true
      → IsLong acc a
      → verdict (at now) self group self_object units acc ≡ sleep t
      → IsLong t (longest units a)
  unfolding verdict longest
  verdict-longest [] acc t a h l e = subst (λ v. IsLong v a) (slept (is_zero acc) acc t e) l
  verdict-longest (u ∷ us) acc t a h l e = elim (Bool-cases (is_watched self_object u)) [
    | inr w ↦ rw w (verdict-longest us acc t a (ground arith) l (rw w at e))
    | inl w ↦
        let r = settle-Rests u (ground arith) in
        rw w (
          verdict-longest us (max_time r.time acc) t (longer a (waits u)) (ground arith)
            (subst (λ n. IsLong (max_time r.time acc) (longer a n)) r.left
              (max_time-IsLong r.time acc r.more r.less a r.means l))
            (sym (verdict-Rests u us acc (waits u) w r) ∙ e))
  ]

  quiet_later :
      (u : ListedUnit) (d : ℕ)
      → (not (is_of_group self group self_object u) || has_ended u) ≡ true
      → (not (is_of_group self group self_object u) || is_quiet (now + d) u)
        ≡ (not (is_watched self_object u) || leb (waits u) d)
  quiet_later u d h = elim (Bool-cases (is_of_group self group self_object u)) [
    | inr e ↦ ground (arith, e)
    | inl e ↦
        let rested = rested_later now d u.exec_main_start u.exec_main_exit (ground arith) in
        ground (arith, e, rested)
  ]

  all_quiet_later :
      (units : List ListedUnit) (a d : ℕ)
      → all (λ u. not (is_of_group self group self_object u) || has_ended u) units ≡ true
      → (leb a d
          && all (λ u. not (is_of_group self group self_object u) || is_quiet (now + d) u) units)
        ≡ leb (longest units a) d
  unfolding longest
  all_quiet_later [] a d h = ground arith
  all_quiet_later (u ∷ us) a d h = elim (Bool-cases (is_watched self_object u)) [
    | inr w ↦
        let rest = all_quiet_later us a d (ground arith) in
        let this = quiet_later u d (ground arith) in rw w (ground (arith, rest, this))
    | inl w ↦
        let rest = all_quiet_later us (longer a (waits u)) d (ground arith) in
        let this = quiet_later u d (ground arith) in rw w (ground (arith, rest, this))
  ]

  -- Where no unit of the group runs, or started after it ended, and the round sleeps for `t`, then a
  -- round that finds the same units `d` nanoseconds later goes on to the compare-exchange exactly if
  -- `d` is `t` or more: the sleep is long enough and no longer.
  pub sleep_exact :
      (units : List ListedUnit) (t : Timespec) (d : ℕ)
      → all (λ u. not (is_of_group self group self_object u) || has_ended u) units ≡ true
      → verdict (at now) self group self_object units zero_time ≡ sleep t
      → admits (verdict (at (now + d)) self group self_object units zero_time)
        ≡ leb (pos_part t.tv_sec * billion + t.tv_nsec) d
  sleep_exact units t d h e =
      let zero : IsLong zero_time 0 = record {
        means = record { normal = omega arith; value = refl };
        sign = refl;
      } in
      let long = verdict-longest units zero_time t 0 h zero e in
      let exact : pos_part t.tv_sec * billion + t.tv_nsec ≡ longest units 0 =
        omega (arith, long.means.value, long.sign) in
      let rested = all_quiet_later units 0 d h in
      admits-verdict (now + d) self group self_object units ∙ ground (arith, rested, exact)
