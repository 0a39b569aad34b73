-- ===== src/Dam/Race/Spacing.antt =====
-- No two jobs are let go within the gap, however the processes interleave.
use systemd_cron.Base.{
  ℕ, ◌+◌, ◌*◌, ◌<◌, ◌≡◌, refl, ap, List, [], ◌∷◌, true, arith, ◌==◌, Bool-cases, inl, inr, ◌^◌,
}
use systemd_cron.Dam.Bundle.{
  Bundle, make_bundle, bundle_ns, same_bundle, FitsFields, make_bundle-FitsFields, bundle_time-at,
  make_bundle_time,
}
use systemd_cron.Dam.Race.{
  has_passed, Pc, idle, loaded, ready, gone, World, Move, read_word, too_soon, held_back,
  read_clock, blocked, lost, won, update, System, Step, tick, move, start_process, boot, Reach,
  start, next,
}
use systemd_cron.Vore.Timespec.{billion, later-minus}

-- What a truncated time can lose, in nanoseconds: just under a 1024th of a second, and one.
abbrev pub slack : ℕ
slack = 976564

-- Each win is later than the one before it by more than the gap, but for the slack.
abbrev pub Spaced : ℕ → List ℕ → Type 0
Spaced gap [] = Unit
Spaced gap (t ∷ []) = Unit
Spaced gap (t ∷ u ∷ rest) = (u + gap * billion < t + slack) × Spaced gap (u ∷ rest)

-- The word is that of the last win.
abbrev Latest : Bundle → List ℕ → Type 0
Latest b [] = Unit
Latest b (t ∷ rest) = (pid : ℕ) × (b ≡ make_bundle pid t) × (t < 2 ^ 32 * billion)

-- What a process remembers was true when it looked.
abbrev Remembers : ℕ → Pc → Type 0
Remembers gap idle = Unit
Remembers gap gone = Unit
Remembers gap (loaded last) = FitsFields last
Remembers gap (ready last now) =
    FitsFields last × (has_passed gap last now ≡ true) × (now < 2 ^ 32 * billion)

record Inv (gap : ℕ) (s : System) : Type 0 where
  pub clock_fits : s.world.clock < 2 ^ 32 * billion
  pub shm_fits : FitsFields s.world.shm
  pub latest : Latest s.world.shm s.world.wins
  pub spaced : Spaced gap s.world.wins
  pub remembers : (i : ℕ) → Remembers gap (s.pc i)

has_passed_ns :
    (gap : ℕ) (b : Bundle) (now : ℕ)
    → FitsFields b
    → has_passed gap b now ≡ true
    → bundle_ns b + gap * billion < now
unfolding has_passed
has_passed_ns gap b now fits h =
    (later-minus now (bundle_ns b) (gap * billion)).0 (rw (bundle_time-at b fits) at h)

same_bundle_eq : (a b : Bundle) → same_bundle a b ≡ true → a ≡ b
same_bundle_eq a b h = ground arith

-- A win against the word of the last win is later than it by the gap.
Spaced-won :
    (gap now : ℕ) (b : Bundle) (wins : List ℕ)
    → bundle_ns b + gap * billion < now
    → Latest b wins
    → Spaced gap wins
    → Spaced gap (now ∷ wins)
Spaced-won gap now b [] h l s = tt
Spaced-won gap now b (t ∷ rest) h (pid, e, small) s =
    let (_, near) = make_bundle_time pid t small in
    let same : bundle_ns b ≡ bundle_ns (make_bundle pid t) = ap bundle_ns e in (omega arith, s)

module _ {gap : ℕ} {s : System} (inv : Inv gap s) where
  Remembers-update :
      (pid : ℕ) (p : Pc) → Remembers gap p → (i : ℕ) → Remembers gap (update s.pc pid p i)
  Remembers-update pid p new i = elim (Bool-cases (pid == i)) [
    | inl same ↦ rw same new
    | inr other ↦ rw other (inv.remembers i)
  ]

  mine : (pid : ℕ) (q : Pc) → s.pc pid ≡ q → Remembers gap q
  mine pid q e = rw e at (inv.remembers pid)

  keep_world :
      (pid : ℕ) (p : Pc)
      → Remembers gap p
      → Inv gap (record { world = s.world; pc = update s.pc pid p })
  keep_world pid p new = record {
    clock_fits = inv.clock_fits;
    shm_fits = inv.shm_fits;
    latest = inv.latest;
    spaced = inv.spaced;
    remembers = Remembers-update pid p new;
  }

  won-Inv :
      (pid : ℕ) (last : Bundle) (now : ℕ)
      → Remembers gap (ready last now)
      → same_bundle s.world.shm last ≡ true
      → Inv gap (record {
        world = record s.world { shm = make_bundle pid now; wins = now ∷ s.world.wins };
        pc = update s.pc pid gone;
      })
  won-Inv pid last now (fits, passed, small) same = record {
    clock_fits = inv.clock_fits;
    shm_fits = make_bundle-FitsFields pid now;
    latest = (pid, refl, small);
    spaced =
        Spaced-won gap now s.world.shm s.world.wins
          (has_passed_ns gap s.world.shm now inv.shm_fits
            (rw (same_bundle_eq s.world.shm last same) passed))
          inv.latest inv.spaced;
    remembers = Remembers-update pid gone tt;
  }

Move-Inv :
    {gap : ℕ} {s : System} (pid : ℕ) {q p : Pc} {w : World}
    → Inv gap s
    → Move gap pid s.world q w p
    → s.pc pid ≡ q
    → Inv gap (record { world = w; pc = update s.pc pid p })
Move-Inv {s = s} pid inv read_word e = keep_world inv pid (loaded s.world.shm) inv.shm_fits
Move-Inv pid inv (too_soon h) e = keep_world inv pid idle tt
Move-Inv pid inv held_back e = keep_world inv pid idle tt
Move-Inv {s = s} pid inv (read_clock {last} h) e =
    keep_world inv pid (ready last s.world.clock) (mine inv pid (loaded last) e, h, inv.clock_fits)
Move-Inv pid inv blocked e = keep_world inv pid idle tt
Move-Inv pid inv (lost h) e = keep_world inv pid idle tt
Move-Inv pid inv (won {last} {now} h) e =
    won-Inv inv pid last now (mine inv pid (ready last now) e) h

Step-Inv : {gap : ℕ} {s t : System} → Step gap s t → Inv gap s → Inv gap t
Step-Inv (tick clock h k) inv = record {
  clock_fits = omega arith;
  shm_fits = inv.shm_fits;
  latest = inv.latest;
  spaced = inv.spaced;
  remembers = inv.remembers;
}
Step-Inv (move pid mv) inv = Move-Inv pid inv mv refl
Step-Inv (start_process pid) inv = keep_world inv pid idle tt

boot-Inv : (gap : ℕ) → Inv gap boot
boot-Inv gap = record {
  clock_fits = omega arith;
  shm_fits = (omega arith, omega arith);
  latest = tt;
  spaced = tt;
  remembers = λ i. tt;
}

Reach-Inv : {gap : ℕ} {s : System} → Reach gap s → Inv gap s
Reach-Inv {gap} start = boot-Inv gap
Reach-Inv (next r st) = Step-Inv st (Reach-Inv r)

-- In every reachable state, whatever the interleaving, each win is later than the win before it by
-- more than `gap` seconds, but for the slack of a truncated time.
pub wins-Spaced : {gap : ℕ} {s : System} → Reach gap s → Spaced gap s.world.wins
wins-Spaced r = (Reach-Inv r).spaced
