-- ===== src/Dam/Race.antt =====
-- The loop of `loadavg_dam`, and the admission of `throttle_group`, run by any number of processes
-- on one word. A process reads the word, reads the clock, and lets its job go if more than `gap`
-- seconds have passed and its own condition holds (a low load; no job of the group running), with
-- a compare-exchange against the word that it read. Each access is one step.
pub mod Spacing
use systemd_cron.Base.{ℕ, ◌*◌, ◌≤◌, ◌<◌, ◌≡◌, List, [], ◌∷◌, Bool, true, false, ◌==◌, if◌then◌else◌}
use systemd_cron.Dam.Bundle.{Bundle, make_bundle, bundle_time, same_bundle, zero_bundle}
use systemd_cron.Vore.Timespec.{later, minus, billion, at}

-- `(now - last) > gap`, with `now` in nanoseconds.
unfoldable pub has_passed : ℕ → Bundle → ℕ → Bool
has_passed gap last now = later (minus (at now) (bundle_time last)) (at (gap * billion))

-- Where a process stands in its round, with its local variables.
pub data Pc : Type 0 where
  idle : Pc
  loaded : (last : Bundle) → Pc
  ready : (last : Bundle) (now : ℕ) → Pc
  gone : Pc

-- The memory that the processes share, the monotonic clock, and the wins so far, the last first.
pub record World : Type 0 where
  pub shm : Bundle
  pub clock : ℕ
  pub wins : List ℕ

-- One step of the process `pid`. Sleeping, a load that is too high, and a unit of the group that
-- runs all lead back to `idle`; the relation leaves open when they do.
pub data Move (gap pid : ℕ) (w : World) : Pc → World → Pc → Type 0 where
  read_word : Move gap pid w idle w (loaded w.shm)
  too_soon :
      {last : Bundle} → has_passed gap last w.clock ≡ false → Move gap pid w (loaded last) w idle
  held_back : {last : Bundle} → Move gap pid w (loaded last) w idle
  read_clock :
      {last : Bundle}
      → has_passed gap last w.clock ≡ true
      → Move gap pid w (loaded last) w (ready last w.clock)
  blocked : {last : Bundle} {now : ℕ} → Move gap pid w (ready last now) w idle
  lost :
      {last : Bundle} {now : ℕ}
      → same_bundle w.shm last ≡ false
      → Move gap pid w (ready last now) w idle
  won :
      {last : Bundle} {now : ℕ}
      → same_bundle w.shm last ≡ true
      → Move gap pid w
          (ready last now)
          (record w { shm = make_bundle pid now; wins = now ∷ w.wins })
          gone

abbrev update {ℓ} : {A : Type ℓ} → (ℕ → A) → ℕ → A → ℕ → A
update f i a j = if i == j then a else f j

pub record System : Type 0 where
  pub world : World
  pub pc : ℕ → Pc

-- The clock runs for less than 2 ^ 32 seconds, as the comment of the bit field says. A process
-- that has let its job go may be started anew.
pub data Step (gap : ℕ) (s : System) : System → Type 0 where
  tick :
      (clock : ℕ)
      → s.world.clock ≤ clock
      → clock < 4294967296 * billion
      → Step gap s
          (record s { world = record { shm = s.world.shm; clock = clock; wins = s.world.wins } })
  move :
      (pid : ℕ) {w : World} {p : Pc}
      → Move gap pid s.world (s.pc pid) w p
      → Step gap s (record { world = w; pc = update s.pc pid p })
  start_process : (pid : ℕ) → Step gap s (record s { pc = update s.pc pid idle })

abbrev pub boot : System
boot = record { world = record { shm = zero_bundle; clock = 0; wins = [] }; pc = λ _. idle }

pub data Reach (gap : ℕ) : System → Type 0 where
  start : Reach gap boot
  next : {s t : System} → Reach gap s → Step gap s t → Reach gap t
