-- ===== src/Dam/Group.antt =====
-- src/bin/throttle_group.cpp: what a round makes of the units that the service manager lists, and
-- of their properties. `none` stands for a property that could not be read.
pub mod Quiet
pub mod Recognised
pub mod Wait
mod Tests
use systemd_cron.Base.Int.{pos, negsuc}
use systemd_cron.Base.{
  ℕ, ◌*◌, ◌/◌, ◌%◌, List, [], ◌∷◌, Option, none, some, Bool, true, false, not, ◌&&◌, ◌||◌, ◌==◌,
  if◌then◌else◌, Bytes, codes, equal, contains,
}
use systemd_cron.Vore.Timespec.{Timespec, later, minus}

-- `ExecStartPre` is the list of the commands, each with its path in front of its arguments.
pub record ListedUnit : Type 0 where
  pub name : Bytes
  pub load_state : Bytes
  pub active_state : Bytes
  pub active_sub_state : Bytes
  pub object : Bytes
  pub exec_start_pre : List (List Bytes)
  pub exec_main_start : Option ℕ
  pub exec_main_exit : Option ℕ

abbrev pub blanking_interval : Timespec
blanking_interval = record { tv_sec = pos 300; tv_nsec = 0 }

abbrev pub zero_time : Timespec
zero_time = record { tv_sec = pos 0; tv_nsec = 0 }

-- A number of microseconds.
unfoldable pub of_usec : ℕ → Timespec
of_usec usec = record { tv_sec = pos (usec / 1_000_000); tv_nsec = usec % 1_000_000 * 1000 }

-- Is this command a throttle of the group?
unfoldable pub is_ours : Bytes → Bytes → List Bytes → Bool
unfolding equal
is_ours self group [] = false
is_ours self group (program ∷ []) = false
is_ours self group (program ∷ arg ∷ []) =
    not (equal arg (codes "--")) && (equal program self && equal arg group)
is_ours self group (program ∷ arg ∷ next ∷ args) =
    equal program self && equal (if equal arg (codes "--") then next else arg) group

-- After the strings that are looked at, at most one more is read. Where one is left,
-- `sd_bus_message_exit_container` fails.
unfoldable pub is_read_whole : List Bytes → Bool
unfolding equal
is_read_whole [] = true
is_read_whole (program ∷ []) = true
is_read_whole (program ∷ arg ∷ []) = true
is_read_whole (program ∷ arg ∷ next ∷ []) = true
is_read_whole (program ∷ arg ∷ next ∷ more ∷ []) = equal arg (codes "--")
is_read_whole (program ∷ arg ∷ next ∷ more ∷ last ∷ args) = false

-- The commands are looked at in order, up to the first that is ours, and up to one that is not read
-- to its end: there the callback returns -1.
unfoldable pub any_ours : Bytes → Bytes → List (List Bytes) → Bool
unfolding is_ours is_read_whole
any_ours self group [] = false
any_ours self group (argv ∷ rest) =
    is_ours self group argv || (is_read_whole argv && any_ours self group rest)

unfoldable pub is_running : ListedUnit → Bool
unfolding equal
is_running unit =
    (equal unit.active_state (codes "activating")
      && not (equal unit.active_sub_state (codes "start-pre")))
    || equal unit.active_state (codes "active")
    || equal unit.active_state (codes "reloading")

-- What the callbacks make of a unit: the winner, or the time to sleep for it.
pub data Settled : Type 0 where
  wins : Settled
  rests : Timespec → Settled

-- What the times of the unit come to, once both are there.
unfoldable pub settle_times : Timespec → Option ℕ → Option ℕ → Settled
unfolding of_usec later minus
settle_times now none exit = rests zero_time
settle_times now (some start) none = rests zero_time
settle_times now (some start) (some exit) =
    if later (of_usec start) (of_usec exit)
    then wins
    else rests (minus blanking_interval (minus now (of_usec exit)))

unfoldable pub settle : Timespec → Bytes → Bytes → ListedUnit → Settled
unfolding any_ours is_running settle_times
settle now self group unit =
    if not (any_ours self group unit.exec_start_pre)
    then rests zero_time
    else if is_running unit
    then wins
    else settle_times now unit.exec_main_start unit.exec_main_exit

-- Is the unit among those whose properties the round asks for?
unfoldable pub is_watched : Bytes → ListedUnit → Bool
unfolding contains equal
is_watched self_object unit =
    not (contains b'@' unit.name)
    && equal unit.load_state (codes "loaded")
    && not (equal unit.object self_object)

-- `std::max`.
unfoldable pub max_time : Timespec → Timespec → Timespec
unfolding later
max_time a b = if later b a then b else a

-- What the round comes to before the compare-exchange: let the job go, or sleep.
pub data Verdict : Type 0 where
  admit : Verdict
  sleep : Timespec → Verdict

abbrev pub is_zero : Timespec → Bool
is_zero t = elim t.tv_sec [ pos s ↦ s == 0 && t.tv_nsec == 0 | negsuc s ↦ false ]

-- A winner decides at once. Otherwise the longest sleep does, `acc` so far. The units are in the
-- order of `listed_units`, the last one listed first.
unfoldable pub verdict : Timespec → Bytes → Bytes → Bytes → List ListedUnit → Timespec → Verdict
unfolding settle is_watched max_time
verdict now self group self_object [] acc = if is_zero acc then admit else sleep acc
verdict now self group self_object (unit ∷ units) acc =
    let skipped = verdict now self group self_object units acc in
    if not (is_watched self_object unit) then skipped else elim (settle now self group unit) [
      | wins ↦ sleep blanking_interval
      | rests t ↦ verdict now self group self_object units (max_time t acc)
    ]
