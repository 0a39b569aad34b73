-- ===== src/Dam/Tests.antt =====
-- Two processes that let their jobs go, and the theorems of the dam at concrete inputs.
use systemd_cron.Base.Int.{◌-ℤ◌}
use systemd_cron.Base.{◌+◌, ◌≤◌, ◌<◌, ◌≡◌, refl, [], ◌∷◌, arith}
use systemd_cron.Dam.Bundle.{zero_bundle, make_bundle, bundle_time, bundle_ns, make_bundle_time}
use systemd_cron.Dam.Race.Spacing.{Spaced, wins-Spaced}
use systemd_cron.Dam.Race.{
  has_passed, System, Reach, start, next, tick, move, read_word, read_clock, won,
}
use systemd_cron.Vore.Timespec.{later, minus}

make_bundle_time_example :
    (bundle_ns (make_bundle 300 1_999_999_999) ≤ 1_999_999_999)
    × (1_999_999_999 < bundle_ns (make_bundle 300 1_999_999_999) + 976564)
make_bundle_time_example = make_bundle_time 300 1_999_999_999 (omega arith)

abbrev Reached : System → Type 0
Reached s = Reach 30 s

-- From a state on, process `pid` waits for the clock and wins.
one_win : (s : System) × Reached s × (s.world.wins ≡ 31_000_000_000 ∷ [])
unfolding has_passed later minus bundle_time ◌-ℤ◌
one_win = (
  _,
  next
      (next (next (next start (tick 31_000_000_000 (omega arith) (omega arith))) (move 7 read_word))
        (move 7 (read_clock {last = zero_bundle} refl)))
      (move 7 (won {last = zero_bundle} {now = 31_000_000_000} refl)),
  refl,
)

two_wins : (s : System) × Reached s × (s.world.wins ≡ 62_000_000_000 ∷ 31_000_000_000 ∷ [])
unfolding one_win has_passed later minus bundle_time make_bundle
two_wins = (
  _,
  next
      (next
        (next (next one_win.1 (tick 62_000_000_000 (omega arith) (omega arith))) (move 8 read_word))
        (move 8 (read_clock {last = make_bundle 7 31_000_000_000} refl)))
      (move 8 (won {last = make_bundle 7 31_000_000_000} {now = 62_000_000_000} refl)),
  refl,
)

wins-Spaced_example : Spaced 30 (two_wins.0).world.wins
wins-Spaced_example = wins-Spaced two_wins.1
