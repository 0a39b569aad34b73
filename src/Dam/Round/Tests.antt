-- ===== src/Dam/Round/Tests.antt =====
-- A round of the throttle that lets its job go, and the targets of the two programs.
use systemd_cron.Base.{[], ◌∷◌, ◌≡◌, refl, some, true, false, not, ◌||◌, Bytes, codes, all}
use systemd_cron.Base.Int.{◌-ℤ◌}
use systemd_cron.Dam.Bundle.{make_bundle, zero_bundle, bundle_time}
use systemd_cron.Dam.Group.Quiet.{is_of_group, is_quiet}
use systemd_cron.Dam.Group.{ListedUnit}
use systemd_cron.Dam.Options.{Floating, dam_arguments, group_arguments, below, refused}
use systemd_cron.Dam.Race.{World, Move, loaded, ready, gone}
use systemd_cron.Dam.Round.{group_round, lets_go, group_round-Move}
use systemd_cron.Vore.Timespec.{later, minus}

abbrev self : Bytes
self = codes "/usr/lib/throttle_group"

abbrev resting : ListedUnit
resting = record {
  name = codes "cron-a-0.service";
  load_state = codes "loaded";
  active_state = codes "inactive";
  active_sub_state = codes "dead";
  object = codes "a";
  exec_start_pre = (self ∷ codes "backup" ∷ []) ∷ [];
  exec_main_start = some 1000;
  exec_main_exit = some 5_000_000;
}

abbrev world : World
world = record { shm = zero_bundle; clock = 305_000_000_000; wins = [] }

lets_go_run :
    group_round 5 7 self
      (codes "backup")
      (codes "me")
      true
      zero_bundle
      world.clock
      (resting ∷ [])
      zero_bundle
    ≡ lets_go (make_bundle 7 305_000_000_000)
unfolding group_round ◌-ℤ◌ bundle_time later minus
lets_go_run = refl

group_round-Move_example :
    Move 5 7 world (loaded zero_bundle) world (ready zero_bundle world.clock)
    × ((v : World)
        → v.shm ≡ zero_bundle
        → Move 5 7 v
            (ready zero_bundle world.clock)
            (record v { shm = make_bundle 7 305_000_000_000; wins = world.clock ∷ v.wins })
            gone)
    × (all
          (λ u. not (is_of_group self (codes "backup") (codes "me") u) || is_quiet world.clock u)
          (resting ∷ [])
        ≡ true)
group_round-Move_example =
    group_round-Move 5 7 self (codes "backup") (codes "me") true zero_bundle
      (make_bundle 7 305_000_000_000) (resting ∷ []) zero_bundle world lets_go_run

-- A text of two bytes that strtod reads whole, as a number below nought.
abbrev strtod : Bytes → Floating
strtod val = record {
  consumed = 2;
  errno = 0;
  is_nought = false;
  is_nan = false;
  not_positive = true;
}

-- loadavg_dam takes a target below nought, and throttle_group does not.
negative_run : dam_arguments (λ n. []) strtod (codes "--" ∷ codes "-1" ∷ []) ≡ below (codes "-1")
unfolding dam_arguments
negative_run = refl

negative_group_run :
    group_arguments (λ n. []) strtod (codes "g" ∷ codes "-1" ∷ []) ≡ refused (codes "<= 0")
unfolding group_arguments
negative_group_run = refl
