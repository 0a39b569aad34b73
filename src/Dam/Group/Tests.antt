-- ===== src/Dam/Group/Tests.antt =====
-- A unit of the group that ended a while ago, and one that runs.
use systemd_cron.Base.{
  ℕ, true, ◌↔◌, List, [], ◌∷◌, ◌≡◌, refl, some, not, ◌||◌, Bytes, codes, all, leb, ◌+◌, ◌*◌,
}
use systemd_cron.Base.Int.{pos, pos_part, ◌-ℤ◌}
use systemd_cron.Dam.Group.Wait.{sleep_exact}
use systemd_cron.Dam.Group.Recognised.{any_ours_iff, HasThrottle}
use systemd_cron.Dam.Group.Quiet.{admits, is_of_group, is_quiet, admits-verdict}
use systemd_cron.Dam.Group.{
  ListedUnit, sleep, admit, is_watched, any_ours, is_running, verdict, zero_time,
}
use systemd_cron.Vore.Timespec.{at, billion}

abbrev self : Bytes
self = codes "/usr/lib/throttle_group"

abbrev group : Bytes
group = codes "backup"

abbrev unit : Bytes → Bytes → ℕ → ListedUnit
unit name state exit = record {
  name = name;
  load_state = codes "loaded";
  active_state = state;
  active_sub_state = codes "dead";
  object = name;
  exec_start_pre = (codes "/bin/true" ∷ []) ∷ (self ∷ codes "--" ∷ group ∷ []) ∷ [];
  exec_main_start = some 1000;
  exec_main_exit = some exit;
}

abbrev rested : List ListedUnit
rested =
    unit (codes "cron-a-0.service") (codes "inactive") 5_000_000
    ∷ unit (codes "cron-mail@b.service") (codes "active") 5_000_000
    ∷ unit (codes "me") (codes "activating") 5_000_000
    ∷ []

-- Ended at 5 s, the unit keeps the group waiting until 305 s.
sleeps_run :
    verdict (at 104_999_999_000) self group (codes "me") rested zero_time
    ≡ sleep (record { tv_sec = pos 200; tv_nsec = 1000 })
unfolding verdict ◌-ℤ◌
sleeps_run = refl

admits_run : verdict (at 305_000_000_000) self group (codes "me") rested zero_time ≡ admit
unfolding verdict ◌-ℤ◌
admits_run = refl

running_run :
    verdict
      (at 905_000_000_000)
      self
      group
      (codes "me")
      (unit (codes "cron-b-0.service") (codes "active") 5_000_000 ∷ rested)
      zero_time
    ≡ sleep (record { tv_sec = pos 300; tv_nsec = 0 })
unfolding verdict ◌-ℤ◌
running_run = refl

-- A unit of the group that runs, but whose first command has three arguments, is missed.
missed_run :
    verdict
      (at 5_000_000_000)
      self
      group
      (codes "me")
      (record (unit (codes "cron-b-0.service") (codes "active") 5_000_000) {
        exec_start_pre =
            (codes "/bin/test" ∷ codes "-f" ∷ codes "-a" ∷ codes "b" ∷ [])
            ∷ (self ∷ group ∷ [])
            ∷ [];
      }
        ∷ [])
      zero_time
    ≡ admit
unfolding verdict
missed_run = refl

admits-verdict_example :
    admits (verdict (at 305_000_000_000) self group (codes "me") rested zero_time)
    ≡ all (λ u. not (is_of_group self group (codes "me") u) || is_quiet 305_000_000_000 u) rested
admits-verdict_example = admits-verdict 305_000_000_000 self group (codes "me") rested

sleep_exact_example :
    admits
      (verdict (at (104_999_999_000 + 200_000_001_000)) self group (codes "me") rested zero_time)
    ≡ leb (pos_part (pos 200) * billion + 1000) 200_000_001_000
unfolding is_watched any_ours is_running
sleep_exact_example =
    sleep_exact 104_999_999_000 self group (codes "me") rested
      (record { tv_sec = pos 200; tv_nsec = 1000 }) 200_000_001_000 refl sleeps_run

-- A throttle of the group behind a command of a single string.
abbrev commands : List (List Bytes)
commands = (codes "/bin/true" ∷ []) ∷ (self ∷ codes "--" ∷ group ∷ []) ∷ []

any_ours_iff_example : (any_ours self group commands ≡ true) ↔ HasThrottle self group commands
any_ours_iff_example = any_ours_iff self group commands
