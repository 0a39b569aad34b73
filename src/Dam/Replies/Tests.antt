-- ===== src/Dam/Replies/Tests.antt =====
-- Two units whose times come in crosswise.
use systemd_cron.Base.{ℕ, [], ◌∷◌, ◌≡◌, refl, some, true, false, Bytes, codes, equal, contains}
use systemd_cron.Base.Int.{pos, ◌-ℤ◌}
use systemd_cron.Dam.Group.{ListedUnit, sleep, verdict, zero_time, is_watched}
use systemd_cron.Dam.Replies.Rounds.{outcome-verdict}
use systemd_cron.Dam.Replies.{
  Round, Reach, here, next, reply, names, starts, exits, asking, is_over, outcome,
  on_exec_start_pre, on_start, on_exit, request,
}
use systemd_cron.Vore.Timespec.{at, Timespec}

abbrev self : Bytes
self = codes "/usr/lib/throttle_group"

abbrev unit : Bytes → ℕ → ListedUnit
unit name exit = record {
  name = name;
  load_state = codes "loaded";
  active_state = codes "inactive";
  active_sub_state = codes "dead";
  object = name;
  exec_start_pre = (self ∷ codes "g" ∷ []) ∷ [];
  exec_main_start = some 1000;
  exec_main_exit = some exit;
}

abbrev a : ListedUnit
a = unit (codes "cron-a-0.service") 5_000_000

abbrev b : ListedUnit
b = unit (codes "cron-b-0.service") 9_000_000

abbrev now : Timespec
now = at 109_000_000_000

-- The reply about b's exit before its start, and a's in between.
crosswise :
    (r : Round) × Reach now self (codes "g") (asking (codes "me") (a ∷ b ∷ [])) r
    × (is_over r ≡ true)
    × (outcome r ≡ sleep (record { tv_sec = pos 200; tv_nsec = 0 }))
unfolding asking on_exec_start_pre on_start on_exit outcome ◌-ℤ◌ is_watched equal contains
crosswise = (
  _,
  next
      (next
        (next
          (next
            (next (next here (reply (request a ∷ []) [] _ _ refl refl (names refl)))
              (reply [] (_ ∷ []) _ _ refl refl (names refl)))
            (reply (_ ∷ []) [] _ _ refl refl (exits true refl)))
          (reply [] (_ ∷ []) _ _ refl refl (starts true refl)))
        (reply [] (_ ∷ []) _ _ refl refl (exits false refl)))
      (reply (_ ∷ []) [] _ _ refl refl (starts false refl)),
  refl,
  refl,
)

outcome-verdict_example :
    outcome crosswise.0 ≡ verdict now self (codes "g") (codes "me") (a ∷ b ∷ []) zero_time
outcome-verdict_example =
    outcome-verdict now self (codes "g") (codes "me") (a ∷ b ∷ []) crosswise.0 crosswise.1
      crosswise.2
