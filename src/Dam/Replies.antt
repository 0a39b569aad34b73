-- ===== src/Dam/Replies.antt =====
-- The replies of the service manager to a round of `throttle_group`: for each unit that it watches,
-- the round asks for ExecStartPre, and for a unit of its group that does not run, for its two times.
-- The replies come in any order. The round ends at the first unit that wins, or when none is due.
pub mod Order
pub mod Rounds
mod Tests
use systemd_cron.Base.{
  ℕ, List, [], ◌∷◌, ◌++◌, ◌≡◌, Option, none, some, Bool, true, false, not, ◌&&◌, ◌||◌,
  if◌then◌else◌, Bytes, map, keep, all,
}
use systemd_cron.Dam.Group.{
  ListedUnit, blanking_interval, zero_time, any_ours, is_running, Settled, wins, rests,
  settle_times, is_watched, max_time, Verdict, admit, sleep, is_zero,
}
use systemd_cron.Vore.Timespec.{Timespec}

-- Which replies are due: `slot`, and the two slots of the times.
pub data Stage : Type 0 where
  asked : Stage
  timing : (start_due : Bool) (exit_due : Bool) → Stage
  answered : Stage

-- A unit of `listed_units`, with the times that have come in and the time to sleep for it.
pub record Request : Type 0 where
  pub unit : ListedUnit
  pub stage : Stage
  pub start : Option ℕ
  pub exit : Option ℕ
  pub result : Timespec

abbrev pub request : ListedUnit → Request
request unit = record { unit = unit; stage = asked; start = none; exit = none; result = zero_time }

-- `winner`, and what the callback has made of the unit.
abbrev pub Reply : Type 0
Reply = Request × Bool

abbrev pub stage_of : Bool → Bool → Stage
stage_of start_due exit_due =
    if start_due
    then timing start_due exit_due
    else (if exit_due then timing start_due exit_due else answered)

pub record Round : Type 0 where
  pub requests : List Request
  pub winner : Bool

module _ (now : Timespec) (self group : Bytes) where
  -- A return of -1 leaves the request as one of a unit that is not of the group.
  unfoldable pub on_exec_start_pre : Request → Reply
  unfolding any_ours is_running
  on_exec_start_pre q =
      if not (any_ours self group q.unit.exec_start_pre)
      then (record q { stage = answered }, false)
      else if is_running q.unit
      then (record q { stage = answered; result = blanking_interval }, true)
      else (record q { stage = timing true true }, false)

  -- What the two times come to, once both are there. `none` is one that is not, or could not be read.
  unfoldable pub weigh : Request → Reply
  unfolding settle_times
  weigh q = elim (settle_times now q.start q.exit) [
    | wins ↦ (record q { result = blanking_interval }, true)
    | rests t ↦ (record q { result = t }, false)
  ]

  unfoldable pub on_start : Bool → Request → Reply
  unfolding weigh
  on_start exit_due q =
      weigh (record q { stage = stage_of false exit_due; start = q.unit.exec_main_start })

  unfoldable pub on_exit : Bool → Request → Reply
  unfolding weigh
  on_exit start_due q =
      weigh (record q { stage = stage_of start_due false; exit = q.unit.exec_main_exit })

  -- A reply that is due, to one of the units.
  pub data Answer (q : Request) : Reply → Type 0 where
    names : q.stage ≡ asked → Answer q (on_exec_start_pre q)
    starts : (exit_due : Bool) → q.stage ≡ timing true exit_due → Answer q (on_start exit_due q)
    exits : (start_due : Bool) → q.stage ≡ timing start_due true → Answer q (on_exit start_due q)

  -- While there is no winner, the round takes one reply at a time.
  pub data Step (r : Round) : Round → Type 0 where
    reply :
        (xs ys : List Request) (q : Request) (a : Reply)
        → r.requests ≡ xs ++ q ∷ ys
        → r.winner ≡ false
        → Answer q a
        → Step r (record { requests = xs ++ a.0 ∷ ys; winner = a.1 })

  pub data Reach (r : Round) : Round → Type 0 where
    here : Reach r r
    next : {s t : Round} → Reach r s → Step s t → Reach r t

-- The round once it has asked for ExecStartPre.
unfoldable pub asking : Bytes → List ListedUnit → Round
unfolding is_watched
asking self_object units = record {
  requests = map request (keep (is_watched self_object) units);
  winner = false;
}

abbrev pub is_answered : Request → Bool
is_answered q = elim q.stage [ asked ↦ false | timing a b ↦ false | answered ↦ true ]

abbrev pub is_over : Round → Bool
is_over r = r.winner || all is_answered r.requests

unfoldable pub longest : List Request → Timespec → Timespec
unfolding max_time
longest [] acc = acc
longest (q ∷ qs) acc = longest qs (max_time q.result acc)

-- What the round does then.
unfoldable pub outcome : Round → Verdict
unfolding longest
outcome r =
    let time = longest r.requests zero_time in
    if r.winner then sleep blanking_interval else if is_zero time then admit else sleep time
