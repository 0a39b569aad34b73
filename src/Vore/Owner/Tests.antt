-- ===== src/Vore/Owner/Tests.antt =====
-- A descriptor that becomes a stream, which moves and ends.
use systemd_cron.Base.{ℕ, ◌+◌, ◌≡◌, refl, [], ◌∷◌, none, some, true, false, codes}
use systemd_cron.Vore.Owner.Ends.{destroy_once, ended-live}
use systemd_cron.Vore.Owner.Inventory.{
  Reach, start, next, opens, swaps, streams, destroys, constructs, copies, boot, Balanced,
  Reach-Balanced, owns,
}
use systemd_cron.Vore.Owner.Ledger.{total}
use systemd_cron.Vore.Owner.{
  System, reading, both, interrupted, gave, construct, stream_of, move_by_swap, move_by_copy,
  destroy, owner_at, count, fd_of_path,
}

-- `fd f{…}; FILE s{std::move(f), …}; FILE t = std::move(s);`
abbrev moved : System
unfolding construct stream_of move_by_swap
moved = move_by_swap (construct (stream_of (construct boot 0 (some 7)) 1 0 true) 2 none) 2 1

moved-Reach : Reach moved
unfolding moved
moved-Reach =
    next
      (next (next (next start (opens 0 7 refl refl)) (streams 1 0 true refl refl))
        (constructs 2 refl))
      (swaps 2 1)

Reach-Balanced_example : Balanced moved
Reach-Balanced_example = Reach-Balanced moved-Reach

destroy_once_example :
    (r : ℕ) × ((owner_at 2 moved.owners).handle ≡ some r)
    × (count r moved.live ≡ 1)
    × (count r (destroy moved 2).live ≡ 0)
    × (total (owns r) (destroy moved 2).owners ≡ 0)
unfolding moved
destroy_once_example = destroy_once 2 moved-Reach refl

-- `fd<true>("-", O_RDWR)` has no descriptor, and one that is interrupted is opened anew.
dash_run : fd_of_path true (codes "-") reading [] ≡ record { handle = some 0; opened = false }
unfolding fd_of_path
dash_run = refl

retry_run : (fd_of_path false (codes "-") both (interrupted ∷ gave 5 ∷ [])).handle ≡ some 5
unfolding fd_of_path
retry_run = refl

-- Assigning a mapping to one that is open forgets what that one had mapped.
abbrev leaked : System
unfolding construct move_by_copy destroy
leaked = destroy (destroy (move_by_copy (construct (construct boot 0 (some 7)) 1 (some 8)) 0 1) 0) 1

leaked-Reach : Reach leaked
unfolding leaked
leaked-Reach =
    next
      (next (next (next (next start (opens 0 7 refl refl)) (opens 1 8 refl refl)) (copies 0 1))
        (destroys 0))
      (destroys 1)

leak_run : (leaked.live ≡ 7 ∷ []) × (leaked.forgotten ≡ 7 ∷ [])
unfolding leaked
leak_run = (refl, refl)

ended-live_example : count 7 leaked.live ≡ count 7 leaked.loose + count 7 leaked.forgotten
unfolding leaked
ended-live_example = ended-live leaked-Reach refl 7
