-- ===== src/Vore/Owner/Ends.antt =====
-- What the end of the objects leaves: each resource given back once, but for those taken or forgotten.
use systemd_cron.Base.{ℕ, ◌+◌, ◌≤◌, ◌≡◌, refl, [], ◌∷◌, some, true, arith, all, not}
use systemd_cron.Vore.Owner.Ledger.{total, total-put, at-le-total, count-remove_one}
use systemd_cron.Vore.Owner.{Owners, System, empty_owner, owner_at, count, destroy}
use systemd_cron.Vore.Owner.Inventory.{Reach, Reach-Balanced, owns, handle_of}

-- Where an object that owns ends, its resource was out, it is out no more, and no object owns it.
pub destroy_once :
    {s : System} (i : ℕ)
    → Reach s
    → (owner_at i s.owners).opened ≡ true
    → (r : ℕ) × ((owner_at i s.owners).handle ≡ some r)
      × (count r s.live ≡ 1)
      × (count r (destroy s i).live ≡ 0)
      × (total (owns r) (destroy s i).owners ≡ 0)
unfolding destroy
destroy_once {s} i reach owned =
    let b = Reach-Balanced reach in
    let (q, e) = handle_of s i b owned in
    let once = b.once q in
    let there : 1 ≤ count q s.live =
      ground (arith, b.balance q, e, owned, at-le-total (owns q) refl i s.owners) in
    let given = count-remove_one q q s.live there in
    let left = total-put (owns q) refl i empty_owner s.owners in
    (
      q,
      e,
      omega (arith, once, there),
      rw (owned, e) (ground (arith, once, there, given)),
      ground (arith, b.balance q, once, there, left, e, owned),
    )

idle_total : (r : ℕ) (ws : Owners) → all (λ w. not w.opened) ws ≡ true → total (owns r) ws ≡ 0
idle_total r [] h = refl
idle_total r (w ∷ ws) h = ground (arith, idle_total r ws)

-- Where no object of a program owns any more, what is still out is what was taken from them, or
-- forgotten by the assignment of a mapping to one that owned.
pub ended-live :
    {s : System}
    → Reach s
    → all (λ w. not w.opened) s.owners ≡ true
    → (r : ℕ) → count r s.live ≡ count r s.loose + count r s.forgotten
ended-live {s} reach idle r =
    omega (arith, (Reach-Balanced reach).balance r, idle_total r s.owners idle)
