-- ===== src/Vore/Owner/Inventory.antt =====
-- No resource has two owners, none is given back twice, and none is lost but by the assignment of a
-- mapping to one that owns.
use systemd_cron.Base.{
  ℕ, ◌+◌, ◌≤◌, ◌≡◌, refl, ap, subst, [], Option, none, some, Bool, true, false, if◌then◌else◌, ◌==◌,
  arith, Bool-cases, inl, inr,
}
use systemd_cron.Vore.Owner.Ledger.{
  total, total-put, at-le-total, at-put_other, total-swap_owners, total-move_owner,
  count-remove_one,
}
use systemd_cron.Vore.Owner.{
  Owner, Owners, System, empty_owner, owner_at, put_owner, disowned, count, of_resource, construct,
  adopt, move_by_swap, move_by_copy, release, stream_of, destroy,
}

-- One operation on the objects of a program. An object is made where there is none; a descriptor
-- that is adopted has no object; a stream is made of a descriptor that is owned.
pub data Step (s : System) : System → Type 0 where
  constructs : (i : ℕ) → (owner_at i s.owners).opened ≡ false → Step s (construct s i none)
  opens :
      (i r : ℕ)
      → (owner_at i s.owners).opened ≡ false
      → count r s.live ≡ 0
      → Step s (construct s i (some r))
  adopts :
      (i r : ℕ) → (owner_at i s.owners).opened ≡ false → 1 ≤ count r s.loose → Step s (adopt s i r)
  swaps : (i j : ℕ) → Step s (move_by_swap s i j)
  copies : (i j : ℕ) → Step s (move_by_copy s i j)
  releases : (i : ℕ) → Step s (release s i)
  streams :
      (i j : ℕ) (fdopen_works : Bool)
      → (owner_at i s.owners).opened ≡ false
      → (owner_at j s.owners).opened ≡ true
      → Step s (stream_of s i j fdopen_works)
  destroys : (i : ℕ) → Step s (destroy s i)

abbrev pub boot : System
boot = record { owners = []; live = []; loose = []; forgotten = [] }

pub data Reach : System → Type 0 where
  start : Reach boot
  next : {s t : System} → Reach s → Step s t → Reach t

-- Does the object own the resource?
abbrev pub owns : ℕ → Owner → ℕ
owns r w = if w.opened then elim w.handle [ none ↦ 0 | some q ↦ if q == r then 1 else 0 ] else 0

-- Does the object own nothing that could be given back, and yet try to?
abbrev pub is_void : Owner → ℕ
is_void w = if w.opened then elim w.handle [ none ↦ 1 | some q ↦ 0 ] else 0

-- Each resource is with one object or with the program, or is forgotten, if the system has given it
-- out, and none of these otherwise; and every object that owns has a resource.
pub record Balanced (s : System) : Type 0 where
  pub balance :
      (r : ℕ) → total (owns r) s.owners + count r s.loose + count r s.forgotten ≡ count r s.live
  pub once : (r : ℕ) → count r s.live ≤ 1
  pub sound : total is_void s.owners ≡ 0

construct-Balanced :
    (s : System) (i : ℕ)
    → (owner_at i s.owners).opened ≡ false
    → Balanced s
    → Balanced (construct s i none)
unfolding construct
construct-Balanced s i dead b = record {
  balance = λ r. ground (arith, b.balance r, dead, total-put (owns r) refl i empty_owner s.owners);
  once = b.once;
  sound = ground (arith, b.sound, dead, total-put is_void refl i empty_owner s.owners);
}

opens-Balanced :
    (s : System) (i q : ℕ)
    → (owner_at i s.owners).opened ≡ false
    → count q s.live ≡ 0
    → Balanced s
    → Balanced (construct s i (some q))
unfolding construct
opens-Balanced s i q dead fresh b =
    let w = of_resource (some q) in
    record {
      balance = λ r. ground (arith, b.balance r, dead, total-put (owns r) refl i w s.owners);
      once = λ r. elim (Bool-cases (q == r)) [
        | inl e ↦ ground (arith, fresh, b.once r, e)
        | inr e ↦ ground (arith, b.once r, e)
      ];
      sound = ground (arith, b.sound, dead, total-put is_void refl i w s.owners);
    }

adopt-Balanced :
    (s : System) (i q : ℕ)
    → (owner_at i s.owners).opened ≡ false
    → 1 ≤ count q s.loose
    → Balanced s
    → Balanced (adopt s i q)
unfolding adopt
adopt-Balanced s i q dead there b =
    let w = of_resource (some q) in
    record {
      balance = λ r. ground (
        arith,
        b.balance r,
        dead,
        total-put (owns r) refl i w s.owners,
        count-remove_one r q s.loose there,
      );
      once = b.once;
      sound = ground (arith, b.sound, dead, total-put is_void refl i w s.owners);
    }

swap-Balanced : (s : System) (i j : ℕ) → Balanced s → Balanced (move_by_swap s i j)
unfolding move_by_swap
swap-Balanced s i j b = record {
  balance = λ r. omega (arith, b.balance r, total-swap_owners (owns r) refl i j s.owners);
  once = b.once;
  sound = omega (arith, b.sound, total-swap_owners is_void refl i j s.owners);
}

copy-Balanced : (s : System) (i j : ℕ) → Balanced s → Balanced (move_by_copy s i j)
unfolding move_by_copy
copy-Balanced s i j b =
    let none_void = total-move_owner is_void refl i j s.owners refl in
    record {
      balance = λ r. ground (arith, b.balance r, total-move_owner (owns r) refl i j s.owners refl);
      once = b.once;
      sound = omega (arith, b.sound, none_void);
    }

-- An object that owns has a resource.
pub handle_of :
    (s : System) (i : ℕ)
    → Balanced s
    → (owner_at i s.owners).opened ≡ true
    → (r : ℕ) × ((owner_at i s.owners).handle ≡ some r)
handle_of s i b owned = go (owner_at i s.owners).handle refl
  where
    go :
        (h : Option ℕ)
        → (owner_at i s.owners).handle ≡ h
        → (r : ℕ) × ((owner_at i s.owners).handle ≡ some r)
    go none e = absurd (ground (arith, b.sound, at-le-total is_void refl i s.owners, owned, e))
    go (some r) e = (r, e)

release-Balanced : (s : System) (i : ℕ) → Balanced s → Balanced (release s i)
unfolding release
release-Balanced s i b =
    let w = disowned (owner_at i s.owners) in
    record {
      balance = λ r. ground (arith, b.balance r, total-put (owns r) refl i w s.owners);
      once = b.once;
      sound = ground (arith, b.sound, total-put is_void refl i w s.owners);
    }

apart :
    (ws : Owners) (i j : ℕ)
    → (owner_at i ws).opened ≡ false
    → (owner_at j ws).opened ≡ true
    → (j == i) ≡ false
apart ws i j dead owned = elim (Bool-cases (j == i)) [
  | inr e ↦ e
  | inl e ↦
      let same : j ≡ i = ground arith in
      let clash : (owner_at i ws).opened ≡ true =
        subst (λ k. (owner_at k ws).opened ≡ true) same owned in
      cc
]

stream_of-Balanced :
    (s : System) (i j : ℕ) (works : Bool)
    → (owner_at i s.owners).opened ≡ false
    → (owner_at j s.owners).opened ≡ true
    → Balanced s
    → Balanced (stream_of s i j works)
unfolding stream_of construct
stream_of-Balanced s i j false dead owned b = construct-Balanced s i dead b
stream_of-Balanced s i j true dead owned b =
    let (q, e) = handle_of s j b owned in
    let w = of_resource (owner_at j s.owners).handle in
    let kept = at-put_other j i w s.owners (apart s.owners i j dead owned) in
    let ws = put_owner i w s.owners in
    record {
      balance = λ r. ground (
        arith,
        b.balance r,
        e,
        dead,
        owned,
        ap (owns r) kept,
        total-put (owns r) refl i w s.owners,
        total-put (owns r) refl j (disowned (owner_at j s.owners)) ws,
      );
      once = b.once;
      sound = ground (
        arith,
        b.sound,
        e,
        dead,
        owned,
        ap is_void kept,
        total-put is_void refl i w s.owners,
        total-put is_void refl j (disowned (owner_at j s.owners)) ws,
      );
    }

-- What the destructor gives back was out, and is out no more.
destroy-Balanced : (s : System) (i : ℕ) → Balanced s → Balanced (destroy s i)
unfolding destroy construct
destroy-Balanced s i b = elim (Bool-cases (owner_at i s.owners).opened) [
  | inr dead ↦ rw dead (construct-Balanced s i dead b)
  | inl owned ↦
      let (q, e) = handle_of s i b owned in
      let there : 1 ≤ count q s.live =
        ground (arith, b.balance q, e, owned, at-le-total (owns q) refl i s.owners) in
      rw (owned, e)
        (record {
          balance = λ r. ground (
            arith,
            b.balance r,
            e,
            owned,
            total-put (owns r) refl i empty_owner s.owners,
            count-remove_one r q s.live there,
          );
          once = λ r. ground (arith, b.once r, count-remove_one r q s.live there);
          sound = ground (arith, b.sound, e, owned, total-put is_void refl i empty_owner s.owners);
        })
]

Step-Balanced : {s t : System} → Step s t → Balanced s → Balanced t
Step-Balanced {s} (constructs i dead) b = construct-Balanced s i dead b
Step-Balanced {s} (opens i r dead fresh) b = opens-Balanced s i r dead fresh b
Step-Balanced {s} (adopts i r dead there) b = adopt-Balanced s i r dead there b
Step-Balanced {s} (swaps i j) b = swap-Balanced s i j b
Step-Balanced {s} (copies i j) b = copy-Balanced s i j b
Step-Balanced {s} (releases i) b = release-Balanced s i b
Step-Balanced {s} (streams i j works dead owned) b = stream_of-Balanced s i j works dead owned b
Step-Balanced {s} (destroys i) b = destroy-Balanced s i b

-- Whatever a program does with its objects, as long as it makes an object where there is none that
-- owns, adopts what was taken, and makes a stream of a descriptor that is owned: each resource that
-- the system has given out and not got back is with exactly one object, or taken from it, or
-- forgotten by the assignment of a mapping to the one that owned it; any other is none of these; and
-- an object that owns has a resource.
pub Reach-Balanced : {s : System} → Reach s → Balanced s
Reach-Balanced start = record { balance = λ r. refl; once = λ r. omega arith; sound = refl }
Reach-Balanced (next reach step) = Step-Balanced step (Reach-Balanced reach)
