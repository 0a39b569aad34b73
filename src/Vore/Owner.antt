-- ===== src/Vore/Owner.antt =====
-- `fd`, `FILE`, `DIR` and `mapping` of src/include/libvoreutils.hpp: objects that own a descriptor,
-- a stream or a mapping, and give it back when they end. A resource is a number, of whichever kind.
pub mod Ledger
pub mod Inventory
pub mod Ends
mod Tests
use systemd_cron.Base.{
  ℕ, zero, suc, List, [], ◌∷◌, Option, none, some, Bool, true, false, if◌then◌else◌, ◌==◌, ◌≡◌, ◌+◌,
  ◌-◌, Bytes, codes, equal, ◌≤◌,
}

-- `desc`, `stream` or `map`, and `opened`. `none` is -1, a null pointer, or an empty view.
pub record Owner : Type 0 where
  pub handle : Option ℕ
  pub opened : Bool

abbrev pub empty_owner : Owner
empty_owner = record { handle = none; opened = false }

-- An object for each number: those that are not there yet, or have ended, own nothing.
abbrev pub Owners : Type 0
Owners = List Owner

abbrev pub owner_at : ℕ → Owners → Owner
owner_at i [] = empty_owner
owner_at zero (w ∷ ws) = w
owner_at (suc i) (w ∷ ws) = owner_at i ws

abbrev pub put_owner : ℕ → Owner → Owners → Owners
put_owner zero v [] = v ∷ []
put_owner (suc i) v [] = empty_owner ∷ put_owner i v []
put_owner zero v (w ∷ ws) = v ∷ ws
put_owner (suc i) v (w ∷ ws) = w ∷ put_owner i v ws

-- The objects, the resources that the system has given out and not got back, and those that the
-- program holds without an object, or has forgotten: those of objects that were assigned to.
-- Standard streams are none of them.
pub record System : Type 0 where
  pub owners : Owners
  pub live : List ℕ
  pub loose : List ℕ
  pub forgotten : List ℕ

abbrev pub count : ℕ → List ℕ → ℕ
count r [] = 0
count r (x ∷ xs) = (if x == r then 1 else 0) + count r xs

abbrev pub remove_one : ℕ → List ℕ → List ℕ
remove_one r [] = []
remove_one r (x ∷ xs) = if x == r then xs else x ∷ remove_one r xs

-- What opening comes to: the flags of `open`, or the mode of `fopen`, for "-".
pub data Access : Type 0 where
  reading : Access
  writing : Access
  both : Access

-- The standard stream that "-" stands for.
unfoldable pub standard : Access → Option ℕ
standard reading = some 0
standard writing = some 1
standard both = none

-- What one call of `openat` comes to. It is called anew while it is interrupted.
pub data Attempt : Type 0 where
  interrupted : Attempt
  failed : Attempt
  gave : ℕ → Attempt

unfoldable pub open_at : List Attempt → Option ℕ
open_at [] = none
open_at (interrupted ∷ rest) = open_at rest
open_at (failed ∷ rest) = none
open_at (gave r ∷ rest) = some r

-- `fd(path, flags)`, `FILE(path, opts)`, `DIR(path)` and `mapping(…)`, with the resource that the
-- system gives.
abbrev pub of_resource : Option ℕ → Owner
of_resource none = empty_owner
of_resource (some r) = record { handle = some r; opened = true }

unfoldable pub fd_of_path : Bool → Bytes → Access → List Attempt → Owner
unfolding standard open_at equal
fd_of_path allow_stdio path access attempts =
    let opened : Owner = of_resource (open_at attempts) in
    if allow_stdio
    then (if equal path (codes "-")
        then record { handle = standard access; opened = false }
        else opened)
    else opened

-- `swap`, and the moves of `fd` and `FILE`, which are swaps.
abbrev pub swap_owners : ℕ → ℕ → Owners → Owners
swap_owners i j ws = put_owner i (owner_at j ws) (put_owner j (owner_at i ws) ws)

abbrev pub disowned : Owner → Owner
disowned w = record w { opened = false }

-- The moves of `mapping` and `DIR`: a copy, and the source no longer owns. What the target has owned
-- is not looked at.
abbrev pub move_owner : ℕ → ℕ → Owners → Owners
move_owner i j ws = put_owner j (disowned (owner_at j ws)) (put_owner i (owner_at j ws) ws)

module _ (s : System) where
  unfoldable pub construct : ℕ → Option ℕ → System
  construct i none = record s { owners = put_owner i empty_owner s.owners }
  construct i (some r) = record s {
    owners = put_owner i (of_resource (some r)) s.owners;
    live = r ∷ s.live;
  }

  -- `fd(desc)` and `FILE(desc, opts)`, of a descriptor that no object owns.
  unfoldable pub adopt : ℕ → ℕ → System
  adopt i r = record s {
    owners = put_owner i (of_resource (some r)) s.owners;
    loose = remove_one r s.loose;
  }

  unfoldable pub move_by_swap : ℕ → ℕ → System
  move_by_swap i j = record s { owners = swap_owners i j s.owners }

  unfoldable pub move_by_copy : ℕ → ℕ → System
  move_by_copy i j =
      let w = owner_at i s.owners in
      record s {
        owners = move_owner i j s.owners;
        forgotten =
            if w.opened
            then elim w.handle [ none ↦ s.forgotten | some r ↦ r ∷ s.forgotten ]
            else s.forgotten;
      }

  -- `take`.
  unfoldable pub release : ℕ → System
  release i =
      let w = owner_at i s.owners in
      record s {
        owners = put_owner i (disowned w) s.owners;
        loose =
            if w.opened then elim w.handle [ none ↦ s.loose | some r ↦ r ∷ s.loose ] else s.loose;
      }

  -- `FILE(fd &&, opts)`: the stream owns the descriptor where `fdopen` gives one.
  unfoldable pub stream_of : ℕ → ℕ → Bool → System
  stream_of i j fdopen_works =
      if fdopen_works
      then record s {
        owners =
            put_owner j (disowned (owner_at j s.owners))
              (put_owner i (of_resource (owner_at j s.owners).handle) s.owners);
      }
      else record s { owners = put_owner i empty_owner s.owners }

  -- The destructor.
  unfoldable pub destroy : ℕ → System
  destroy i =
      let w = owner_at i s.owners in
      record s {
        owners = put_owner i empty_owner s.owners;
        live =
            if w.opened
            then elim w.handle [ none ↦ s.live | some r ↦ remove_one r s.live ]
            else s.live;
      }
