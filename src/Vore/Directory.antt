-- ===== src/Vore/Directory.antt =====
-- `DIR` and `DIR_iter` of src/include/libvoreutils.hpp: the entries of a directory, without "." and
-- "..".
use systemd_cron.Base.{
  List, [], ◌∷◌, Bool, ◌||◌, Bytes, codes, equal, if◌then◌else◌, ◌≡◌, refl, arith,
}

pub data EntryType : Type 0 where
  dt_unknown : EntryType
  dt_lnk : EntryType
  dt_reg : EntryType
  dt_other : EntryType

pub record Dirent : Type 0 where
  pub d_name : Bytes
  pub d_type : EntryType

abbrev pub is_dots : Dirent → Bool
is_dots e = equal e.d_name (codes ".") || equal e.d_name (codes "..")

-- `operator++`: what is left of the stream, from its next entry on.
unfoldable pub next_entry : List Dirent → List Dirent
unfolding equal
next_entry [] = []
next_entry (e ∷ es) = if is_dots e then next_entry es else e ∷ es

-- From `begin` to `end`.
unfoldable pub listed : List Dirent → List Dirent
unfolding equal
listed [] = []
listed (e ∷ es) = if is_dots e then listed es else e ∷ listed es

-- Going to the next entry passes over none that is listed.
pub listed-next_entry : (es : List Dirent) → listed (next_entry es) ≡ listed es
unfolding listed next_entry
listed-next_entry [] = refl
listed-next_entry (e ∷ es) = ground (arith, listed-next_entry es)
