-- ===== src/Util/System.antt =====
-- The other helpers of src/include/util.hpp: `mkdirp` and `getpass_getlogin`.
use systemd_cron.Base.{
  ℕ, ◌-◌, List, [], ◌∷◌, Option, none, some, Bool, true, false, if◌then◌else◌, Bytes, codes, length,
  take,
}
use systemd_cron.Sys.{Oracle, M, pure, ◌>>=◌, mkdir}
use systemd_cron.Vore.Tokenise.{View, soft_tokenise}

module _ (o : Oracle) where
  -- The directories on the way to a path, up to each segment of it.
  unfoldable pub mkdirs : Bytes → List View → M Bool
  unfolding mkdir
  mkdirs path [] = pure true
  mkdirs path (seg ∷ segs) = do
    made ← mkdir o (take (length path - length seg.after) path)
    if made then mkdirs path segs else pure false

  unfoldable pub mkdirp : Bytes → M Bool
  unfolding mkdirs soft_tokenise
  mkdirp path = mkdirs path (soft_tokenise path (codes "/"))

unfoldable pub first_set : (Bytes → Option Bytes) → List Bytes → Option Bytes
first_set getenv [] = none
first_set getenv (var ∷ vars) =
    let rest = first_set getenv vars in elim (getenv var) [ none ↦ rest | some v ↦ some v ]

-- `pw_name` is that of the entry of the user, if there is one.
unfoldable pub getpass_getlogin : (Bytes → Option Bytes) → ℕ → Option Bytes → Bytes
unfolding first_set
getpass_getlogin getenv login_name_max pw_name =
    let vars = codes "LOGNAME" ∷ codes "USER" ∷ codes "LNAME" ∷ codes "USERNAME" ∷ [] in
    elim (first_set getenv vars) [
      | some val ↦ val
      | none ↦ elim pw_name [ none ↦ [] | some name ↦ take login_name_max name ]
    ]
