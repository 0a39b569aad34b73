-- ===== src/Generator/Filter.antt =====
-- `for_each_file`, `is_masked` and `is_backup`: the files of a directory, and those that get no unit.
use systemd_cron.Base.{
  List, ◌++◌, none, some, Bool, false, ◌||◌, not, if◌then◌else◌, ◌==◌, Bytes, codes, equal, all,
  starts_with, contains_text, last?, map, keep, true,
}
use systemd_cron.Generator.Job.Exec.{is_ascii_alnum}
use systemd_cron.Generator.Job.Schedule.{binary_find}
use systemd_cron.Vore.Directory.{Dirent, dt_unknown, dt_lnk, dt_reg, dt_other, listed}

-- A native timer of this name, or the one that the distribution maps the name to, takes the place
-- of the file. `exists` is `!access(…, F_OK)`.
unfoldable pub is_masked : (Bytes → Bool) → List (Bytes × Bytes) → Bytes → Bool
unfolding binary_find
is_masked exists distro_mapping name =
    let unit : Bytes → Bytes =
      λ root. codes "/" ++ root ++ codes "/systemd/system/" ++ name ++ codes ".timer" in
    let mapped : Bytes = elim (binary_find distro_mapping name) [ none ↦ name | some n ↦ n ] in
    exists (unit (codes "lib"))
    || exists (unit (codes "etc"))
    || exists (unit (codes "run"))
    || exists (codes "/lib/systemd/system/" ++ mapped ++ codes ".timer")

abbrev ends_in_tilde : Bytes → Bool
ends_in_tilde s = elim (last? s) [ none ↦ false | some c ↦ c == b'~' ]

unfoldable pub is_backup : Bool → Bytes → Bool
unfolding is_ascii_alnum
is_backup debian_filter name =
    equal name (codes ".placeholder")
    || equal name (codes "0anacron")
    || equal name (codes "anacron")
    || (if debian_filter
        then not (all is_ascii_alnum name)
        else starts_with (codes ".") name
          || ends_in_tilde name
          || contains_text (codes ".dpkg-") name
          || contains_text (codes ".rpm") name)

-- The entries that `for_each_file` gives to its callback: regular files, and what `fstatat` finds
-- to be one where the type does not tell or is that of a link.
unfoldable pub is_file : (Bytes → Bool) → Dirent → Bool
is_file is_regular e = elim e.d_type [
  | dt_unknown ↦ is_regular e.d_name
  | dt_lnk ↦ is_regular e.d_name
  | dt_reg ↦ true
  | dt_other ↦ false
]

unfoldable pub for_each_file : (Bytes → Bool) → List Dirent → List Bytes
unfolding is_file listed
for_each_file is_regular entries = map (λ e. e.d_name) (keep (is_file is_regular) (listed entries))
