-- ===== src/Dam/Options.antt =====
-- The arguments of `loadavg_dam` and `throttle_group`, and `parse_floating` of
-- src/include/libvoreutils.hpp. What strtod gives is an argument.
use systemd_cron.Base.{
  ℕ, List, [], ◌∷◌, Option, none, some, Bool, not, ◌&&◌, ◌==◌, if◌then◌else◌, Bytes, codes, equal,
  length, ltb,
}

-- A number as strtod reads it: how much of the text it has read, the error it sets, and what the
-- programs ask of the number.
pub record Floating : Type 0 where
  pub consumed : ℕ
  pub errno : ℕ
  pub is_nought : Bool
  pub is_nan : Bool
  pub not_positive : Bool

-- The message, where there is one.
unfoldable pub parse_floating : (ℕ → Bytes) → (Bytes → Floating) → Bytes → Option Bytes
parse_floating strerror strtod val =
    let out = strtod val in
    if out.is_nought && out.consumed == 0
    then some (codes "invalid")
    else if ltb out.consumed (length val)
    then some (codes "partial conversion")
    else if not (out.errno == 0)
    then some (strerror out.errno)
    else if out.is_nan
    then some (codes "is NaN")
    else none

-- What the arguments come to: a target, the group and a target where there is one, or an error.
pub data Arguments : Type 0 where
  usage : Arguments
  refused : Bytes → Arguments
  below : Bytes → Arguments
  in_group : Bytes → Option Bytes → Arguments

unfoldable pub without_dashes : List Bytes → List Bytes
unfolding equal
without_dashes [] = []
without_dashes (a ∷ rest) = if equal a (codes "--") then rest else a ∷ rest

module _ (strerror : ℕ → Bytes) (strtod : Bytes → Floating) where
  -- `err && ((target <= 0) && (err = "<= 0"))`: only a text that does not parse is looked at.
  unfoldable pub dam_target : Bytes → Arguments
  unfolding parse_floating
  dam_target val = elim (parse_floating strerror strtod val) [
    | none ↦ below val
    | some e ↦ if (strtod val).not_positive then refused (codes "<= 0") else below val
  ]

  unfoldable pub dam_arguments : List Bytes → Arguments
  unfolding dam_target without_dashes
  dam_arguments args = elim (without_dashes args) [
    | [] ↦ usage
    | val ∷ rest ↦ elim rest [ [] ↦ dam_target val | a ∷ more ↦ usage ]
  ]

  unfoldable pub group_target : Bytes → Bytes → Arguments
  unfolding parse_floating
  group_target group val = elim (parse_floating strerror strtod val) [
    | some e ↦ refused e
    | none ↦ if (strtod val).not_positive then refused (codes "<= 0") else in_group group (some val)
  ]

  unfoldable pub group_arguments : List Bytes → Arguments
  unfolding group_target without_dashes
  group_arguments args = elim (without_dashes args) [
    | [] ↦ usage
    | group ∷ rest ↦ elim rest [
      | [] ↦ in_group group none
      | val ∷ more ↦ elim more [ [] ↦ group_target group val | a ∷ others ↦ usage ]
    ]
  ]
