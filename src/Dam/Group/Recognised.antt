-- ===== src/Dam/Group/Recognised.antt =====
-- Which units ExecStartPre of src/bin/throttle_group.cpp takes for units of the group.
use systemd_cron.Base.{
  List, [], ◌∷◌, ◌++◌, ◌≡◌, ◌↔◌, refl, ap, Bool, true, false, Bytes, codes, equal, all, arith, leb,
  length, if◌then◌else◌, Bool-cases, inl, inr, ◌∙◌,
}
use systemd_cron.Dam.Group.{is_ours, is_read_whole, any_ours}

-- Is there a "--" behind the program?
abbrev pub has_dashes : List Bytes → Bool
has_dashes [] = false
has_dashes (program ∷ []) = false
has_dashes (program ∷ arg ∷ args) = equal arg (codes "--")

-- A command of three strings at most, or of four with a "--".
abbrev pub is_short : List Bytes → Bool
is_short argv = leb (length argv) (if has_dashes argv then 4 else 3)

is_read_whole-is_short : (argv : List Bytes) → is_read_whole argv ≡ is_short argv
unfolding is_read_whole
is_read_whole-is_short [] = refl
is_read_whole-is_short (p ∷ []) = refl
is_read_whole-is_short (p ∷ a ∷ []) = ground arith
is_read_whole-is_short (p ∷ a ∷ b ∷ []) = ground arith
is_read_whole-is_short (p ∷ a ∷ b ∷ c ∷ []) = ground arith
is_read_whole-is_short (p ∷ a ∷ b ∷ c ∷ d ∷ more) = ground arith

module _ (self group : Bytes) where
  -- A throttle of the group is among the commands, and those before it are short.
  abbrev pub HasThrottle : List (List Bytes) → Type 0
  HasThrottle commands =
      (before : List (List Bytes)) × (argv : List Bytes) × (after : List (List Bytes)) × (commands
        ≡ before ++ argv ∷ after)
      × (all is_short before ≡ true)
      × (is_ours self group argv ≡ true)

  HasThrottle-later :
      (argv : List Bytes) (rest : List (List Bytes))
      → is_short argv ≡ true
      → HasThrottle rest
      → HasThrottle (argv ∷ rest)
  HasThrottle-later argv rest short (before, ours, after, same, all_short, found) =
      (argv ∷ before, ours, after, ap (λ cs. argv ∷ cs) same, ground arith, found)

  any_ours-HasThrottle :
      (commands : List (List Bytes)) → any_ours self group commands ≡ true → HasThrottle commands
  unfolding any_ours
  any_ours-HasThrottle [] h = cc
  any_ours-HasThrottle (argv ∷ rest) h = elim (Bool-cases (is_ours self group argv)) [
    | inl e ↦ ([], argv, rest, refl, refl, e)
    | inr e ↦
        let short = is_read_whole-is_short argv in
        HasThrottle-later argv rest (ground arith) (any_ours-HasThrottle rest (ground arith))
  ]

  any_ours-append :
      (before : List (List Bytes)) (argv : List Bytes) (after : List (List Bytes))
      → all is_short before ≡ true
      → is_ours self group argv ≡ true
      → any_ours self group (before ++ argv ∷ after) ≡ true
  unfolding any_ours
  any_ours-append [] argv after short ours = ground arith
  any_ours-append (b ∷ before) argv after short ours =
      let whole = is_read_whole-is_short b in
      let rest = any_ours-append before argv after (ground arith) ours in ground arith

  -- A unit is taken for one of the group exactly if a throttle of the group is among the commands of
  -- its ExecStartPre, and each command before that has three strings at most, or four of which the
  -- second is "--".
  pub any_ours_iff :
      (commands : List (List Bytes)) → (any_ours self group commands ≡ true) ↔ HasThrottle commands
  any_ours_iff commands = (
    any_ours-HasThrottle commands,
    λ (before, argv, after, same, short, ours).
        ap (any_ours self group) same ∙ any_ours-append before argv after short ours,
  )
