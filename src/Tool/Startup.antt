-- ===== src/Tool/Startup.antt =====
-- What `main` of src/bin/crontab.cpp does to the files before every action.
use systemd_cron.Base.{
  ◌≡◌, ◌⊎◌, inl, inr, refl, ◌∙◌, List, [], ◌∷◌, none, some, true, Bytes, arith, equal, equal_iff,
  length, take, ◌-◌, Option-cases, Bool-cases, ap, sym,
}
use systemd_cron.Sys.Keeps.{Keeps}
use systemd_cron.Sys.{Oracle, Disk, mkdir, touch}
use systemd_cron.Tool.Options.{World, make_directory}
use systemd_cron.Tool.{Helper}
use systemd_cron.Util.System.{mkdirs, mkdirp}
use systemd_cron.Vore.Tokenise.{View, soft_tokenise}

-- A file is as it was, or it is this one, there was none, and it is there and empty.
abbrev pub Made : Bytes → Bytes → Disk → Disk → Type 0
Made p q d e =
    (e.files q ≡ d.files q) ⊎ ((equal q p ≡ true) × (d.files q ≡ none) × (e.files q ≡ some []))

module _ (o : Oracle) where
  Keeps-mkdirs : (q path : Bytes) (segs : List View) → Keeps q (mkdirs o path segs)
  unfolding mkdirs mkdir
  Keeps-mkdirs q path [] d = refl
  Keeps-mkdirs q path (seg ∷ segs) d =
      let made = mkdir o (take (length path - length seg.after) path) d in
      ground (arith, Keeps-mkdirs q path segs made.1)

  touch-Made : (p q : Bytes) (d : Disk) → Made p q d (touch o p d).1
  unfolding touch
  touch-Made p q d = elim (Bool-cases (equal q p)) [
    | inr other ↦ inl (ground arith)
    | inl same ↦ elim (Option-cases (o.fault d.calls)) [
      | inr (n, e) ↦ inl (ground arith)
      | inl works ↦ elim (Option-cases (d.files p)) [
        | inr (s, e) ↦ inl (ground arith)
        | inl e ↦ inr (same, ap d.files ((equal_iff q p).0 same) ∙ e, ground arith)
      ]
    ]
  ]

  pub make_directory-Keeps :
      (helper : Helper) (w : World) (q : Bytes) → Keeps q (make_directory o helper w)
  unfolding make_directory mkdirp
  make_directory-Keeps helper w q d =
      ground (arith, Keeps-mkdirs q w.crontab_dir (soft_tokenise w.crontab_dir (b'/' ∷ [])) d)

  -- Before the action, the only change is an empty REBOOT_FILE where there was none.
  pub started-Made :
      (helper : Helper) (w : World) (q : Bytes) (d : Disk)
      → Made w.reboot_file q d (touch o w.reboot_file (make_directory o helper w d).1).1
  started-Made helper w q d =
      let d1 = (make_directory o helper w d).1 in
      let same = make_directory-Keeps helper w q d in
      elim (touch-Made w.reboot_file q d1) [
        | inl e ↦ inl (e ∙ same)
        | inr (p, e, f) ↦ inr (p, sym same ∙ e, f)
      ]
