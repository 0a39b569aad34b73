-- ===== src/Generator/Job/Booleans.antt =====
-- The Booleans of a crontab's variables.
use systemd_cron.Base.{
  ◌≡◌, refl, [], ◌∷◌, Bool, true, not, ◌||◌, Bytes, codes, all, ◌==◌, lower, starts_with, arith,
}
use systemd_cron.Generator.Job.{same_nocase, systemd_bool}

abbrev pub no_nul : Bytes → Bool
no_nul = all (λ c. not (c == 0))

same_nocase-starts_with :
    (s l : Bytes) → no_nul s ≡ true → same_nocase s l ≡ starts_with (lower s) l
unfolding same_nocase starts_with
same_nocase-starts_with [] l h = refl
same_nocase-starts_with (c ∷ s) [] h = ground arith
same_nocase-starts_with (c ∷ s) (d ∷ l) h = ground (arith, same_nocase-starts_with s l)

-- A value without a NUL counts as true exactly if it is, in any case of its letters, the beginning of `1`, `yes`
-- or `true`: also an empty one.
pub systemd_bool-starts_with :
    (s : Bytes)
    → no_nul s ≡ true
    → systemd_bool s ≡ (
        starts_with (lower s) (codes "1")
        || starts_with (lower s) (codes "yes")
        || starts_with (lower s) (codes "true"))
unfolding systemd_bool
systemd_bool-starts_with s h =
    rw
      (
        same_nocase-starts_with s (codes "1") h,
        same_nocase-starts_with s (codes "yes") h,
        same_nocase-starts_with s (codes "true") h,
      )
      refl
