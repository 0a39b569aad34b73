-- ===== src/Dam/Startup/Tests.antt =====
-- Starts of the two programs.
use systemd_cron.Base.{ℕ, [], ◌∷◌, ◌≡◌, refl, none, some, true, false, Bytes, codes, equal}
use systemd_cron.Dam.Bundle.{zero_bundle}
use systemd_cron.Dam.Options.{Floating}
use systemd_cron.Dam.Startup.{
  Faults, absent, short, holds, ends, waits_for_load, waits_for_group, dam_begins, group_begins,
}

abbrev strerror : ℕ → Bytes
strerror n = []

abbrev strtod : Bytes → Floating
strtod s = record {
  consumed = 3;
  errno = 0;
  is_nought = false;
  is_nan = false;
  not_positive = false;
}

abbrev faultless : Faults
faultless = record { shm_open = false; ftruncate = false; mmap = false }

first_run :
    dam_begins strerror strtod faultless (codes "--" ∷ codes "2.5" ∷ []) absent
    ≡ (holds zero_bundle, waits_for_load (codes "2.5") zero_bundle)
unfolding dam_begins equal
first_run = refl

full_run :
    dam_begins strerror strtod (record faultless { ftruncate = true }) (codes "2.5" ∷ []) absent
    ≡ (short, ends 1)
unfolding dam_begins equal
full_run = refl

group_run :
    group_begins strerror strtod faultless true (some (codes "u")) (codes "g" ∷ []) absent
    ≡ (holds zero_bundle, waits_for_group (codes "g") none (codes "u") zero_bundle)
unfolding group_begins equal
group_run = refl
