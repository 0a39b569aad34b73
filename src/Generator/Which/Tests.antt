-- ===== src/Generator/Which/Tests.antt =====
-- Where the generator looks for sendmail.
use systemd_cron.Base.{◌≡◌, refl, none, some, true, Bytes, codes, equal, contains, Bool}
use systemd_cron.Vore.Tokenise.{soft_tokenise}
use systemd_cron.Generator.Which.{which, has_sendmail}

abbrev in_lib : Bytes → Bool
in_lib p = equal p (codes "/usr/lib/sendmail")

which_run :
    which in_lib (codes "sendmail") (some (codes "/bin::/usr/lib")) none
    ≡ some (codes "/usr/lib/sendmail")
unfolding which equal contains soft_tokenise
which_run = refl

fallback_run : has_sendmail in_lib (λ var. none) ≡ true
unfolding has_sendmail equal contains soft_tokenise
fallback_run = refl
