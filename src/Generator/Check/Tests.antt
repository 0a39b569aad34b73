-- ===== src/Generator/Check/Tests.antt =====
-- Runs of the modes for the command `crontab`.
use systemd_cron.Base.{◌≡◌, refl, codes, starts_with, contains, equal, cut, less}
use systemd_cron.Base.Decimal.{decimal}
use systemd_cron.Generator.Check.{check}
use systemd_cron.Generator.Crontab.{contents}
use systemd_cron.Generator.Field.{int_map, month_map, dow_map}
use systemd_cron.Generator.OrderedSet.{emplace}
use systemd_cron.Generator.Period.{parse_period, ranged, star, walk, between, insert_between}
use systemd_cron.Generator.Run.{done}
use systemd_cron.Generator.Samples.{host, draws}
use systemd_cron.Vore.Uint.{parse_uint, c_string, strtoull}

check_good_run :
    check host draws (codes "c") (contents (codes "1 2 3 4 * ls\n@daily ls\n")) ≡ done 0
unfolding check contains equal starts_with parse_period cut parse_uint c_string strtoull ranged star
    walk between insert_between dow_map month_map int_map less emplace decimal
check_good_run = refl

check_bad_run :
    check host draws (codes "c") (contents (codes "1 2 3 4 * ls\n@nightly ls\n")) ≡ done 1
unfolding check contains equal starts_with parse_period cut parse_uint c_string strtoull ranged star
    walk between insert_between dow_map month_map int_map less emplace decimal
check_bad_run = refl
