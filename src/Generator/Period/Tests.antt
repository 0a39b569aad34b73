-- ===== src/Generator/Period/Tests.antt =====
-- Runs of `parse_period`, and its theorems at concrete inputs.
use systemd_cron.Base.{
  cut, ℕ, ◌≡◌, refl, ◌∷◌, [], false, true, codes, Bytes, List, arith, In, get_elem?, some, contains,
  equal,
}
use systemd_cron.Generator.Field.{
  minutes_set, months_set, dows_set, int_map, month_map, dow_map, count_from,
}
use systemd_cron.Generator.Field.Numbers.{int_map-IsNumeric}
use systemd_cron.Generator.OrderedSet.{number_less, text_less, emplace}
use systemd_cron.Generator.Period.Names.{
  IsSingle, parse_period_month_name, parse_period_sunday, parse_period_tilde, tilde_text,
}
use systemd_cron.Generator.Period.Range.{IsRange, parse_period-IsRange, stepped_text}
use systemd_cron.Generator.Period.Safety.{IsUniform, step_of, parse_period_zero_step}
use systemd_cron.Generator.Period.{
  Target, Engine, parse_period, ranged, star, between, insert_between, tilde, insert_random, walk,
  fine, off_range, signed_below,
}
use systemd_cron.Generator.Run.{done, out_of_bounds, spinning}
use systemd_cron.Vore.Uint.{parse_uint, strtoull, c_string}

abbrev greatest : Engine
greatest n lo hi = hi

greatest-IsUniform : IsUniform greatest
greatest-IsUniform n lo hi h = (h, omega arith)

abbrev no_minutes : Target ℕ
no_minutes = record { into = []; raw_for_schedule = false; drawn = 0 }

abbrev no_days : Target Bytes
no_days = record { into = []; raw_for_schedule = false; drawn = 0 }

stepped_run :
    parse_period greatest minutes_set int_map 0 (codes "10-20/5") no_minutes
    ≡ done (fine, record no_minutes { into = 10 ∷ 15 ∷ 20 ∷ [] })
unfolding parse_period ranged between insert_between walk int_map parse_uint strtoull c_string
    emplace cut contains equal
stepped_run = refl

-- A step of 2 ^ 64 - 1 is a step of -1: the read is outside the table.
negative_step_run :
    parse_period greatest minutes_set int_map 0 (codes "*/18446744073709551615") no_minutes
    ≡ out_of_bounds
unfolding parse_period ranged star walk int_map parse_uint strtoull c_string emplace cut contains
    equal
negative_step_run = refl

-- `0~30` can come to minute 31, and an upper end that is no number counts as 0.
tilde_run :
    parse_period greatest minutes_set int_map 0 (codes "0~30") no_minutes
    ≡ done (fine, record { into = 31 ∷ []; raw_for_schedule = true; drawn = 1 })
unfolding parse_period ranged tilde insert_random int_map parse_uint strtoull c_string emplace cut
    equal contains
tilde_run = refl

parse_period-IsRange_example :
    (out : List ℕ) × (parse_period greatest
        (count_from 1 31)
        int_map
        1
        (stepped_text 3 12 4)
        no_minutes
      ≡ done (fine, record no_minutes { into = out }))
    × IsRange 1 31 3 12 4 [] out
parse_period-IsRange_example =
    parse_period-IsRange greatest int_map int_map-IsNumeric 1 31 3 12 4 (omega arith) (omega arith)
      (omega arith) (omega arith) (omega arith) (omega arith) (omega arith) (omega arith) no_minutes

step_of_run : step_of (codes "10-20/5") ≡ 5
unfolding step_of int_map parse_uint strtoull c_string cut
step_of_run = refl

parse_period_zero_step_example :
    (parse_period greatest minutes_set int_map 0 (codes "*/0") no_minutes ≡ spinning)
    × ((fuel : ℕ) → walk minutes_set fuel (signed_below minutes_set 60) 0 0 [] false ≡ spinning)
parse_period_zero_step_example =
    parse_period_zero_step greatest minutes_set (omega arith) int_map 0 no_minutes

jan-IsSingle : IsSingle (codes "jan")
unfolding contains equal
jan-IsSingle = record { no_slash = refl; no_tilde = refl; no_dash = refl; no_star = refl }

jan_no_number : (int_map (codes "jan") false false).1 ≡ true
unfolding int_map parse_uint strtoull c_string
jan_no_number = refl

parse_period_month_name_example :
    parse_period greatest months_set month_map 1 (codes "jan") no_minutes
    ≡ done (off_range, no_minutes)
parse_period_month_name_example =
    parse_period_month_name greatest (codes "jan") no_minutes jan-IsSingle jan_no_number

sunday-IsSingle : IsSingle (codes "Sunday")
unfolding contains equal
sunday-IsSingle = record { no_slash = refl; no_tilde = refl; no_dash = refl; no_star = refl }

parse_period_sunday_example :
    (out : List Bytes) × (parse_period greatest dows_set dow_map 0 (codes "Sunday") no_days
      ≡ done (fine, record no_days { into = out }))
    × ((i : ℕ) (day : Bytes) → get_elem? dows_set i ≡ some day → In day out)
parse_period_sunday_example =
    parse_period_sunday greatest (codes "Sunday") no_days sunday-IsSingle refl

parse_period_tilde_example :
    parse_period greatest (count_from 0 60) int_map 0 (tilde_text 0 30) no_minutes
    ≡ done (fine, record { into = emplace 31 []; raw_for_schedule = true; drawn = 1 })
parse_period_tilde_example =
    parse_period_tilde greatest int_map int_map-IsNumeric 0 60 0 30 (omega arith) (omega arith)
      (omega arith) (omega arith) (omega arith) no_minutes 31 refl (omega arith)
