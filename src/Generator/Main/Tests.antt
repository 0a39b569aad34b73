-- ===== src/Generator/Main/Tests.antt =====
-- A run of the generator over a small system.
use Prim.Native.String.{String}
use systemd_cron.Base.{
  List, [], ◌∷◌, ◌≡◌, refl, true, false, Bytes, codes, equal, if◌then◌else◌, arith, length,
  contains, starts_with, contains_text, cut, less,
}
use systemd_cron.Base.Decimal.{decimal}
use systemd_cron.Generator.Crontab.Distinct.{distinct, names}
use systemd_cron.Generator.Crontab.{File, contents, missing}
use systemd_cron.Generator.Field.{int_map, month_map, dow_map}
use systemd_cron.Generator.OrderedSet.{emplace}
use systemd_cron.Generator.Period.{parse_period, ranged, star, walk, between, insert_between}
use systemd_cron.Vore.Uint.{parse_uint, c_string, strtoull}
use systemd_cron.Generator.Main.Distinct.{counted_names, realmain-distinct}
use systemd_cron.Generator.Crontab.Timed.{AreSound}
use systemd_cron.Generator.Main.Sound.{realmain-AreSound}
use systemd_cron.Generator.Main.Toplevel.{Inputs, Progress, each, each_job, unless}
use systemd_cron.Generator.Main.{realmain}
use systemd_cron.Generator.Run.{Run, done, out_of_bounds, spinning, is_done}
use systemd_cron.Vore.Directory.{Dirent, EntryType, dt_reg, dt_lnk, dt_other}
use systemd_cron.Generator.Samples.{host, draws}

abbrev files : Bytes → Bytes → File
files text name =
    if equal name (codes "/etc/crontab")
    then contents text
    else if equal name (codes "/etc/cron.d/a")
    then contents (codes "1 2 3 4 * root ls\n")
    else missing

abbrev entry : String → EntryType → Dirent
entry name d_type = record { d_name = codes name; d_type = d_type }

abbrev inputs : Bytes → Inputs
inputs text = record {
  read = files text;
  entries = λ d.
      if equal d (codes "/etc/cron.d")
      then entry ".." dt_other
        ∷ entry "a" dt_reg
        ∷ entry "a~" dt_reg
        ∷ entry "native" dt_lnk
        ∷ entry "gone" dt_lnk
        ∷ []
      else [];
  is_regular = λ p. equal p (codes "/etc/cron.d/native");
  is_dir = λ d. true;
  exists = λ p. equal p (codes "/etc/systemd/system/native.timer");
  executable = λ p. true;
  draws = λ name. draws;
  part2timer = [];
  crond2timer = [];
  use_runparts = true;
  debian_filter = false;
}

abbrev units : Run Progress → List Bytes
units (done p) = names p.units
units out_of_bounds = codes "out of bounds" ∷ []
units spinning = codes "spinning" ∷ []

abbrev small : Inputs
small = inputs (codes "1 2 3 4 * me ls\n5 6 7 8 * me pwd\n")

realmain_run :
    units (realmain host small)
    ≡ codes "cron-a-root-0" ∷ codes "cron-crontab-me-1" ∷ codes "cron-crontab-me-0" ∷ []
unfolding realmain each each_job unless contains equal starts_with contains_text parse_period cut
    parse_uint c_string strtoull ranged star walk between insert_between dow_map month_map int_map
    less emplace decimal
realmain_run = refl

-- A job without time fields has no hour for the directory of scripts that it names.
empty_hours_run :
    realmain host (inputs (codes "@daily root run-parts /etc/cron.daily\n")) ≡ out_of_bounds
unfolding realmain each each_job contains equal starts_with contains_text less
empty_hours_run = refl

abbrev result : Run Progress → Progress
result (done p) = p
result out_of_bounds = record { seqs = λ id. 0; start_hours = λ k. 0; units = [] }
result spinning = record { seqs = λ id. 0; start_hours = λ k. 0; units = [] }

done-result : (m : Run Progress) → is_done m ≡ true → m ≡ done (result m)
done-result (done p) h = refl
done-result out_of_bounds h = cc
done-result spinning h = cc

small_done : is_done (realmain host small) ≡ true
unfolding realmain each each_job unless contains equal starts_with contains_text parse_period cut
    parse_uint c_string strtoull ranged star walk between insert_between dow_map month_map int_map
    less emplace decimal
small_done = refl

three_units : length (result (realmain host small)).units ≡ 3
unfolding realmain each each_job unless contains equal starts_with contains_text parse_period cut
    parse_uint c_string strtoull ranged star walk between insert_between dow_map month_map int_map
    less emplace decimal
three_units = refl

realmain-distinct_example : distinct (counted_names (result (realmain host small)).units) ≡ true
realmain-distinct_example =
    realmain-distinct host small (result (realmain host small)) refl
      (done-result (realmain host small) small_done) (omega (arith, three_units))

realmain-AreSound_example : AreSound (result (realmain host small)).units
realmain-AreSound_example =
    realmain-AreSound host small (result (realmain host small))
      (done-result (realmain host small) small_done)
