-- ===== src/Generator/Field.antt =====
-- The numbers and names of a time field: `int_map`, `month_map` and `dow_map`, and the tables of
-- values that they index.
pub mod Numbers
use systemd_cron.Base.{
  ℕ, zero, suc, ◌+◌, ◌-◌, List, [], ◌∷◌, Bool, true, false, not, ◌||◌, Option, none, some,
  if◌then◌else◌, Bytes, codes, equal, lower, take, drop,
}
use systemd_cron.Vore.Uint.{u64_mod, c_string, parse_uint}

abbrev pub count_from : ℕ → ℕ → List ℕ
count_from lo zero = []
count_from lo (suc n) = lo ∷ count_from (suc lo) n

abbrev pub minutes_set : List ℕ
minutes_set = count_from 0 60

abbrev pub hours_set : List ℕ
hours_set = count_from 0 24

abbrev pub days_set : List ℕ
days_set = count_from 1 31

abbrev pub months_set : List ℕ
months_set = count_from 1 12

abbrev pub dows_set : List Bytes
dows_set =
    codes "Sun"
    ∷ codes "Mon"
    ∷ codes "Tue"
    ∷ codes "Wed"
    ∷ codes "Thu"
    ∷ codes "Fri"
    ∷ codes "Sat"
    ∷ codes "Sun"
    ∷ []

-- A mapping gives a number, and the new value of the `err` that it is handed. The last argument
-- is `to`: does the text end a range?
abbrev pub Mapping : Type 0
Mapping = Bytes → Bool → Bool → ℕ × Bool

unfoldable pub int_map : Mapping
int_map str err to = let (ret, ok) = parse_uint (c_string str) (u64_mod - 1) in (ret, err || not ok)

-- The place of the first equal text.
unfoldable pub index_of : Bytes → List Bytes → Option ℕ
index_of s [] = none
index_of s (x ∷ xs) =
    if equal x s then some 0 else elim (index_of s xs) [ none ↦ none | some i ↦ some (suc i) ]

abbrev month_names : List Bytes
month_names =
    codes "jan"
    ∷ codes "feb"
    ∷ codes "mar"
    ∷ codes "apr"
    ∷ codes "may"
    ∷ codes "jun"
    ∷ codes "jul"
    ∷ codes "aug"
    ∷ codes "sep"
    ∷ codes "oct"
    ∷ codes "nov"
    ∷ codes "dec"
    ∷ []

abbrev dow_names : List Bytes
dow_names =
    codes "sun"
    ∷ codes "mon"
    ∷ codes "tue"
    ∷ codes "wed"
    ∷ codes "thu"
    ∷ codes "fri"
    ∷ codes "sat"
    ∷ codes "sun"
    ∷ []

-- The table is searched with the `err` that `int_map` has set.
unfoldable pub month_name : Bytes → Bool → ℕ × Bool
month_name month err = elim (index_of (lower (take 3 month)) month_names) [
  | some i ↦ (i + 1, err)
  | none ↦ (0, true)
]

unfoldable pub month_map : Mapping
unfolding month_name index_of
month_map month err to =
    let (ret, err') = int_map month err to in
    if not err' then (ret, err') else month_name month err'

-- `std::find(begin + to, end)`, as an index from `begin`.
abbrev dow_index : Bool → Bytes → Option ℕ
dow_index false s = index_of s dow_names
dow_index true s = elim (index_of s (drop 1 dow_names)) [ none ↦ none | some i ↦ some (suc i) ]

unfoldable pub dow_map : Mapping
unfolding index_of
dow_map dow_full err to = elim (dow_index to (lower (take 3 dow_full))) [
  | some i ↦ (i, err)
  | none ↦ int_map dow_full err to
]
