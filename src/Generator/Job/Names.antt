-- ===== src/Generator/Job/Names.antt =====
-- The names of units: a job that counts is named by its id and a number behind the last dash.
use systemd_cron.Base.Decimal.{decimal, decimal_injective, all-decimal}
use systemd_cron.Base.{
  ℕ, ◌+◌, ◌%◌, ◌≡◌, refl, ap, [], ◌∷◌, ◌++◌, Bool, true, false, not, ◌||◌, Bytes, codes, contains,
  contains_digits, arith, append_assoc,
}
use systemd_cron.Generator.Host.{Host}
use systemd_cron.Generator.Job.Exec.{generate_unit_name}
use systemd_cron.Generator.Job.{Job}
use systemd_cron.Vore.Uint.{u64_mod}

contains_behind : (c : ℕ) (b n : Bytes) → contains c (b ++ c ∷ n) ≡ true
unfolding contains
contains_behind c [] n = ground arith
contains_behind c (d ∷ b) n = ground (arith, contains_behind c b n)

tail : Bytes → Bytes
tail [] = []
tail (x ∷ xs) = xs

-- The last dash splits a text in one way.
dashed_injective :
    (a b m n : Bytes)
    → contains b'-' m ≡ false
    → contains b'-' n ≡ false
    → a ++ b'-' ∷ m ≡ b ++ b'-' ∷ n
    → (a ≡ b) × (m ≡ n)
unfolding contains tail
dashed_injective [] [] m n hm hn e = ground arith
dashed_injective [] (c ∷ b) m n hm hn e =
    let split : m ≡ b ++ b'-' ∷ n = ap tail e in absurd (cc (contains_behind b'-' b n, split, hm))
dashed_injective (c ∷ a) [] m n hm hn e =
    let split : a ++ b'-' ∷ m ≡ n = ap tail e in absurd (cc (contains_behind b'-' a m, split, hn))
dashed_injective (c ∷ a) (d ∷ b) m n hm hn e = ground (arith, dashed_injective a b m n hm hn)

-- The name that a job of this id gets from this number.
abbrev pub counted_name : Bytes → ℕ → Bytes
counted_name id n = codes "cron-" ++ id ++ b'-' ∷ decimal n

decimal_no_dash : (n : ℕ) → contains b'-' (decimal n) ≡ false
decimal_no_dash n = contains_digits b'-' (decimal n) refl (all-decimal n)

drop_cron : Bytes → Bytes
drop_cron (a ∷ b ∷ c ∷ d ∷ e ∷ s) = s
drop_cron s = s

pub counted_name_injective :
    (a b : Bytes) (m n : ℕ) → counted_name a m ≡ counted_name b n → (a ≡ b) × (m ≡ n)
unfolding drop_cron
counted_name_injective a b m n e =
    let (ids, numbers) =
      dashed_injective a b (decimal m) (decimal n) (decimal_no_dash m) (decimal_no_dash n)
        (ap drop_cron e) in
    (ids, decimal_injective m n numbers)

-- Is the job named by a number, not by a digest?
abbrev pub is_counted : Job → Bool
is_counted j = not (j.persistent || j.cron_unique_units)

pub generate_unit_name_counted :
    (host : Host) (n : ℕ) (j : Job)
    → is_counted j ≡ true
    → generate_unit_name host n j
      ≡ (record j { unit_name = counted_name j.jobid n }, (n + 1) % u64_mod)
unfolding generate_unit_name
generate_unit_name_counted host n j h = rw (h, append_assoc j.jobid (codes "-") (decimal n)) refl
