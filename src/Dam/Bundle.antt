-- ===== src/Dam/Bundle.antt =====
-- `struct bundle` of src/include/shmemutil.hpp: who won last and when, in one 64-bit word of three
-- bit fields. The word is its fields here.
use Prim.Native.Nat.{bit_xor}
use systemd_cron.Base.{
  ℕ, zero, suc, ◌+◌, ◌*◌, ◌/◌, ◌%◌, ◌^◌, ◌≤◌, ◌<◌, ◌≡◌, Bool, ◌&&◌, arith, ◌==◌,
}
use systemd_cron.Base.Int.{pos}
use systemd_cron.Vore.Timespec.{Timespec, billion, at}

pub record Bundle : Type 0 where
  pub last_winner : ℕ
  pub last_time_won_sec : ℕ
  pub last_time_won_subsec : ℕ

abbrev pid_bits : ℕ
pid_bits = 22

-- `for(int left = 32; left > 0; left -= 22, pidbits >>= 22)` makes two rounds.
fold_pid : ℕ → ℕ → ℕ → ℕ
fold_pid zero pidbits winner = winner
fold_pid (suc rounds) pidbits winner =
    fold_pid rounds (pidbits / 2 ^ pid_bits) (bit_xor winner (pidbits % 2 ^ pid_bits))

-- The constructor, at a time that is not negative: a number of nanoseconds. A subsecond is
-- 1 / 1024 s, and the cast truncates.
unfoldable pub make_bundle : ℕ → ℕ → Bundle
unfolding fold_pid
make_bundle pid now = record {
  last_winner = fold_pid 2 pid 0 % 2 ^ pid_bits;
  last_time_won_sec = now / billion % 2 ^ 32;
  last_time_won_subsec = now % billion * 1024 / billion % 2 ^ 10;
}

-- `operator struct timespec`.
unfoldable pub bundle_time : Bundle → Timespec
bundle_time b = record {
  tv_sec = pos b.last_time_won_sec;
  tv_nsec = b.last_time_won_subsec * billion / 1024;
}

-- The time that a bundle stands for, in nanoseconds.
abbrev pub bundle_ns : Bundle → ℕ
bundle_ns b = b.last_time_won_sec * billion + b.last_time_won_subsec * billion / 1024

-- Do two words have the same bits?
abbrev pub same_bundle : Bundle → Bundle → Bool
same_bundle a b =
    a.last_winner == b.last_winner
    && a.last_time_won_sec == b.last_time_won_sec
    && a.last_time_won_subsec == b.last_time_won_subsec

-- The state of fresh shared memory.
abbrev pub zero_bundle : Bundle
zero_bundle = record { last_winner = 0; last_time_won_sec = 0; last_time_won_subsec = 0 }

abbrev pub FitsFields : Bundle → Type 0
FitsFields b = (b.last_time_won_sec < 2 ^ 32) × (b.last_time_won_subsec < 2 ^ 10)

pub make_bundle-FitsFields : (pid now : ℕ) → FitsFields (make_bundle pid now)
unfolding make_bundle
make_bundle-FitsFields pid now = (omega arith, omega arith)

pub bundle_time-at : (b : Bundle) → FitsFields b → bundle_time b ≡ at (bundle_ns b)
unfolding bundle_time
bundle_time-at b (hs, hn) = ground arith

-- A time of the first 136 years comes back from its bundle rounded down, by less than a subsecond
-- and a nanosecond.
pub make_bundle_time :
    (pid now : ℕ)
    → now < 2 ^ 32 * billion
    → (bundle_ns (make_bundle pid now) ≤ now) × (now < bundle_ns (make_bundle pid now) + 976564)
unfolding make_bundle
make_bundle_time pid now h = (omega arith, omega arith)
