-- ===== src/Generator/Host.antt =====
-- What the generator takes from outside its sources: the system it runs on, and the build's
-- configuration (`configuration.hpp` and the tables that the build generates).
use systemd_cron.Base.{ℕ, Option, Bool, Bytes}

-- What `getpwnam` finds: home directory, user and group.
pub record Passwd : Type 0 where
  pub pw_dir : Bytes
  pub pw_uid : ℕ
  pub pw_gid : ℕ

-- What `mbrlen` says of the bytes at hand, in an encoding without shift states.
pub data Mbrlen : Type 0 where
  illegal : Mbrlen
  nul : Mbrlen
  incomplete : Mbrlen
  char_of : ℕ → Mbrlen

pub record Host : Type 0 where
  pub getpwnam : Bytes → Option Passwd
  -- Is there such a file under /usr/share/zoneinfo?
  pub zone_exists : Bytes → Bool
  pub reboot_file_exists : Bool
  pub has_sendmail : Bool
  pub uptime : Option ℕ
  -- `stat` as this user and group finds a regular file.
  pub stat_regular : ℕ → ℕ → Bytes → Bool
  pub md5_hex : Bytes → Bytes
  pub mbrlen : Bytes → Mbrlen
  -- `std::round(static_cast<float>(n) / 30)`.
  pub round_thirtieth : ℕ → ℕ
  pub target_dir : Bytes
  pub statedir : Bytes
  pub pamname : Bytes
  pub have_onsuccess : Bool
  pub use_loglevelmax : Bytes
  pub boot_delay : Bytes
  pub throttle_group : Bytes
  pub loadavg_dam : Bytes
