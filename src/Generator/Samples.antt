-- ===== src/Generator/Samples.antt =====
-- A host and random engines for the tests of the generator.
use systemd_cron.Base.{ℕ, [], none, some, true, false, codes}
use systemd_cron.Generator.Host.{Host, char_of}
use systemd_cron.Generator.Job.Parse.{Draws}
use systemd_cron.Generator.Period.{Engine}

abbrev pub host : Host
host = record {
  getpwnam = λ u. some (record { pw_dir = codes "/root"; pw_uid = 0; pw_gid = 0 });
  zone_exists = λ z. true;
  reboot_file_exists = false;
  has_sendmail = true;
  uptime = none;
  stat_regular = λ u g p. false;
  md5_hex = λ s. codes "0123456789abcdef0123456789abcdef";
  mbrlen = λ s. char_of 1;
  round_thirtieth = λ n. 2;
  target_dir = codes "/run";
  statedir = codes "/var/spool/cron";
  pamname = [];
  have_onsuccess = true;
  use_loglevelmax = codes "no";
  boot_delay = codes "boot_delay";
  throttle_group = codes "throttle_group";
  loadavg_dam = codes "loadavg_dam";
}

abbrev pub greatest : Engine
greatest n lo hi = hi

abbrev pub draws : ℕ → Draws
draws n = record {
  minute = greatest;
  hour = greatest;
  dom = greatest;
  dow = greatest;
  month = greatest;
}
