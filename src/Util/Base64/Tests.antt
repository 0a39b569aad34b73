-- ===== src/Util/Base64/Tests.antt =====
-- The theorems of the encoder at concrete inputs.
use systemd_cron.Base.{◌≡◌, refl, codes}
use systemd_cron.Util.Base64.{encode}
use systemd_cron.Util.Base64.Groups.{groups, encode-groups}

encode-groups_example : encode (codes "hello") ≡ groups (codes "hello")
encode-groups_example = encode-groups (codes "hello") refl
