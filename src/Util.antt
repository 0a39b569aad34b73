-- ===== src/Util.antt =====
-- src/include/util.hpp: the base64 encoder of job input, mkdirp and getpass_getlogin.
pub mod Base64
pub mod System
