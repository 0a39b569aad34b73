-- ===== src/Dam.antt =====
-- src/include/shmemutil.hpp, src/bin/loadavg_dam.cpp and the admission loop of
-- src/bin/throttle_group.cpp: jobs that wait for each other through one word of shared memory.
pub mod Bundle
pub mod Race
pub mod Group
pub mod Options
pub mod Round
pub mod Replies
pub mod Startup
mod Tests
