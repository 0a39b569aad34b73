-- ===== src/Lib.antt =====
-- systemd-cron: the generator that turns crontabs into systemd units, and the tools beside it.
--
-- The generator (src/bin/systemd-crontab-generator.cpp) reads a crontab line by line. A line either
-- sets a variable for the lines below it or becomes a Job: its five time fields, or its period such
-- as @daily, turn into a calendar expression, its command goes to ExecStart or to a script, what
-- follows an unescaped percent sign goes to StandardInputData as base64, and the job becomes a
-- service and a timer. When such a unit starts, loadavg_dam and throttle_group hold it back until
-- the load is low, or until no unit of its group runs, and space the admissions by a time in a
-- shared word. crontab(1) edits and installs the crontabs of users, through a helper with the rights
-- to write them, once the generator has accepted them.
--
-- Base: lists over native numbers, byte strings, decimal digits, Boolean tests.
-- Vore: src/include/libvoreutils.hpp. Vore/Uint is parse_uint over strtoull; Vore/Tokenise is
--   soft_tokenise and its iterator; Vore/Timespec compares and subtracts times; Vore/Owner is the
--   objects fd, FILE, DIR and mapping, with Owner/Inventory what a program does with them, where
--   a list keeps what an assignment forgets, and
--   Vore/Directory the entries of a DIR.
-- Util: src/include/util.hpp. Util/Base64 is the streaming encoder b64 (feed, finish), Util/System
--   mkdirp and getpass_getlogin.
-- Dam: src/include/shmemutil.hpp, src/bin/loadavg_dam.cpp and src/bin/throttle_group.cpp.
--   Dam/Bundle is the shared word, Dam/Race the processes on it, as a step relation. Dam/Group is
--   what a round of the throttle makes of the listed units: listed_unit and the end of main, with
--   Group/Recognised which of them are of the group;
--   Dam/Replies is the replies that the round waits for, in any order; Dam/Round is one round of
--   either loop, Dam/Options the arguments, and Dam/Startup what comes before the loops.
-- Generator: src/bin/systemd-crontab-generator.cpp. Generator/Field and Generator/Period are
--   int_map, month_map, dow_map and parse_period; Generator/OrderedSet and Generator/Environment
--   are std::set and std::map; Generator/Host is what the program takes from the system and the
--   build. Generator/Job is the struct Job with decode_environment, Job/Parse its readers,
--   Job/Schedule generate_schedule, Job/Exec the command, the scriptlet and the unit's name,
--   Job/Describe and Job/Unit the texts of the units. Job/Calendar reads a calendar expression back,
--   by systemd.time; it models no code. Generator/Crontab is parse_crontab and generate_timer_unit.
--   Generator/Filter is for_each_file, is_masked and is_backup, Generator/Which is which and
--   HAS_SENDMAIL, Generator/Output output, Generator/Main realmain, Generator/Check the modes
--   --check and --translate, and Generator/Start main and the files that a run of realmain leaves.
--
-- Sys: the files and the C library's calls on them; an oracle says which calls fail, with which
--   error, and how much of a text a failing write leaves behind. Sys/Keeps: what each call changes.
-- Setgid: src/bin/crontab_setgid.c. Setgid/Frame, Setgid/Install and Setgid/Access are what it
--   leaves alone, what it writes, and for whom.
-- Tool: src/bin/crontab.cpp. Tool itself is replace, Tool/Copy copy_FILE, Tool/Edit edit,
--   Tool/Remove remove, Tool/Colour list and colour_crontab, Tool/Options main, test and translate,
--   Tool/Startup what main does to the files before the action, Tool/Child run_generator, confirm
--   and what the command asks of the system. The setgid helper is an argument with the laws of Tool/Replace, which the helper of Setgid is shown to have; the generator is one
--   with the laws of Tool/Generated and Tool/Accepted, which are those of Generator/Check.
--
-- Numbers are native; a std::size_t or std::uint64_t keeps its wrap at 2 ^ 64. A text is a list of
-- bytes, and a view of a line is its bytes with those that follow it. Code that may read outside a
-- table or loop for ever returns a Run. Loops that are not structural take fuel: soft_tokenise one
-- round more than the text has bytes, parse_period one more than the table has values, the base64
-- buffer as many as it can fill, unquote and the two loops over percent signs as many as the text
-- has bytes, since each round takes a byte away.
--
-- Parameters: the random engines, getpwnam, stat, access, getenv, the digest, mbrlen, strtod, the
-- float division of a period by 30, the entries of a directory, the units that the service manager
-- lists and its replies, and the build's configuration; of the command crontab, the editor,
-- getopt_long, rpmatch, systemd-analyze, and how child processes end. Not modelled: log messages, the
-- reading of /proc/uptime, and the shell scripts. Owners, groups and modes of files are left out.
mod Base
pub mod Vore
pub mod Util
pub mod Dam
pub mod Generator
pub mod Sys
pub mod Setgid
pub mod Tool
