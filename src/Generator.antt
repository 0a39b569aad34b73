-- ===== src/Generator.antt =====
-- src/bin/systemd-crontab-generator.cpp: the program that turns crontabs into units.
pub mod Run
pub mod OrderedSet
pub mod Field
pub mod Period
pub mod Host
pub mod Environment
pub mod Job
pub mod Crontab
pub mod Filter
pub mod Which
pub mod Output
pub mod Check
pub mod Main
pub mod Samples
pub mod Start
