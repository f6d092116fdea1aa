-- ===== src/File.antt =====
-- file.c: the configuration file, from its lines to `gconfig` and the lists of LNS and LAC entries.
pub mod Text
pub mod Entries
pub mod Options
pub mod Numbers
pub mod Hosts
pub mod Keywords
pub mod Settings
pub mod Parse
pub mod Sound
pub mod Case
pub mod Layout
pub mod Lines
pub mod Reading
pub mod Heading
pub mod Assignment
pub mod Written
pub mod Start
mod Examples
