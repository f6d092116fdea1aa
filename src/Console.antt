-- ===== src/Console.antt =====
-- The control pipe: the commands of `do_control` (xl2tpd.c), and the messages of xl2tpd-control.c.
pub mod Line
pub mod State
pub mod Handlers
pub mod Calls
pub mod Removal
pub mod Messages
pub mod Client
pub mod Tokens
pub mod Options
pub mod Received
pub mod Faults
pub mod Sound
pub mod Keeps
pub mod KeepsRemoval
pub mod Whole
mod Examples
