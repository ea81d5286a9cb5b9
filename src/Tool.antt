-- ===== src/Tool.antt =====
-- util/bdtun.c, the command line tool: its options, and what main does with the arguments.
pub mod Options
pub mod Table
pub mod Labels
pub mod Main
pub mod Accepted
pub mod Walk
pub mod Answers
pub mod Listing
pub mod Creating
pub mod Program
pub mod Strings
pub mod Safety
