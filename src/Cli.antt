-- ===== src/Cli.antt =====
-- The command line, cli/cli.c: its options, its calls and the latency graph that it prints.
pub mod Options
pub mod Accepted
pub mod Graph
pub mod Column
pub mod Main
pub mod Mounted
