-- ===== src/Cli.antt =====
-- src/octw/cli/main.py: the commands that an operator gives on the machine itself.
pub mod Commands
pub mod Runs
pub mod Keeps
