-- ===== src/Cli.antt =====
-- cmd/warp/main.go: the commands.
pub mod Monitor
pub mod Commands
