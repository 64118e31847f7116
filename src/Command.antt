-- ===== src/Command.antt =====
-- cmd/ulsync-server: what the process does from its flags to its exit code.
pub mod Seed
pub mod Start
