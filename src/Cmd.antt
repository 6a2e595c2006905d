-- ===== src/Cmd.antt =====
-- api/cmd/server: the configuration of the server, and how its parts are put together.
pub mod Config
pub mod Flags
pub mod Run
