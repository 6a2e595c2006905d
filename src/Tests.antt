-- ===== src/Tests.antt =====
-- Test data, runs at concrete inputs, and the theorems at inputs that meet their hypotheses.
mod Rows
mod Collation
mod Listed
mod Fetching
mod Startup
mod Profiles
mod Devices
mod Codes
mod Accounts
mod Requests
mod Tokens
mod Patches
