-- ===== src/Oauthfake.antt =====
-- tools/oauthfake: a fake of the Google and GitHub providers. Its program keeps all state in a
-- store behind one mutex, so each operation of the store is one step.
pub mod Identity
pub mod Store
pub mod Server
