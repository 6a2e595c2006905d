-- ===== src/Api/Profile.antt =====
-- api/internal/api/profile: the merge patch and the handlers of profiles.
pub mod Patch
pub mod Handler
pub mod Listing
