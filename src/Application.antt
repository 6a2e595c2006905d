-- ===== src/Application.antt =====
-- api/internal/application: the managers between the HTTP layer and the repositories.
pub mod Profile
pub mod Auth
