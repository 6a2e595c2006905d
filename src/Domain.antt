-- ===== src/Domain.antt =====
-- api/internal/domain: the entities and the contracts of their repositories.
pub mod User
pub mod Pat
pub mod Profile
