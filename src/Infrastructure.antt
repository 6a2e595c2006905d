-- ===== src/Infrastructure.antt =====
-- api/internal/infrastructure: the adapters of the managers to the outside.
pub mod Jwt
pub mod Oauth2
pub mod Postgres
