-- ===== src/Api.antt =====
-- api/internal/api: the HTTP handlers. What echo parses of a request (path and query parameters,
-- bound bodies) is an argument of the handler.
pub mod Router
pub mod Response
pub mod Common
pub mod Auth
pub mod Pats
pub mod Users
pub mod Profile
pub mod Access
