-- ===== src/Api/Common/Session.antt =====
-- A token from jwt_manager.go of api/internal/application/auth, back at the middleware.
use courtknights.Common.{◌<◌, ◌≤◌, ◌≡◌}
use courtknights.Domain.User.{Time, User}
use courtknights.Infrastructure.Jwt.{Claims}
use courtknights.Api.Response.{Response, http_error}
use courtknights.Api.Common.{Context, context_of}

-- What a request with a token that holds `claims` until `expiry` comes to at the time `now`.
pub data Session {S A : Type 0} (expiry now : Time) (claims : Claims) (s : S)
    (next : Context → S → Response A × S) (r : Response A × S) : Type 0 where
  open_session : now < expiry → r ≡ next (context_of claims) s → Session expiry now claims s next r
  closed_session :
      expiry ≤ now → r ≡ (http_error 401 "unauthorized", s) → Session expiry now claims s next r
