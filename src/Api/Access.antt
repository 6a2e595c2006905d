-- ===== src/Api/Access.antt =====
-- The endpoints of api/internal/api/pats and api/internal/api/users that are for administrators,
-- behind the middleware as api/cmd/server mounts them.
use courtknights.Common.{String, ◌≡◌, ◌≢◌}
use courtknights.Infrastructure.Jwt.{Claims}
use courtknights.Application.Auth.{JwtManager}
use courtknights.Api.Response.{Response, http_error}
use courtknights.Api.Common.{Context, context_of}
use courtknights.Api.Common.Guard.{Admitted, Unauthenticated}

-- What a request to an administrator's endpoint comes to.
pub data AdminOnly {S A : Type 0} (jwt : JwtManager S) (header : String) (s : S)
    (h : Context → S → Response A × S) (r : Response A × S) : Type 0 where
  unauthenticated :
      (t : S)
      → Unauthenticated jwt header s t
      → r ≡ (http_error 401 "unauthorized", t)
      → AdminOnly jwt header s h r
  forbidden :
      (claims : Claims) (t : S)
      → Admitted jwt header s claims t
      → claims.role ≢ "admin"
      → r ≡ (http_error 403 "admin role required", t)
      → AdminOnly jwt header s h r
  allowed :
      (claims : Claims) (t : S)
      → Admitted jwt header s claims t
      → claims.role ≡ "admin"
      → r ≡ h (context_of claims) t
      → AdminOnly jwt header s h r
