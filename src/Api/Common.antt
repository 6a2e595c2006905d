-- ===== src/Api/Common.antt =====
-- api/internal/api/common/middleware.go
pub mod Guard
pub mod Session
use Prim.Native.Char.{code}
use Prim.Native.String
use courtknights.Common.{ℕ, String, Bool, true, false, Option, none, some, ◌==◌, eqb, if◌then◌else◌}
use courtknights.Action.{Action, Result, ok, err}
use courtknights.Errors.{message, sentinel, unauthorized}
use courtknights.Infrastructure.Jwt.{Claims}
use courtknights.Application.Auth.{JwtManager}
use courtknights.Api.Response.{Response, http_error}

-- The values that the middleware sets on an echo.Context; `none` where it has not run.
pub record Context : Type 0 where
  pub sub : Option String
  pub email : Option String
  pub role : Option String

-- A failed type assertion gives the empty text.
unfoldable pub is_admin : Context → Bool
is_admin c = elim c.role [ none ↦ false | some role ↦ role == "admin" ]

-- `strings.HasPrefix` and `strings.TrimPrefix` in one.
unfoldable pub cut_prefix : String → String → Option String
cut_prefix String.[] s = some s
cut_prefix (String.◌∷◌ c p) String.[] = none
cut_prefix (String.◌∷◌ c p) (String.◌∷◌ d s) =
    let rest = cut_prefix p s in if eqb (code c) (code d) then rest else none

abbrev pub context_of : Claims → Context
context_of claims = record {
  sub = some claims.subject;
  email = some claims.email;
  role = some claims.role;
}

module _ {S A : Type 0} (jwt : JwtManager S) (next : Context → S → Response A × S) where
  abbrev refused : Response A
  refused = http_error 401 (message (sentinel unauthorized))

  abbrev admit : Result Claims × S → Response A × S
  admit (ok claims, s) = next (context_of claims) s
  admit (err e, s) = (refused, s)

  with_token : Option String → S → Response A × S
  with_token none s = (refused, s)
  with_token (some token) s = admit (jwt.validate token s)

  -- `JWTMiddleware`, on the Authorization header. A header that is empty has no such prefix.
  unfoldable pub jwt_middleware : String → S → Response A × S
  unfolding with_token
  jwt_middleware header s =
      if header == "" then (refused, s) else with_token (cut_prefix "Bearer " header) s
