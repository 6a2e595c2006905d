-- ===== src/Application/Auth/Jwt.antt =====
-- api/internal/application/auth/jwt_manager.go: the JWTManager over the adapter.
use courtknights.Action.{lift, within}
use courtknights.Domain.User.{Time}
use courtknights.Infrastructure.Jwt.{JwtLibrary, Adapter, sign, validate}
use courtknights.Application.Auth.{JwtManager}

-- `NewJWTManager`; the adapter reads the clock `now`.
unfoldable pub new_jwt_manager : {S : Type 0} → JwtLibrary → Adapter → (S → Time) → JwtManager S
new_jwt_manager lib a now = record {
  sign = λ u s. within "jwt manager: sign" (lift (sign lib a u (now s))) s;
  validate = λ token s. within "jwt manager: validate" (lift (validate lib a token (now s))) s;
}
