-- ===== src/Api/Users.antt =====
-- api/internal/api/users/handler.go
use courtknights.Common.{String, Option, none, some, List, [], ◌∷◌, not, ◌&&◌, ◌==◌, if◌then◌else◌}
use courtknights.Domain.User.{Uuid, role_admin, role_user}
use courtknights.Application.Auth.{AuthManager, update_user_role}
use courtknights.Api.Response.{Response, json, http_error, answer}
use courtknights.Api.Common.{Context, is_admin}

abbrev Body : Type 0
Body = List (String × String)

abbrev me_body : Option String → Option String → Option String → Option (Response Body)
me_body (some sub) (some email) (some role) =
    some (json 200 (("id", sub) ∷ ("email", email) ∷ ("role", role) ∷ []))
me_body _ _ _ = none

-- `none` is the panic of a type assertion on a context that the middleware has not filled.
unfoldable pub me : Context → Option (Response Body)
me c = me_body c.sub c.email c.role

module _ {S : Type 0} (parse_uuid : String → Option Uuid) (uuid_string : Uuid → String)
    (m : AuthManager S) where
  set_role : Uuid → String → S → Response Body × S
  set_role user_id role s =
      if role == ""
      then (http_error 400 "role is required", s)
      else if not (role == role_admin) && not (role == role_user)
      then (http_error 400 "invalid role, must be 'admin' or 'user'", s)
      else answer (λ _. json 200 (("id", uuid_string user_id) ∷ ("role", role) ∷ []))
          (λ e. http_error 500 "failed to update role") (update_user_role m user_id role s)

  update_parsed : Option Uuid → Option String → S → Response Body × S
  unfolding set_role
  update_parsed none bound s = (http_error 400 "invalid user id", s)
  update_parsed (some user_id) none s = (http_error 400 "role is required", s)
  update_parsed (some user_id) (some role) s = set_role user_id role s

  -- `updateRole`, on the path parameter and the bound role.
  unfoldable pub update_role_handler : String → Option String → Context → S → Response Body × S
  unfolding update_parsed
  update_role_handler id bound c s =
      if not (is_admin c)
      then (http_error 403 "admin role required", s)
      else update_parsed (parse_uuid id) bound s
