-- ===== src/Api/Router.antt =====
-- api/internal/api/router.go, the routes.go of its features, and how cmd/server mounts them. Echo
-- itself is a parameter: it finds the route of a request.
use courtknights.Common.{
  ℕ, zero, suc, String, ◌⧺◌, ◌≡◌, refl, subst, ◌∙◌, Bool, true, false, none, some, List, [], ◌∷◌,
  ◌++◌, get_elem?, is_some, All, if◌then◌else◌,
}
use courtknights.Application.Auth.{JwtManager}
use courtknights.Api.Response.{Response}
use courtknights.Api.Common.{Context, cut_prefix, jwt_middleware}
use courtknights.Api.Common.Guard.{Guarded, jwt_middleware-Guarded}

-- The handlers that routes name.
pub data HandlerName : Type 0 where
  redirect_to_provider oauth_callback device_auth device_token exchange_pat refresh_jwt :
      HandlerName
  create_pat list_pats revoke_pat : HandlerName
  me update_role : HandlerName
  list_users get_my_profile update_my_profile get_user_profile : HandlerName

pub record Route : Type 0 where
  pub method : String
  pub path : String
  pub target : HandlerName

abbrev route : String → String → HandlerName → Route
route method path target = record { method = method; path = path; target = target }

-- `Register` of each feature.
abbrev pub auth_routes : List Route
auth_routes =
    route "GET" "/:provider" redirect_to_provider
    ∷ route "GET" "/:provider/callback" oauth_callback
    ∷ route "POST" "/device" device_auth
    ∷ route "POST" "/device/token" device_token
    ∷ route "POST" "/token/pat" exchange_pat
    ∷ route "POST" "/refresh" refresh_jwt
    ∷ []

abbrev pub pats_routes : List Route
pats_routes =
    route "POST" "/pats" create_pat
    ∷ route "GET" "/pats" list_pats
    ∷ route "DELETE" "/pats/:id" revoke_pat
    ∷ []

abbrev pub users_routes : List Route
users_routes = route "GET" "/users/me" me ∷ route "PUT" "/users/:id/role" update_role ∷ []

abbrev pub profile_routes : List Route
profile_routes =
    route "GET" "/users" list_users
    ∷ route "GET" "/users/me/profile" get_my_profile
    ∷ route "PATCH" "/users/me/profile" update_my_profile
    ∷ route "GET" "/users/:id/profile" get_user_profile
    ∷ []

-- A route of the Router, with whether the JWT middleware stands before its handler.
pub record Mounted : Type 0 where
  pub method : String
  pub path : String
  pub target : HandlerName
  pub guarded : Bool

-- `g := r.echo.Group(prefix, ...); registrar.Register(g)`
abbrev mounted : String → Bool → List Route → List Mounted
mounted prefix guarded [] = []
mounted prefix guarded (r ∷ rs) =
    record { method = r.method; path = prefix ⧺ r.path; target = r.target; guarded = guarded }
    ∷ mounted prefix guarded rs

abbrev pub mount_public : String → List Route → List Mounted → List Mounted
mount_public prefix routes router = router ++ mounted prefix false routes

abbrev pub mount_protected : String → List Route → List Mounted → List Mounted
mount_protected prefix routes router = router ++ mounted prefix true routes

-- The Router as `runServer` fills it.
unfoldable pub server_routes : List Mounted
server_routes =
    let public = mount_public "/auth" auth_routes [] in
    let with_pats = mount_protected "/api/v1" pats_routes public in
    let with_users = mount_protected "/api/v1" users_routes with_pats in
    mount_protected "/api/v1" profile_routes with_users

-- Where the middleware has not run, the context has no values.
abbrev no_context : Context
no_context = record { sub = none; email = none; role = none }

module _ {S A : Type 0} (jwt : JwtManager S)
    (handlers : HandlerName → Context → S → Response A × S) where
  -- What a request that Echo finds the route `m` for comes to.
  unfoldable pub serve : Mounted → String → S → Response A × S
  serve m header s =
      if m.guarded
      then jwt_middleware jwt (handlers m.target) header s
      else handlers m.target no_context s

abbrev under_api : Mounted → Bool
under_api m = is_some (cut_prefix "/api/v1/" m.path)

-- The routes below /api/v1 are those behind the middleware.
server_routes_guarded : All (λ m. m.guarded ≡ under_api m) server_routes
unfolding server_routes cut_prefix
server_routes_guarded = (
  refl,
  (
    refl,
    (
      refl,
      (
        refl,
        (refl, (refl, (refl, (refl, (refl, (refl, (refl, (refl, (refl, (refl, (refl, tt))))))))))),
      ),
    ),
  ),
)

get_elem?-All :
    {A : Type 0} (P : A → Type 0) (xs : List A) (i : ℕ) (x : A)
    → All P xs
    → get_elem? xs i ≡ some x
    → P x
get_elem?-All P [] i x _ h = absurd (cc h)
get_elem?-All P (y ∷ ys) zero x (p, _) h = let e : y ≡ x = cc in subst P e p
get_elem?-All P (y ∷ ys) (suc i) x (_, ps) h = get_elem?-All P ys i x ps h

-- Every request that Echo finds a route below /api/v1 for is either turned away with the status
-- 401, and has changed nothing but what checking its token does, or has a token that the
-- JWTManager accepts and reaches the handler of the route with the claims of that token.
pub serve-Guarded :
    {S A : Type 0} (jwt : JwtManager S) (handlers : HandlerName → Context → S → Response A × S)
    (i : ℕ) (m : Mounted) (header : String) (s : S)
    → get_elem? server_routes i ≡ some m
    → is_some (cut_prefix "/api/v1/" m.path) ≡ true
    → Guarded jwt header s (handlers m.target) (serve jwt handlers m header s)
unfolding serve
serve-Guarded jwt handlers i m header s there under =
    let guarded : m.guarded ≡ true =
      get_elem?-All (λ r. r.guarded ≡ under_api r) server_routes i m server_routes_guarded there
      ∙ under in
    rw guarded (jwt_middleware-Guarded jwt (handlers m.target) header s)
