-- ===== src/Application/Auth.antt =====
-- api/internal/application/auth/manager.go: the AuthManager over its sub-managers.
pub mod Users
pub mod Oauth
pub mod Jwt
use courtknights.Common.{
  ℕ, String, Bool, true, false, Option, none, some, List, ◌==◌, if◌then◌else◌,
}
use courtknights.Action.{
  Action, Result, ok, err, pure, fail, lift, within, handle, rewrap, ◌>>=◌, ◌>>◌,
}
use courtknights.Errors.{Error, sentinel, wrap, join, is, unauthorized, user_not_found}
use courtknights.Domain.User.{Uuid, Time, Role, Provider, User}
use courtknights.Domain.Pat.{Pat}
use courtknights.Infrastructure.Jwt.{Claims}
use courtknights.Infrastructure.Oauth2.{UserInfo, DeviceAuthResponse}

-- The interface UserManager.
pub record UserManager (S : Type 0) : Type 0 where
  pub resolve_by_oauth : Provider → String → String → String → Action S User
  pub resolve_by_pat : String → Action S User
  pub create_pat : Uuid → Option Time → Action S String
  pub revoke_pat : Uuid → Action S (Unit {0})
  pub list_pats : Action S (List Pat)
  pub bootstrap_admin : String → String → String → Action S (Option User × String)
  pub update_user_role : Uuid → Role → Action S (Unit {0})
  pub find_by_id : Uuid → Action S User

-- The interface JWTManager; it reads the clock.
pub record JwtManager (S : Type 0) : Type 0 where
  pub sign : User → Action S String
  pub validate : String → Action S Claims

-- The interface OAuthManager.
pub record OauthManager (S : Type 0) : Type 0 where
  pub redirect_url : Provider → String → Result String
  pub exchange : Provider → String → Action S UserInfo
  pub device_auth : Provider → Action S DeviceAuthResponse
  pub device_poll : Provider → String → Action S UserInfo

-- An AuthManager: its sub-managers, EnsureExists of the ProfileInitializer, and `uuid.Parse`.
pub record AuthManager (S : Type 0) : Type 0 where
  pub user : UserManager S
  pub jwt : JwtManager S
  pub oauth : OauthManager S
  pub ensure_profile : Uuid → String → Action S (Unit {0})
  pub parse_uuid : String → Option Uuid

module _ {S : Type 0} (m : AuthManager S) where
  unfoldable pub oauth_redirect_url : Provider → String → Result String
  oauth_redirect_url provider state = m.oauth.redirect_url provider state

  -- What a login does once the provider has named the user.
  login : String → Provider → UserInfo → Action S String
  login prefix provider info = do
    u ← within prefix (m.user.resolve_by_oauth provider info.provider_id info.email info.name)
    within prefix (m.ensure_profile u.id u.name)
    m.jwt.sign u

  unfoldable pub oauth_callback : Provider → String → Action S String
  unfolding login
  oauth_callback provider code = do
    info ← within "auth manager: OAuthCallback" (m.oauth.exchange provider code)
    login "auth manager: OAuthCallback" provider info

  unfoldable pub device_init : Provider → Action S DeviceAuthResponse
  device_init provider = m.oauth.device_auth provider

  unfoldable pub device_poll : Provider → String → Action S String
  unfolding login
  device_poll provider device_code = do
    info ← within "auth manager: DevicePoll" (m.oauth.device_poll provider device_code)
    login "auth manager: DevicePoll" provider info

  unfoldable pub exchange_pat : String → Action S String
  exchange_pat raw = do
    u ← within "auth manager: ExchangePAT" (m.user.resolve_by_pat raw)
    m.jwt.sign u

  -- The error of RefreshJWT for one of FindByID.
  unfoldable pub refresh_error : Error → Error
  refresh_error e =
      if is user_not_found e
      then join "auth manager: RefreshJWT" (sentinel unauthorized) e
      else wrap "auth manager: RefreshJWT" e

  unfoldable pub refresh_user : Option Uuid → Action S String
  unfolding refresh_error
  refresh_user none s =
      (err (wrap "auth manager: RefreshJWT: invalid subject" (sentinel unauthorized)), s)
  refresh_user (some id) s =
      handle (λ e. fail (refresh_error e)) m.jwt.sign (m.user.find_by_id id s)

  unfoldable pub refresh_jwt : String → Action S String
  unfolding refresh_user
  refresh_jwt token = do
    claims ← within "auth manager: RefreshJWT" (m.jwt.validate token)
    refresh_user (m.parse_uuid claims.subject)

  unfoldable pub create_pat : Uuid → Option Time → Action S String
  create_pat user_id expires_at = m.user.create_pat user_id expires_at

  unfoldable pub revoke_pat : Uuid → Action S (Unit {0})
  revoke_pat id = m.user.revoke_pat id

  unfoldable pub list_pats : Action S (List Pat)
  list_pats = m.user.list_pats

  unfoldable pub update_user_role : Uuid → Role → Action S (Unit {0})
  update_user_role user_id role = m.user.update_user_role user_id role

  -- No user is a bootstrap that found users already.
  unfoldable pub bootstrap_profile : Option User × String → Action S String
  bootstrap_profile (none, token) = pure token
  bootstrap_profile (some u, token) = do
    within "auth manager: BootstrapAdmin" (m.ensure_profile u.id u.name)
    pure token

  unfoldable pub bootstrap_admin : String → String → String → Action S String
  unfolding bootstrap_profile
  bootstrap_admin email name raw = do
    made ← within "auth manager: BootstrapAdmin" (m.user.bootstrap_admin email name raw)
    bootstrap_profile made
