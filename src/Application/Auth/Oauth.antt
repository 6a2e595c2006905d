-- ===== src/Application/Auth/Oauth.antt =====
-- api/internal/application/auth/oauth_manager.go: the registry of providers.
use courtknights.Common.{String, quote, Option, none, some}
use courtknights.Common.Dict.{Dict, lookup}
use courtknights.Action.{Action, Result, ok, err, within, lift, ◌>>=◌}
use courtknights.Errors.{opaque, sentinel, join, provider_not_configured}
use courtknights.Domain.User.{Provider}
use courtknights.Application.Auth.{OauthManager}
use courtknights.Infrastructure.Oauth2.{UserInfo, DeviceAuthResponse, OauthProvider}

module _ {S : Type 0} (providers : Dict (OauthProvider S)) where
  abbrev pub registered : Provider → Option (OauthProvider S) → Result (OauthProvider S)
  registered p none =
      err (join "oauth manager" (sentinel provider_not_configured) (opaque (quote p)))
  registered p (some found) = ok found

  unfoldable pub provider : Provider → Result (OauthProvider S)
  unfolding lookup
  provider p = registered p (lookup p providers)

  abbrev url_of : String → Result (OauthProvider S) → Result String
  url_of state (ok p) = ok (p.auth_code_url state)
  url_of state (err e) = err e

  unfoldable pub redirect_url : Provider → String → Result String
  unfolding provider
  redirect_url p state = url_of state (provider p)

  unfoldable pub exchange : Provider → String → Action S UserInfo
  unfolding provider
  exchange p code = do
    found ← lift (provider p)
    within "oauth manager: exchange" (found.exchange code)

  unfoldable pub device_auth : Provider → Action S DeviceAuthResponse
  unfolding provider
  device_auth p = do
    found ← lift (provider p)
    within "oauth manager: device auth" found.device_auth

  unfoldable pub device_poll : Provider → String → Action S UserInfo
  unfolding provider
  device_poll p device_code = do
    found ← lift (provider p)
    within "oauth manager: device poll" (found.device_poll device_code)

  -- `NewOAuthManager`
  abbrev pub new_oauth_manager : OauthManager S
  new_oauth_manager = record {
    redirect_url = redirect_url;
    exchange = exchange;
    device_auth = device_auth;
    device_poll = device_poll;
  }
