-- ===== src/Api/Auth.antt =====
-- api/internal/api/auth: handler.go and errors.go.
pub mod Relay
pub mod Refresh
use courtknights.Common.{
  ℕ, String, ◌⧺◌, query_escape, Bool, true, false, ◌||◌, Option, none, some, List, [], ◌∷◌, ◌==◌,
  if◌then◌else◌,
}
use courtknights.Action.{Action, Result, ok, err}
use courtknights.Errors.{
  Error, opaque, message, is, as_email_conflict, provider_not_configured, authorization_pending,
  slow_down, access_denied, device_code_expired, invalid_device_code, email_not_verified,
  email_already_registered, unauthorized,
}
use courtknights.Domain.User.{Provider, provider_google, provider_github}
use courtknights.Infrastructure.Oauth2.{DeviceAuthResponse}
use courtknights.Application.Auth.{
  AuthManager, oauth_redirect_url, oauth_callback, device_init, device_poll, exchange_pat,
  refresh_jwt,
}
use courtknights.Api.Response.{Response, json, redirect, http_error, answer}

-- A JSON body: a map of texts, or the answer to DeviceInit.
pub data Body : Type 0 where
  object : List (String × String) → Body
  device : DeviceAuthResponse → Body

-- `parseProvider`; its error is the HTTPError 400 that the handlers return.
unfoldable pub parse_provider : String → Option Provider
parse_provider s =
    if s == "google"
    then some provider_google
    else if s == "github"
    then some provider_github
    else none

unfoldable pub provider_error : Error → Response Body
provider_error e =
    if is provider_not_configured e
    then http_error 501 "provider not configured"
    else http_error 500 "internal error"

unfoldable pub device_token_status : Error → Option (ℕ × String)
device_token_status e =
    if is authorization_pending e
    then some (202, "authorization_pending")
    else if is slow_down e
    then some (202, "slow_down")
    else if is access_denied e
    then some (400, "access_denied")
    else if is device_code_expired e
    then some (400, "expired_token")
    else if is invalid_device_code e
    then some (400, "invalid_grant")
    else none

unfoldable pub callback_error_code : Error → Option String
callback_error_code e = if is email_not_verified e then some "email_not_verified" else none

abbrev or_undisclosed : Error → Option String → Option String
or_undisclosed e none = if is email_already_registered e then some "" else none
or_undisclosed e (some p) = some p

unfoldable pub email_conflict_provider : Error → Option String
email_conflict_provider e = or_undisclosed e (as_email_conflict e)

-- An `echo.HTTPError` around another prints as "code=400, message=…".
abbrev unknown_provider : String → Response Body
unknown_provider s = http_error 400 ("code=400, message=unknown provider: " ⧺ s)

abbrev conflict_target : String → String
conflict_target p =
    if p == ""
    then "/?error=email_already_registered"
    else "/?error=email_already_registered&provider=" ⧺ query_escape p

abbrev unauthenticated : Response Body
unauthenticated = http_error 401 "authentication failed"

abbrev callback_conflict : Option String → Response Body
callback_conflict none = unauthenticated
callback_conflict (some p) = redirect (conflict_target p)

abbrev callback_code : Error → Option String → Response Body
callback_code e none = callback_conflict (email_conflict_provider e)
callback_code e (some code) = redirect ("/?error=" ⧺ code)

-- The errors of `oauthCallback`.
unfoldable pub callback_failure : Error → Response Body
unfolding query_escape email_conflict_provider callback_error_code
callback_failure e = callback_code e (callback_error_code e)

abbrev pub error_body : String → Body
error_body code = object (("error", code) ∷ [])

abbrev token_body : String → Body
token_body token = object (("token", token) ∷ [])

abbrev conflict_body : String → Body
conflict_body p =
    if p == ""
    then error_body "email_already_registered"
    else object (("error", "email_already_registered") ∷ ("provider", p) ∷ [])

abbrev device_other : Error → Response Body
device_other e = if is provider_not_configured e then provider_error e else unauthenticated

abbrev device_conflict : Error → Option String → Response Body
device_conflict e none = device_other e
device_conflict e (some p) = json 409 (conflict_body p)

abbrev device_unverified : Error → Option String → Response Body
device_unverified e none = device_conflict e (email_conflict_provider e)
device_unverified e (some code) = json 400 (error_body code)

abbrev device_protocol : Error → Option (ℕ × String) → Response Body
device_protocol e none = device_unverified e (callback_error_code e)
device_protocol e (some (status, code)) = json status (error_body code)

-- The errors of `deviceToken`.
unfoldable pub device_token_failure : Error → Response Body
unfolding device_token_status callback_error_code email_conflict_provider provider_error
device_token_failure e = device_protocol e (device_token_status e)

abbrev refresh_failure : Error → Response Body
refresh_failure e =
    if is unauthorized e
    then http_error 401 "invalid or expired token"
    else http_error 500 "failed to refresh token"

-- A bound body has the text of each field, the empty one if it is missing; `none` is an error of Bind.
abbrev required : Option String → String
required none = ""
required (some s) = s

module _ {S : Type 0} (m : AuthManager S) where
  abbrev redirected : Result String → Response Body
  redirected (ok url) = redirect url
  redirected (err e) = provider_error e

  redirect_known : String → Option Provider → Response Body
  redirect_known s none = unknown_provider s
  redirect_known s (some p) = redirected (oauth_redirect_url m p "ck-state")

  unfoldable pub redirect_to_provider : String → Response Body
  unfolding redirect_known parse_provider provider_error
  redirect_to_provider s = redirect_known s (parse_provider s)

  callback_known : String → String → Option Provider → S → Response Body × S
  callback_known s code none st = (unknown_provider s, st)
  callback_known s code (some p) st =
      if code == ""
      then (http_error 400 "missing code", st)
      else answer (λ token. redirect ("/?token=" ⧺ token)) callback_failure
          (oauth_callback m p code st)

  -- `oauthCallback`, on the path parameter and the query parameter.
  unfoldable pub oauth_callback_handler : String → String → S → Response Body × S
  unfolding callback_known parse_provider callback_failure
  oauth_callback_handler s code st = callback_known s code (parse_provider s) st

  device_auth_known : String → Option Provider → S → Response Body × S
  device_auth_known s none st = (unknown_provider s, st)
  device_auth_known s (some p) st =
      answer (λ r. json 200 (device r)) provider_error (device_init m p st)

  unfoldable pub device_auth_handler : Option String → S → Response Body × S
  unfolding device_auth_known parse_provider provider_error
  device_auth_handler bound st =
      if required bound == ""
      then (http_error 400 "provider is required", st)
      else device_auth_known (required bound) (parse_provider (required bound)) st

  device_token_known : String → String → Option Provider → S → Response Body × S
  device_token_known s device_code none st = (unknown_provider s, st)
  device_token_known s device_code (some p) st =
      answer (λ token. json 200 (token_body token)) device_token_failure
        (device_poll m p device_code st)

  abbrev device_token_bound : Option (String × String) → S → Response Body × S
  device_token_bound none st = (http_error 400 "provider and device_code are required", st)
  device_token_bound (some (s, device_code)) st =
      if s == "" || device_code == ""
      then (http_error 400 "provider and device_code are required", st)
      else device_token_known s device_code (parse_provider s) st

  -- `deviceToken`, on the bound provider and device code.
  unfoldable pub device_token_handler : Option (String × String) → S → Response Body × S
  unfolding device_token_known parse_provider device_token_failure
  device_token_handler bound st = device_token_bound bound st

  unfoldable pub exchange_pat_handler : Option String → S → Response Body × S
  exchange_pat_handler bound st =
      if required bound == ""
      then (http_error 400 "pat is required", st)
      else answer (λ token. json 200 (token_body token)) (λ e. http_error 401 "invalid token")
          (exchange_pat m (required bound) st)

  unfoldable pub refresh_jwt_handler : Option String → S → Response Body × S
  refresh_jwt_handler bound st =
      if required bound == ""
      then (http_error 400 "token is required", st)
      else answer (λ token. json 200 (token_body token)) refresh_failure
          (refresh_jwt m (required bound) st)
