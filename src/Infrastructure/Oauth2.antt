-- ===== src/Infrastructure/Oauth2.antt =====
-- api/internal/infrastructure/oauth2: what the adapters of Google and GitHub return, over the
-- answers to their requests, which are in Requests.
pub mod Config
pub mod Requests
pub mod Verified
pub mod Fetched
use courtknights.Common.{
  ℤ, String, ◌⧺◌, Bool, true, false, not, ◌&&◌, ◌||◌, Option, none, some, List, [], ◌∷◌, ◌==◌,
  if◌then◌else◌, quote,
}
use courtknights.Action.{Action, Result, ok, err, within, lift, ◌>>=◌}
use courtknights.Errors.{
  Error, opaque, sentinel, wrap, authorization_pending, slow_down, access_denied,
  device_code_expired, invalid_device_code, email_not_verified,
}

pub record UserInfo : Type 0 where
  pub provider_id : String
  pub email : String
  pub name : String

pub record DeviceAuthResponse : Type 0 where
  pub device_code : String
  pub user_code : String
  pub verification_uri : String
  pub expires_in : ℤ
  pub interval : ℤ

-- The interface Provider; the outside world has states `S`.
pub record OauthProvider (S : Type 0) : Type 0 where
  pub auth_code_url : String → String
  pub exchange : String → Action S UserInfo
  pub device_auth : Action S DeviceAuthResponse
  pub device_poll : String → Action S UserInfo

pub record DeviceTokenResponse : Type 0 where
  pub access_token : String
  pub error : String

-- The `switch` of `pollDeviceToken` on a parsed response; `status` is its status as a text.
unfoldable pub device_token : String → DeviceTokenResponse → Result String
device_token status tok =
    if tok.error == ""
    then (if tok.access_token == ""
        then err (
            opaque
              ("device token: status " ⧺ status ⧺ ": response has neither access_token nor error"))
        else ok tok.access_token)
    else if tok.error == "authorization_pending"
    then err (sentinel authorization_pending)
    else if tok.error == "slow_down"
    then err (sentinel slow_down)
    else if tok.error == "access_denied"
    then err (sentinel access_denied)
    else if tok.error == "expired_token"
    then err (sentinel device_code_expired)
    else if tok.error == "invalid_grant"
        || (tok.error == "bad_verification_code" || tok.error == "incorrect_device_code")
    then err (sentinel invalid_device_code)
    else err (opaque ("device token: status " ⧺ status ⧺ ": provider error " ⧺ quote tok.error))

pub record GoogleInfo : Type 0 where
  pub sub : String
  pub email : String
  pub email_verified : Bool
  pub name : String

-- The end of Google's `fetchUserInfo`, on a parsed answer of status 200.
unfoldable pub google_user : GoogleInfo → Result UserInfo
google_user info =
    if info.email == "" || not info.email_verified
    then err (wrap "google" (sentinel email_not_verified))
    else ok (record { provider_id = info.sub; email = info.email; name = info.name })

pub record GithubEmail : Type 0 where
  pub email : String
  pub primary : Bool
  pub verified : Bool

pub record GithubInfo : Type 0 where
  pub id : String
  pub login : String
  pub name : String

-- The loop over the addresses of GitHub's `fetchUserInfo`.
unfoldable pub primary_email : List GithubEmail → String
primary_email [] = ""
primary_email (e ∷ emails) =
    let rest = primary_email emails in if e.primary && e.verified then e.email else rest

-- The rest of it; `info.id` is the number as `%d` prints it.
unfoldable pub github_user : GithubInfo → List GithubEmail → Result UserInfo
unfolding primary_email
github_user info emails =
    let email = primary_email emails in
    if email == ""
    then err (wrap "github" (sentinel email_not_verified))
    else ok (record {
      provider_id = info.id;
      email = email;
      name = if info.name == "" then info.login else info.name;
    })

-- The requests of an adapter, each with what it reads of the answer: the code that is exchanged,
-- the start and the poll of a device request, and the data of a user, for an access token.
pub record Endpoints (S : Type 0) : Type 0 where
  pub auth_code_url : String → String
  pub exchange : String → Action S String
  pub device_auth : Action S DeviceAuthResponse
  pub device_token : String → Action S (String × DeviceTokenResponse)
  pub google_info : String → Action S GoogleInfo
  pub github_info : String → Action S GithubInfo
  pub github_emails : String → Action S (List GithubEmail)

module _ {S : Type 0} (http : Endpoints S) where
  unfoldable pub poll_device_token : String → Action S String
  unfolding device_token
  poll_device_token device_code = do
    answer ← http.device_token device_code
    lift (device_token answer.0 answer.1)

  unfoldable pub google_fetch_user_info : String → Action S UserInfo
  unfolding google_user
  google_fetch_user_info access_token = do
    info ← http.google_info access_token
    lift (google_user info)

  abbrev pub google_provider : OauthProvider S
  google_provider = record {
    auth_code_url = http.auth_code_url;
    exchange = λ code. do
      token ← within "google: exchange" (http.exchange code)
      google_fetch_user_info token;
    device_auth = within "google: device auth" http.device_auth;
    device_poll = λ device_code. do
      token ← within "google: device poll" (poll_device_token device_code)
      google_fetch_user_info token;
  }

  unfoldable pub github_fetch_user_info : String → Action S UserInfo
  unfolding github_user
  github_fetch_user_info access_token = do
    info ← within "github: userinfo" (http.github_info access_token)
    emails ← within "github: emails" (http.github_emails access_token)
    lift (github_user info emails)

  abbrev pub github_provider : OauthProvider S
  github_provider = record {
    auth_code_url = http.auth_code_url;
    exchange = λ code. do
      token ← within "github: exchange" (http.exchange code)
      github_fetch_user_info token;
    device_auth = within "github: device auth" http.device_auth;
    device_poll = λ device_code. do
      token ← within "github: device poll" (poll_device_token device_code)
      github_fetch_user_info token;
  }
