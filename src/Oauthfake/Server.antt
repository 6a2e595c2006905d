-- ===== src/Oauthfake/Server.antt =====
-- tools/oauthfake/server.go, but for the HTML pages and the login, which is in Authorize. A form is a
-- map with one value for a name; the random source is a parameter, as in the store.
pub mod Authorize
pub mod Relay
use courtknights.Common.{
  ℕ, ◌/◌, String, ◌⧺◌, Bool, true, false, not, ◌&&◌, ◌||◌, Option, none, some, List, [], ◌∷◌, ◌==◌,
  eqb, if◌then◌else◌,
}
use courtknights.Common.Dict.{Dict, lookup}
use courtknights.Oauthfake.Identity.{
  Identity, no_identity, new_identity, with_email_verified, google_sub, github_id,
}
use courtknights.Oauthfake.Store.{
  Store, StoreError, invalid_grant, pending_authorization, slow_down, access_denied, expired_token,
  unknown_code, not_pending, invalid_bearer, Reply, done, failed, panic, issue_code, redeem_code,
  lookup_token,
}
use courtknights.Oauthfake.Store.DeviceRequests.{start_device, second, resolve_device, poll_device}
use courtknights.Api.Common.{cut_prefix}

unfoldable pub error_text : StoreError → String
error_text invalid_grant = "invalid_grant"
error_text pending_authorization = "authorization_pending"
error_text slow_down = "slow_down"
error_text access_denied = "access_denied"
error_text expired_token = "expired_token"
error_text unknown_code = "unknown user code"
error_text not_pending = "device request is not pending"
error_text invalid_bearer = "invalid access token"

-- What an endpoint answers; `crashed` is a nil pointer that the store dereferences.
pub data Answer : Type 0 where
  http_error : ℕ → String → Answer
  redirect : String → Answer
  no_content : Answer
  page : ℕ → String → Answer
  token_answer : String → Answer
  oauth_error : String → String → Answer
  device_answer : String → String → String → String → ℕ → ℕ → Answer
  login_page : String → String → Answer
  google_user : String → String → Bool → String → Answer
  github_user : ℕ → String → String → Answer
  github_emails : String → Bool → Answer
  crashed : Answer

unfoldable pub get : Dict String → String → String
unfolding lookup
get form name = elim (lookup name form) [ none ↦ "" | some v ↦ v ]

abbrev pub as_answer : Reply String × Store → Answer × Store
as_answer (done token, s) = (token_answer token, s)
as_answer (failed e, s) = (oauth_error (error_text e) "", s)
as_answer (panic, s) = (crashed, s)

-- `token`; a form that does not parse is `none`.
unfoldable pub token : String → Option (Dict String) → ℕ → List ℕ → Store → Answer × Store
unfolding error_text redeem_code poll_device get
token provider none now bytes s = (oauth_error "invalid_request" "invalid form body", s)
token provider (some form) now bytes s =
    if get form "grant_type" == "authorization_code"
    then as_answer (redeem_code provider (get form "code") (get form "redirect_uri") now bytes s)
    else if get form "grant_type" == "urn:ietf:params:oauth:grant-type:device_code"
    then as_answer (poll_device provider (get form "device_code") now bytes s)
    else (
      oauth_error "unsupported_grant_type" "grant_type must be authorization_code or device_code",
      s,
    )

abbrev verification_field : String → String
verification_field provider =
    if provider == "google" then "verification_url" else "verification_uri"

-- `deviceCode`, with the name and the value of the field for the verification page.
unfoldable pub device_code :
    String → String → ℕ → List ℕ → List (List ℕ) → Store → Option (Answer × Store)
unfolding start_device
device_code base_url provider now bytes draws s = elim (start_device provider now bytes draws s) [
  | none ↦ none
  | some (d, t) ↦ some (
    device_answer d.device_code d.user_code (verification_field provider)
        (base_url ⧺ "/" ⧺ provider ⧺ "/device") (d.expires_in / second) (d.interval / second),
    t,
  )
]

abbrev without_email : Dict String → Identity → Identity
without_email form id =
    if get form "email_unverified" == "" then id else record id { email_verified = false }

-- The identity of a form that approves.
abbrev approving : Dict String → Option Identity → Option Identity
approving form none = none
approving form (some id) =
    some (without_email form (with_email_verified id (get form "email_verified")))

abbrev resolved : Bool → Identity → Reply (Unit {0}) × Store → Option (ℕ × String) × Store
resolved approve id (failed unknown_code, s) = (some (404, "unknown user code"), s)
resolved approve id (failed not_pending, s) =
    (some (409, "this code was already used or has expired"), s)
resolved approve id (panic, s) = (none, s)
resolved true id (_, s) =
    (some (200, "Device approved for " ⧺ id.login ⧺ ". You can return to your terminal."), s)
resolved false id (_, s) = (some (200, "Device request denied."), s)

abbrev resolve_as :
    String → Dict String → Bool → Option Identity → ℕ → Store → Option (ℕ × String) × Store
resolve_as provider form approve none now s = (some (400, "login is required to approve"), s)
resolve_as provider form approve (some id) now s =
    resolved approve id (resolve_device provider (get form "user_code") approve id now s)

abbrev resolving : Bool → Dict String → Option Identity
resolving true form =
    approving form (new_identity (get form "login") (get form "email") (get form "name"))
resolving false form = some no_identity

-- `server.resolveDevice`; `none` is the nil pointer.
unfoldable pub resolve_form : String → Dict String → Bool → ℕ → Store → Option (ℕ × String) × Store
unfolding resolve_device new_identity with_email_verified get
resolve_form provider form approve now s =
    resolve_as provider form approve (resolving approve form) now s

abbrev result_page : Option (ℕ × String) × Store → Answer × Store
result_page (none, s) = (crashed, s)
result_page (some (status, message), s) = (page status message, s)

unfoldable pub device_submit : String → Option (Dict String) → ℕ → Store → Answer × Store
unfolding resolve_form get
device_submit provider none now s = (http_error 400 "invalid form", s)
device_submit provider (some form) now s =
    result_page (resolve_form provider form (not (get form "action" == "deny")) now s)

abbrev result_status : Option (ℕ × String) × Store → Answer × Store
result_status (none, s) = (crashed, s)
result_status (some (status, message), s) =
    if eqb status 200 then (no_content, s) else (http_error status message, s)

unfoldable pub device_resolve_api :
    Bool → String → Option (Dict String) → ℕ → Store → Answer × Store
unfolding resolve_form
device_resolve_api approve provider none now s = (http_error 400 "invalid form", s)
device_resolve_api approve provider (some form) now s =
    result_status (resolve_form provider form approve now s)

abbrev with_identity : (Identity → Answer) → Reply Identity → Answer
with_identity show (done id) = show id
with_identity show (failed e) = http_error 401 (error_text e)
with_identity show panic = crashed

-- `bearerIdentity`, on the Authorization header, and what the endpoint then shows.
unfoldable pub bearer : (Identity → Answer) → String → String → Store → Answer
unfolding error_text lookup_token cut_prefix
bearer show provider header s = elim (cut_prefix "Bearer " header) [
  | none ↦ http_error 401 "missing bearer token"
  | some t ↦ with_identity show (lookup_token provider t s)
]

unfoldable pub google_user_info : String → Store → Answer
unfolding bearer google_sub
google_user_info header s =
    bearer (λ id. google_user (google_sub id) id.email id.email_verified id.name) "google" header s

unfoldable pub github_user_info : String → Store → Answer
unfolding bearer github_id
github_user_info header s =
    bearer (λ id. github_user (github_id id) id.login id.name) "github" header s

-- The one address is primary.
unfoldable pub github_user_emails : String → Store → Answer
unfolding bearer
github_user_emails header s =
    bearer (λ id. github_emails id.email id.email_verified) "github" header s

-- `withProvider`
unfoldable pub with_provider : {A : Type 0} → A → (String → A) → String → A
with_provider not_found handler p =
    if not (p == "google") && not (p == "github") then not_found else handler p
