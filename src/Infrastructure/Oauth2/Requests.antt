-- ===== src/Infrastructure/Oauth2/Requests.antt =====
-- The requests of device.go, google.go and github.go of api/internal/infrastructure/oauth2. The
-- HTTP client, golang.org/x/oauth2, and of Go's library the parsers of bodies are parameters.
use Prim.Native.Char.{Char, code}
use courtknights.Common.{
  ℕ, ◌+◌, ◌-◌, ◌/◌, String, ◌⧺◌, ◌||◌, not, Option, none, some, List, [], ◌∷◌, ◌==◌, eqb, leb, ℤ,
  pos, negated, decimal, if◌then◌else◌,
}
use courtknights.Common.Dict.{Dict, lookup}
use courtknights.Action.{Action, Result, ok, err, lift, rewrap, ◌>>=◌}
use courtknights.Errors.{Error, opaque, wrap}
use courtknights.Domain.User.{Time}
use courtknights.Infrastructure.Oauth2.{
  DeviceAuthResponse, DeviceTokenResponse, GoogleInfo, GithubInfo, GithubEmail, Endpoints,
}
use courtknights.Infrastructure.Oauth2.Config.{Config, Adapter}

-- A body is a form that url.Values encodes, with one value for a name.
pub record Request : Type 0 where
  pub method : String
  pub url : String
  pub headers : Dict String
  pub form : Dict String

-- `body` is what io.ReadAll reads of it, as a text.
pub record Response : Type 0 where
  pub status : ℕ
  pub content_type : String
  pub body : Result String

-- `oauth2.DeviceAuthResponse`; a zero expiry is none.
pub record DeviceStarted : Type 0 where
  pub device_code : String
  pub user_code : String
  pub verification_uri : String
  pub expiry : Option Time
  pub interval : ℤ

-- `request_error` is what http.NewRequest says of a URL, `media_type` the type that
-- mime.ParseMediaType finds, or the empty text, and `parse_query` gives the first value of a name.
pub record Library (S : Type 0) : Type 0 where
  pub send : Request → Action S Response
  pub request_error : String → Option Error
  pub media_type : String → String
  pub parse_query : String → Result (Dict String)
  pub token_of_json : String → Result DeviceTokenResponse
  pub google_of_json : String → Result GoogleInfo
  pub github_of_json : String → Result GithubInfo
  pub emails_of_json : String → Result (List GithubEmail)
  pub auth_code_url : Config → String → String
  pub exchange : Config → String → Action S String
  pub device_auth : Config → Action S DeviceStarted
  pub now : S → Time

-- `vals.Get(k)`
abbrev value_of : Option String → String
value_of none = ""
value_of (some v) = v

-- `int(time.Until(expiry).Round(time.Second).Seconds())` of times in nanoseconds: the nearest
-- second, and of two the one farther from zero.
unfoldable pub seconds_until : Time → Time → ℤ
seconds_until expiry now =
    if leb now expiry
    then pos ((expiry - now + 500000000) / 1000000000)
    else negated ((now - expiry + 500000000) / 1000000000)

abbrev expires_in : Option Time → Time → ℤ
expires_in none now = pos 0
expires_in (some expiry) now = seconds_until expiry now

-- `toDeviceAuthResponse`
unfoldable pub to_device_auth_response : DeviceStarted → Time → DeviceAuthResponse
unfolding seconds_until
to_device_auth_response resp now = record {
  device_code = resp.device_code;
  user_code = resp.user_code;
  verification_uri = resp.verification_uri;
  expires_in = expires_in resp.expiry now;
  interval = resp.interval;
}

-- The form of `pollDeviceToken`.
abbrev pub token_form : Config → String → Dict String
token_form cfg device_code =
    let form =
      ("grant_type", "urn:ietf:params:oauth:grant-type:device_code")
      ∷ ("device_code", device_code)
      ∷ ("client_id", cfg.client_id)
      ∷ [] in
    if cfg.client_secret == "" then form else ("client_secret", cfg.client_secret) ∷ form

abbrev pub token_request : Config → String → Request
token_request cfg device_code = record {
  method = "POST";
  url = cfg.endpoint.token_url;
  headers =
      ("Content-Type", "application/x-www-form-urlencoded") ∷ ("Accept", "application/json") ∷ [];
  form = token_form cfg device_code;
}

abbrev pub get_request : String → Dict String → Request
get_request url headers = record { method = "GET"; url = url; headers = headers; form = [] }

-- A character before what is left of the text behind it; a slash goes if that is nothing.
abbrev after_char : Char → String → String
after_char c String.[] = if eqb (code c) 47 then String.[] else String.◌∷◌ c String.[]
after_char c (String.◌∷◌ d s) = String.◌∷◌ c (String.◌∷◌ d s)

-- `strings.TrimRight(s, "/")`
unfoldable pub trim_slashes : String → String
trim_slashes String.[] = String.[]
trim_slashes (String.◌∷◌ c s) = after_char c (trim_slashes s)

-- `emailsURL`
unfoldable pub emails_url : Adapter → String
unfolding trim_slashes
emails_url a = trim_slashes a.user_info_url ⧺ "/emails"

abbrev pub prefixed : {A : Type 0} → String → Result A → Result A
prefixed prefix (ok a) = ok a
prefixed prefix (err e) = err (wrap prefix e)

module _ {S : Type 0} (lib : Library S) where
  abbrev token_of_form : Result (Dict String) → Result DeviceTokenResponse
  token_of_form (err e) = err (wrap "parse form response" e)
  token_of_form (ok vals) = ok (record {
    access_token = value_of (lookup "access_token" vals);
    error = value_of (lookup "error" vals);
  })

  -- `parseDeviceTokenResponse`
  unfoldable pub parse_device_token_response : String → String → Result DeviceTokenResponse
  parse_device_token_response content_type body =
      let media_type = lib.media_type content_type in
      if media_type == "application/x-www-form-urlencoded" || media_type == "text/plain"
      then token_of_form (lib.parse_query body)
      else prefixed "parse JSON response" (lib.token_of_json body)

  abbrev with_status : ℕ → Result DeviceTokenResponse → Result (String × DeviceTokenResponse)
  with_status status (ok tok) = ok (decimal status, tok)
  with_status status (err e) = err (wrap ("device token: status " ⧺ decimal status) e)

  -- `http.NewRequestWithContext` and `client.Do`; the error of each has its prefix.
  abbrev pub sent : (Error → Error) → (Error → Error) → Request → Option Error → Action S Response
  sent bad_request unsent r (some e) s = (err (bad_request e), s)
  sent bad_request unsent r none s = rewrap unsent (lib.send r s)

  abbrev pub do_request : (Error → Error) → (Error → Error) → Request → Action S Response
  do_request bad_request unsent r = sent bad_request unsent r (lib.request_error r.url)

  -- `pollDeviceToken` up to its `switch`. The limit of 1 MB on the body is not modelled.
  unfoldable pub request_device_token : Config → String → Action S (String × DeviceTokenResponse)
  unfolding parse_device_token_response
  request_device_token cfg device_code = do
    resp ←
        do_request (wrap "device token request") (wrap "device token")
          (token_request cfg device_code)
    body ← lift (prefixed "read device token response" resp.body)
    lift (with_status resp.status (parse_device_token_response resp.content_type body))

  abbrev pub unexpected_status : ℕ → String → Error
  unexpected_status status body = opaque ("unexpected status " ⧺ decimal status ⧺ ": " ⧺ body)

  -- What Google's `fetchUserInfo` decodes of a body that it has read.
  abbrev pub google_decoded : ℕ → String → Result GoogleInfo
  google_decoded status body =
      if not (eqb status 200)
      then err (wrap "google: userinfo" (unexpected_status status body))
      else prefixed "google: parse userinfo" (lib.google_of_json body)

  -- The request of Google's `fetchUserInfo`.
  unfoldable pub google_info : Adapter → String → Action S GoogleInfo
  google_info a access_token = do
    resp ←
        do_request (wrap "google: userinfo request") (wrap "google: userinfo")
          (get_request a.user_info_url (("Authorization", "Bearer " ⧺ access_token) ∷ []))
    body ← lift (prefixed "google: read userinfo" resp.body)
    lift (google_decoded resp.status body)

  abbrev pub json_decoded : {A : Type 0} → (String → Result A) → ℕ → String → Result A
  json_decoded decode status body =
      if not (eqb status 200)
      then err (unexpected_status status body)
      else prefixed "parse" (decode body)

  -- `getJSON`, with the decoder of the type of `out`.
  unfoldable pub get_json : {A : Type 0} → (String → Result A) → String → String → Action S A
  get_json decode url access_token = do
    resp ←
        do_request (wrap "request") (λ e. e)
          (get_request url (
            ("Authorization", "Bearer " ⧺ access_token)
            ∷ ("Accept", "application/vnd.github+json")
            ∷ []))
    body ← lift (prefixed "read body" resp.body)
    lift (json_decoded decode resp.status body)

  abbrev started : Result DeviceStarted × S → Result DeviceAuthResponse × S
  started (ok resp, s) = (ok (to_device_auth_response resp (lib.now s)), s)
  started (err e, s) = (err e, s)

  -- The requests of an adapter; only those of its own provider are made.
  abbrev pub endpoints : Adapter → Endpoints S
  endpoints a = record {
    auth_code_url = lib.auth_code_url a.cfg;
    exchange = lib.exchange a.cfg;
    device_auth = λ s. started (lib.device_auth a.cfg s);
    device_token = request_device_token a.cfg;
    google_info = google_info a;
    github_info = get_json lib.github_of_json a.user_info_url;
    github_emails = get_json lib.emails_of_json (emails_url a);
  }
