-- ===== src/Tests/Fetching.antt =====
-- Runs of the adapters of Google and GitHub over an HTTP client that counts its requests.
use courtknights.Common.{
  ℕ, ◌+◌, ◌⧺◌, ◌≡◌, ◌≢◌, refl, true, none, List, [], ◌∷◌, ◌==◌, pos, negsuc, if◌then◌else◌,
}
use courtknights.Action.{ok, err}
use courtknights.Errors.{opaque}
use courtknights.Infrastructure.Oauth2.{
  UserInfo, GoogleInfo, GithubInfo, GithubEmail, google_fetch_user_info, github_fetch_user_info,
  google_user, github_user, primary_email,
}
use courtknights.Infrastructure.Oauth2.Config.{
  ProviderConfig, Endpoint, in_params, Adapter, new_google, new_github,
}
use courtknights.Infrastructure.Oauth2.Requests.{
  Request, Response, Library, google_info, get_json, emails_url, trim_slashes, seconds_until,
}
use courtknights.Infrastructure.Oauth2.Fetched.{
  Got, google_request, google_fetched, GithubFetched, github_fetched,
}

-- Google, as golang.org/x/oauth2 has it.
abbrev pub google_library : Endpoint
google_library = record {
  auth_url = "https://accounts.google.com/o/oauth2/auth";
  token_url = "https://oauth2.googleapis.com/token";
  device_auth_url = "https://oauth2.googleapis.com/device/code";
  auth_style = in_params;
}

abbrev local : ProviderConfig
local = record {
  client_id = "c";
  client_secret = "";
  redirect_url = "";
  auth_url = "";
  token_url = "";
  device_auth_url = "";
  user_info_url = "http://fake/user/";
}

abbrev fake_google : Adapter
fake_google = new_google google_library local

abbrev fake_github : Adapter
fake_github = new_github google_library local

abbrev answers : Request → Response
answers r = record { status = 200; content_type = "application/json"; body = ok r.url }

abbrev gina : GoogleInfo
gina = record { sub = "1"; email = "gina@example.com"; email_verified = true; name = "Gina" }

abbrev hugo : GithubInfo
hugo = record { id = "12"; login = "hugo"; name = "" }

abbrev addresses : List GithubEmail
addresses = record { email = "hugo@example.com"; primary = true; verified = true } ∷ []

-- A body is read as the text that was sent.
abbrev library : Library ℕ
library = record {
  send = λ r n. (ok (answers r), n + 1);
  request_error = λ url. none;
  media_type = λ t. t;
  parse_query = λ body. ok [];
  token_of_json = λ body. ok (record { access_token = body; error = "" });
  google_of_json = λ body. ok gina;
  github_of_json = λ body. ok hugo;
  emails_of_json =
      λ body. if body == "http://fake/user/emails" then ok addresses else err (opaque "no list");
  auth_code_url = λ cfg state. cfg.endpoint.auth_url ⧺ state;
  exchange = λ cfg code n. (ok code, n + 1);
  device_auth = λ cfg n. (err (opaque "unused"), n);
  now = λ n. 0;
}

-- The nearest second, on both sides of now.
rounding :
    (seconds_until 1500000000 0 ≡ pos 2)
    × (seconds_until 1400000000 0 ≡ pos 1)
    × (seconds_until 0 1400000000 ≡ negsuc 0)
unfolding seconds_until
rounding = (refl, refl, refl)

google_fetched_example :
    (info : GoogleInfo) × Got library library.google_of_json
      (google_request library fake_google "t")
      0
      info
      1
    × (info.email_verified ≡ true)
    × (info.email ≢ "")
    × (◌≡◌ {A = UserInfo}
        (record { provider_id = "1"; email = "gina@example.com"; name = "Gina" })
        (record { provider_id = info.sub; email = info.email; name = info.name }))
unfolding google_fetch_user_info google_info google_user new_google
google_fetched_example =
    google_fetched library fake_google "t" 0 1
      (record { provider_id = "1"; email = "gina@example.com"; name = "Gina" }) refl

github_fetched_example :
    GithubFetched library fake_github "t" 0
      (record { provider_id = "12"; email = "hugo@example.com"; name = "hugo" })
      2
unfolding github_fetch_user_info get_json github_user emails_url trim_slashes primary_email
    new_github
github_fetched_example =
    github_fetched library fake_github "t" 0 2
      (record { provider_id = "12"; email = "hugo@example.com"; name = "hugo" }) refl
