-- ===== src/Infrastructure/Oauth2/Config.antt =====
-- The configurations of google.go and github.go of api/internal/infrastructure/oauth2. The
-- endpoints that golang.org/x/oauth2 knows of the providers are parameters.
use courtknights.Common.{String, List, [], ◌∷◌, ◌==◌, if◌then◌else◌}

-- How golang.org/x/oauth2 sends the client's credentials.
pub data AuthStyle : Type 0 where
  auto_detect in_params in_header : AuthStyle

pub record Endpoint : Type 0 where
  pub auth_url : String
  pub token_url : String
  pub device_auth_url : String
  pub auth_style : AuthStyle

-- `oauth2.Config`
pub record Config : Type 0 where
  pub client_id : String
  pub client_secret : String
  pub redirect_url : String
  pub scopes : List String
  pub endpoint : Endpoint

-- GoogleConfig and GitHubConfig, which have the same fields.
pub record ProviderConfig : Type 0 where
  pub client_id : String
  pub client_secret : String
  pub redirect_url : String
  pub auth_url : String
  pub token_url : String
  pub device_auth_url : String
  pub user_info_url : String

-- GoogleProvider and GitHubProvider, but for the client.
pub record Adapter : Type 0 where
  pub cfg : Config
  pub user_info_url : String

-- `if given != "" { url = given }`
abbrev pub overridden : String → String → String
overridden url given = if given == "" then url else given

abbrev pub google_user_info_url : String
google_user_info_url = "https://www.googleapis.com/oauth2/v3/userinfo"

abbrev pub github_user_url : String
github_user_url = "https://api.github.com/user"

abbrev overridden_endpoint : Endpoint → ProviderConfig → Endpoint
overridden_endpoint e c = record e {
  auth_url = overridden e.auth_url c.auth_url;
  token_url = overridden e.token_url c.token_url;
  device_auth_url = overridden e.device_auth_url c.device_auth_url;
}

-- `NewGoogle`, of `google.Endpoint`.
unfoldable pub new_google : Endpoint → ProviderConfig → Adapter
new_google google c = record {
  cfg = record {
    client_id = c.client_id;
    client_secret = c.client_secret;
    redirect_url = c.redirect_url;
    scopes = "openid" ∷ "email" ∷ "profile" ∷ [];
    endpoint = overridden_endpoint google c;
  };
  user_info_url = overridden google_user_info_url c.user_info_url;
}

-- `NewGitHub`, of `github.Endpoint`.
unfoldable pub new_github : Endpoint → ProviderConfig → Adapter
new_github github c = record {
  cfg = record {
    client_id = c.client_id;
    client_secret = c.client_secret;
    redirect_url = c.redirect_url;
    scopes = "read:user" ∷ "user:email" ∷ [];
    endpoint =
        overridden_endpoint
          (record github {
            device_auth_url = "https://github.com/login/device/code";
            auth_style = in_params;
          })
          c;
  };
  user_info_url = overridden github_user_url c.user_info_url;
}
