-- ===== src/Cmd/Run.antt =====
-- api/cmd/server/server.go: how the parts of the server are put together, over a database that the
-- outside world shares.
pub mod Bootstrap
pub mod Providers
use courtknights.Common.{ℕ, String, ◌⧺◌, Bool, ◌||◌, Option, List, [], ◌==◌, if◌then◌else◌}
use courtknights.Common.Dict.{Dict, store}
use courtknights.Action.{Action, Result, ok, err, pure, lift, within, ◌>>=◌, ◌>>◌}
use courtknights.Domain.User.{Uuid, Time, provider_google, provider_github}
use courtknights.Domain.Profile.Location.{Dataset}
use courtknights.Infrastructure.Jwt.{JwtLibrary, Adapter, new_with_config}
use courtknights.Infrastructure.Oauth2.{OauthProvider, google_provider, github_provider}
use courtknights.Infrastructure.Oauth2.Config.{Endpoint, ProviderConfig, new_google, new_github}
use courtknights.Infrastructure.Oauth2.Requests.{Library, endpoints}
use courtknights.Infrastructure.Postgres.{Database}
use courtknights.Infrastructure.Postgres.Users.{new_user_repository}
use courtknights.Infrastructure.Postgres.Pats.{new_pat_repository}
use courtknights.Infrastructure.Postgres.Profiles.{Ordering, new_profile_repository}
use courtknights.Application.Auth.{AuthManager, JwtManager, bootstrap_admin}
use courtknights.Application.Auth.Users.{Environment, new_user_manager}
use courtknights.Application.Auth.Oauth.{new_oauth_manager}
use courtknights.Application.Auth.Jwt.{new_jwt_manager}
use courtknights.Application.Profile.{ensure_exists}
use courtknights.Cmd.Config.{Config, OauthConfig, BootstrapConfig}

-- What the server is linked with: the libraries, the random source, the clock, and how the
-- database sorts. `connect` is pgxpool.New, and `start` is Echo's Start, where http.ErrServerClosed
-- is no error.
pub record World : Type 0 where
  pub env : Environment Database
  pub now : Database → Time
  pub order : Ordering
  pub countries : Dataset
  pub jwt_library : JwtLibrary
  pub http : Library Database
  pub google_endpoint : Endpoint
  pub github_endpoint : Endpoint
  pub parse_uuid : String → Option Uuid
  pub connect : String → Action Database (Unit {0})
  pub start : String → AuthManager Database → Action Database (Unit {0})

-- The GoogleConfig or GitHubConfig of the settings of a provider.
abbrev pub provider_config : OauthConfig → ProviderConfig
provider_config c = record {
  client_id = c.client_id;
  client_secret = c.client_secret;
  redirect_url = c.redirect_url;
  auth_url = c.auth_url;
  token_url = c.token_url;
  device_auth_url = c.device_auth_url;
  user_info_url = c.user_info_url;
}

-- `runBootstrap`; what it logs is not modelled.
unfoldable pub run_bootstrap : BootstrapConfig → AuthManager Database → Action Database (Unit {0})
run_bootstrap cfg m =
    if cfg.email == "" || (cfg.name == "" || cfg.pat == "")
    then pure tt
    else (within "BootstrapAdmin" (bootstrap_admin m cfg.email cfg.name cfg.pat) >> pure tt)

module _ (w : World) where
  abbrev pub google : Config → OauthProvider Database
  google cfg =
      google_provider (endpoints w.http (new_google w.google_endpoint (provider_config cfg.google)))

  abbrev pub github : Config → OauthProvider Database
  github cfg =
      github_provider (endpoints w.http (new_github w.github_endpoint (provider_config cfg.github)))

  abbrev with_google : Config → Dict (OauthProvider Database) → Dict (OauthProvider Database)
  with_google cfg providers =
      if cfg.google.client_id == "" then providers else store provider_google (google cfg) providers

  abbrev with_github : Config → Dict (OauthProvider Database) → Dict (OauthProvider Database)
  with_github cfg providers =
      if cfg.github.client_id == "" then providers else store provider_github (github cfg) providers

  unfoldable pub build_providers : Config → Dict (OauthProvider Database)
  build_providers cfg = with_github cfg (with_google cfg [])

  -- The managers that `runServer` makes.
  abbrev pub auth_manager : Config → Adapter → AuthManager Database
  auth_manager cfg adapter = record {
    user = new_user_manager w.env new_user_repository new_pat_repository;
    jwt = new_jwt_manager w.jwt_library adapter w.now;
    oauth = new_oauth_manager (build_providers cfg);
    ensure_profile = ensure_exists w.countries (new_profile_repository w.now w.order);
    parse_uuid = w.parse_uuid;
  }

  -- `runServer`; its routes are those of api/internal/api/router.go.
  unfoldable pub run_server : Config → Action Database (Unit {0})
  unfolding run_bootstrap
  run_server cfg = do
    within "connect to database" (w.connect cfg.database.url)
    adapter ← within "jwt" (lift (new_with_config cfg.jwt.secret cfg.jwt.expiry))
    within "bootstrap" (run_bootstrap cfg.bootstrap (auth_manager cfg adapter))
    within "server" (w.start (":" ⧺ cfg.server.port) (auth_manager cfg adapter))
