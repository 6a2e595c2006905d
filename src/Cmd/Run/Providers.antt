-- ===== src/Cmd/Run/Providers.antt =====
-- buildProviders of api/cmd/server/server.go, as the OAuthManager sees it.
use courtknights.Common.{
  String, List, ◌∷◌, ◌≡◌, refl, ap, ◌∙◌, Bool, true, false, not, ◌&&◌, none, some, [], ◌==◌, eq_iff,
  arith, Bool-cases, quote, inl, inr, if◌then◌else◌,
}
use courtknights.Common.Dict.{Dict, lookup, store, delete}
use courtknights.Action.{ok, err}
use courtknights.Errors.{sentinel, join, opaque, provider_not_configured}
use courtknights.Domain.User.{Provider, provider_google, provider_github}
use courtknights.Infrastructure.Oauth2.{OauthProvider, google_provider, github_provider}
use courtknights.Infrastructure.Oauth2.Config as Oauth2
use courtknights.Infrastructure.Oauth2.Requests.{endpoints}
use courtknights.Infrastructure.Postgres.{Database}
use courtknights.Application.Auth.Oauth.{provider, registered}
use courtknights.Cmd.Config.{Config, OauthConfig}
use courtknights.Cmd.Run.{World, google, github, build_providers}

-- The map that holds `g` and `h`, each unless its test says no.
abbrev two : {A : Type 0} → A → A → Bool → Bool → Dict A
two g h no_google no_github =
    let m = if no_google then [] else store provider_google g [] in
    if no_github then m else store provider_github h m

lookup-two :
    {A : Type 0} (p : Provider) (g h : A) (a b : Bool)
    → lookup p (two g h a b) ≡ (
        if p == provider_google && not a
        then some g
        else if p == provider_github && not b
        then some h
        else none)
unfolding lookup store delete
lookup-two p g h true true = ground arith
lookup-two p g h true false = ground (arith, eq_iff p provider_github, eq_iff provider_github p)
lookup-two p g h false true = ground (arith, eq_iff p provider_google, eq_iff provider_google p)
lookup-two p g h false false = elim (Bool-cases (p == provider_google)) [
  | inl e ↦ rw ((eq_iff p provider_google).0 e) refl
  | inr e ↦ ground (
    arith,
    eq_iff p provider_google,
    eq_iff provider_google p,
    eq_iff p provider_github,
    eq_iff provider_github p,
  )
]

registered-two :
    {S : Type 0} (m : Dict (OauthProvider S)) (p : Provider) (g h : OauthProvider S) (a b : Bool)
    → registered m p (if a then some g else if b then some h else none) ≡ (
        if a
        then ok g
        else if b
        then ok h
        else err (join "oauth manager" (sentinel provider_not_configured) (opaque (quote p))))
registered-two m p g h true b = refl
registered-two m p g h false true = refl
registered-two m p g h false false = refl

-- The URL of the settings, or else the one that is known of the provider.
abbrev known_or : String → String → String
known_or setting known = if setting == "" then known else setting

abbrev client_of :
    OauthConfig → List String → Oauth2.AuthStyle → String → Oauth2.Endpoint → Oauth2.Config
client_of c scopes style device_url known = record {
  client_id = c.client_id;
  client_secret = c.client_secret;
  redirect_url = c.redirect_url;
  scopes = scopes;
  endpoint = record {
    auth_url = known_or c.auth_url known.auth_url;
    token_url = known_or c.token_url known.token_url;
    device_auth_url = known_or c.device_auth_url device_url;
    auth_style = style;
  };
}

-- Google's adapter with the settings `c`, and GitHub's.
abbrev pub google_for : World → OauthConfig → OauthProvider Database
google_for w c = google_provider (
    endpoints w.http (record {
      cfg =
          client_of c ("openid" ∷ "email" ∷ "profile" ∷ []) w.google_endpoint.auth_style
            w.google_endpoint.device_auth_url w.google_endpoint;
      user_info_url = known_or c.user_info_url "https://www.googleapis.com/oauth2/v3/userinfo";
    }))

abbrev pub github_for : World → OauthConfig → OauthProvider Database
github_for w c = github_provider (
    endpoints w.http (record {
      cfg =
          client_of c ("read:user" ∷ "user:email" ∷ []) Oauth2.in_params
            "https://github.com/login/device/code" w.github_endpoint;
      user_info_url = known_or c.user_info_url "https://api.github.com/user";
    }))

module _ (w : World) where
  google-eq : (cfg : Config) → google w cfg ≡ google_for w cfg.google
  unfolding Oauth2.new_google
  google-eq cfg = refl

  github-eq : (cfg : Config) → github w cfg ≡ github_for w cfg.github
  unfolding Oauth2.new_github
  github-eq cfg = refl

  -- The OAuthManager knows Google exactly where Google's client id is set, GitHub exactly where
  -- GitHub's is, each with its own settings, and no other provider.
  pub provider-build_providers :
      (cfg : Config) (p : Provider)
      → provider (build_providers w cfg) p ≡ (
          if p == provider_google && not (cfg.google.client_id == "")
          then ok (google_for w cfg.google)
          else if p == provider_github && not (cfg.github.client_id == "")
          then ok (github_for w cfg.github)
          else err (join "oauth manager" (sentinel provider_not_configured) (opaque (quote p))))
  unfolding provider build_providers
  provider-build_providers cfg p =
      rw (← google-eq cfg, ← github-eq cfg)
        (ap (registered (build_providers w cfg) p) (
            lookup-two p (google w cfg) (github w cfg) (cfg.google.client_id == "")
              (cfg.github.client_id == ""))
          ∙ registered-two (build_providers w cfg) p (google w cfg) (github w cfg)
              (p == provider_google && not (cfg.google.client_id == ""))
              (p == provider_github && not (cfg.github.client_id == "")))
