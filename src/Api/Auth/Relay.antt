-- ===== src/Api/Auth/Relay.antt =====
-- How an answer of a provider's token endpoint reaches the caller of `deviceToken`: through
-- device.go, the OAuthManager, the AuthManager and the handler.
use courtknights.Common.{
  ℕ, String, ◌≡◌, ◌≢◌, refl, sym, subst, false, some, [], ◌∷◌, eq_iff, ◌==◌, Bool-cases, inl, inr,
  ◌⊎◌, test_of_ne,
}
use courtknights.Common.Dict.{Dict, lookup, lookup-All}
use courtknights.Action.{ok, err}
use courtknights.Errors.{
  Error, wrap, is, sentinel, authorization_pending, slow_down, access_denied, device_code_expired,
  invalid_device_code,
}
use courtknights.Infrastructure.Oauth2.{
  device_token, OauthProvider, Endpoints, google_provider, github_provider, poll_device_token,
}
use courtknights.Application.Auth.{AuthManager, device_poll}
use courtknights.Application.Auth.Oauth as Oauth
use courtknights.Application.Auth.Oauth.{new_oauth_manager}
use courtknights.Api.Response.{json}
use courtknights.Api.Auth.{
  device_token_status, device_token_failure, device_token_handler, parse_provider, error_body,
}

-- The errors of the device flow (RFC 8628, and GitHub's two names for an unknown code), with the
-- status and the code that the API answers.
abbrev pub relayed : Dict (ℕ × String)
relayed =
    ("authorization_pending", (202, "authorization_pending"))
    ∷ ("slow_down", (202, "slow_down"))
    ∷ ("access_denied", (400, "access_denied"))
    ∷ ("expired_token", (400, "expired_token"))
    ∷ ("invalid_grant", (400, "invalid_grant"))
    ∷ ("bad_verification_code", (400, "invalid_grant"))
    ∷ ("incorrect_device_code", (400, "invalid_grant"))
    ∷ []

module _ (status access_token : String) where
  -- What `pollDeviceToken` makes of the error `code`, and what the handler answers then.
  record Relays (code : String) (r : ℕ × String) : Type 0 where
    e : Error
    polled : device_token status (record { access_token = access_token; error = code }) ≡ err e
    answered : device_token_status e ≡ some r

  said :
      {code : String} {r : ℕ × String} (e : Error)
      → device_token status (record { access_token = access_token; error = code }) ≡ err e
      → device_token_status e ≡ some r
      → Relays code r
  said e p q = record { e = e; polled = p; answered = q }

  unknown :
      {code : String}
      → device_token status (record { access_token = access_token; error = code })
        ≡ err (sentinel invalid_device_code)
      → Relays code (400, "invalid_grant")
  unfolding device_token_status is
  unknown p = said (sentinel invalid_device_code) p refl

  device_token-Relays :
      (code : String) (r : ℕ × String) → lookup code relayed ≡ some r → Relays code r
  unfolding device_token device_token_status is
  device_token-Relays code r h =
      lookup-All Relays code r relayed
        (
          said (sentinel authorization_pending) refl refl,
          (
            said (sentinel slow_down) refl refl,
            (
              said (sentinel access_denied) refl refl,
              (
                said (sentinel device_code_expired) refl refl,
                (unknown refl, (unknown refl, (unknown refl, tt))),
              ),
            ),
          ),
        )
        h

  answered_of :
      (code : String) (r : ℕ × String) (e : Error)
      → Relays code r
      → device_token status (record { access_token = access_token; error = code }) ≡ err e
      → device_token_status e ≡ some r
  answered_of code r e v g = cc (v.polled, v.answered, g)

parse_provider_nonempty : (p q : String) → parse_provider p ≡ some q → (p == "") ≡ false
unfolding parse_provider
parse_provider_nonempty p q h = elim (Bool-cases (p == "")) [
  | inl e ↦ absurd (cc (subst (λ x. parse_provider x ≡ some q) ((eq_iff p "").0 e) h))
  | inr e ↦ e
]

module _ {S : Type 0} (m : AuthManager S) (providers : Dict (OauthProvider S)) where
  -- The manager with the OAuthManager over the providers.
  abbrev pub with_providers : AuthManager S
  with_providers = record m { oauth = new_oauth_manager providers }

  relayed_under :
      (p device_code context status access_token code : String) (r : ℕ × String) (e : Error)
      (provider : OauthProvider S) (s t : S)
      → lookup code relayed ≡ some r
      → parse_provider p ≡ some p
      → device_code ≢ ""
      → lookup p providers ≡ some provider
      → device_token status (record { access_token = access_token; error = code }) ≡ err e
      → provider.device_poll device_code s ≡ (err (wrap context e), t)
      → device_token_handler with_providers (some (p, device_code)) s
        ≡ (json r.0 (error_body r.1), t)
  unfolding device_token_handler device_token_failure device_poll is Oauth.device_poll
      Oauth.provider device_token_status
  relayed_under p device_code context status access_token code r e provider s t h k d l g q =
      let answered =
        answered_of status access_token code r e (device_token-Relays status access_token code r h)
          g in
      rw (parse_provider_nonempty p p k, test_of_ne device_code "" d, k, l, q, answered) refl

  -- Every error of the device flow that Google or GitHub answers reaches the caller of the API with
  -- the status and the code of the table, whatever the layers between have added to it.
  pub device_token_handler-relayed :
      (p device_code status access_token code : String) (r : ℕ × String) (http : Endpoints S)
      (provider : OauthProvider S) (s t : S)
      → lookup code relayed ≡ some r
      → parse_provider p ≡ some p
      → device_code ≢ ""
      → lookup p providers ≡ some provider
      → (provider ≡ google_provider http) ⊎ (provider ≡ github_provider http)
      → http.device_token device_code s
        ≡ (ok (status, record { access_token = access_token; error = code }), t)
      → device_token_handler with_providers (some (p, device_code)) s
        ≡ (json r.0 (error_body r.1), t)
  unfolding poll_device_token
  device_token_handler-relayed p device_code status access_token code r http provider s t h k d l c
        q =
      let v = device_token-Relays status access_token code r h in
      elim c [
        | inl e ↦
            relayed_under p device_code "google: device poll" status access_token code r v.e
              provider s t h k d l v.polled
              (subst (λ x. x.device_poll device_code s ≡ (err (wrap "google: device poll" v.e), t))
                (sym e) (rw (q, v.polled) refl))
        | inr e ↦
            relayed_under p device_code "github: device poll" status access_token code r v.e
              provider s t h k d l v.polled
              (subst (λ x. x.device_poll device_code s ≡ (err (wrap "github: device poll" v.e), t))
                (sym e) (rw (q, v.polled) refl))
      ]
