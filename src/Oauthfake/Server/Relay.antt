-- ===== src/Oauthfake/Server/Relay.antt =====
-- The device grant from the fake's token endpoint to the caller of the API.
use courtknights.Common.{
  ℕ, String, ◌≡◌, ◌≢◌, ◌⊎◌, refl, Bool, true, false, some, List, inl, inr, Bool-cases, Option-cases,
  not, ◌||◌, ◌==◌,
}
use courtknights.Common.Dict.{Dict, lookup}
use courtknights.Action.{ok}
use courtknights.Infrastructure.Oauth2.{
  DeviceTokenResponse, Endpoints, OauthProvider, google_provider, github_provider,
}
use courtknights.Application.Auth.{AuthManager}
use courtknights.Api.Response.{json}
use courtknights.Api.Auth.{device_token_handler, error_body, parse_provider}
use courtknights.Api.Auth.Relay.{relayed, with_providers, device_token_handler-relayed}
use courtknights.Oauthfake.Store.{
  Store, DeviceAuth, DeviceStatus, pending, approved, denied, Reply, done, failed, panic,
  StoreError, invalid_grant, access_denied, expired_token, slow_down, pending_authorization, after,
  issue_token, random_hex,
}
use courtknights.Oauthfake.Store.DeviceRequests.{
  poll_device, poll_found, poll_status, polled_too_fast,
}
use courtknights.Oauthfake.Server.{
  Answer, token_answer, oauth_error, error_text, token, get, as_answer,
}

-- A poll is granted, or it is refused with one of the errors that the API relays.
data Polled : Reply String → Type 0 where
  granted : (t : String) → Polled (done t)
  refused :
      (e : StoreError) (r : ℕ × String) → lookup (error_text e) relayed ≡ some r → Polled (failed e)

poll_status-Polled :
    (provider code : String) (too_fast : Bool) (bytes : List ℕ) (status : DeviceStatus)
    (d : DeviceAuth) (s : Store)
    → Polled (poll_status provider code too_fast bytes status d s).0
unfolding poll_status error_text issue_token lookup
poll_status-Polled provider code too_fast bytes denied d s =
    refused access_denied (400, "access_denied") refl
poll_status-Polled provider code too_fast bytes approved d s = granted (random_hex bytes)
poll_status-Polled provider code true bytes pending d s = refused slow_down (202, "slow_down") refl
poll_status-Polled provider code false bytes pending d s =
    refused pending_authorization (202, "authorization_pending") refl

invalid-Polled : Polled (failed invalid_grant)
unfolding error_text lookup
invalid-Polled = refused invalid_grant (400, "invalid_grant") refl

poll_found-Polled :
    (provider code : String) (now : ℕ) (bytes : List ℕ) (d : DeviceAuth) (s : Store)
    → Polled (poll_found provider code now bytes d s).0
unfolding poll_found error_text lookup
poll_found-Polled provider code now bytes d s =
    elim (Bool-cases (not (d.provider == provider) || d.redeemed)) [
      | inl a ↦ rw a invalid-Polled
      | inr a ↦ elim (Bool-cases (after now d.expires_at)) [
        | inl b ↦ rw (a, b) (refused expired_token (400, "expired_token") refl)
        | inr b ↦
            rw (a, b)
              (poll_status-Polled provider code (polled_too_fast d now) bytes d.status
                (record d { last_poll = now }) s)
      ]
    ]

poll_device-Polled :
    (provider code : String) (now : ℕ) (bytes : List ℕ) (s : Store)
    → Polled (poll_device provider code now bytes s).0
unfolding poll_device
poll_device-Polled provider code now bytes s = elim (Option-cases (lookup code s.devices)) [
  | inl a ↦ rw (poll_device, a) invalid-Polled
  | inr (d, a) ↦ rw (poll_device, a) (poll_found-Polled provider code now bytes d s)
]

-- What the adapter reads of an answer of the token endpoint.
abbrev pub as_response : Answer → DeviceTokenResponse
as_response (token_answer t) = record { access_token = t; error = "" }
as_response (oauth_error code _) = record { access_token = ""; error = code }
as_response _ = record { access_token = ""; error = "" }

-- The answers to a device grant.
data Answered : Answer → Type 0 where
  issued : (t : String) → Answered (token_answer t)
  turned_down :
      (code : String) (r : ℕ × String)
      → lookup code relayed ≡ some r
      → Answered (oauth_error code "")

Polled-Answered : (x : Reply String × Store) → Polled x.0 → Answered (as_answer x).0
Polled-Answered (done t, s) _ = issued t
Polled-Answered (panic, s) x = elim x [ ]
Polled-Answered (failed e, s) (refused _ r h) = turned_down (error_text e) r h

abbrev pub device_grant : String
device_grant = "urn:ietf:params:oauth:grant-type:device_code"

token-Answered :
    (provider : String) (form : Dict String) (now : ℕ) (bytes : List ℕ) (s : Store)
    → get form "grant_type" ≡ device_grant
    → Answered (token provider (some form) now bytes s).0
unfolding token
token-Answered provider form now bytes s h = rw h (
    Polled-Answered (poll_device provider (get form "device_code") now bytes s)
      (poll_device-Polled provider (get form "device_code") now bytes s))

-- What the caller of the API is told of a device grant that the fake answers by `a`.
pub data Told (m : AuthManager Store) (providers : Dict (OauthProvider Store)) (p dc : String)
    (s t : Store) : Answer → Type 0 where
  goes_on : (fresh : String) → Told m providers p dc s t (token_answer fresh)
  relays :
      (code : String) (r : ℕ × String)
      → lookup code relayed ≡ some r
      → device_token_handler (with_providers m providers) (some (p, dc)) s
        ≡ (json r.0 (error_body r.1), t)
      → Told m providers p dc s t (oauth_error code "")

answer-Told :
    (m : AuthManager Store) (providers : Dict (OauthProvider Store)) (p dc status : String)
    (http : Endpoints Store) (provider : OauthProvider Store) (s t : Store)
    → parse_provider p ≡ some p
    → dc ≢ ""
    → lookup p providers ≡ some provider
    → (provider ≡ google_provider http) ⊎ (provider ≡ github_provider http)
    → (a : Answer) → Answered a
    → http.device_token dc s ≡ (ok (status, as_response a), t)
    → Told m providers p dc s t a
answer-Told m providers p dc status http provider s t k d l c _ (issued fresh) q = goes_on fresh
answer-Told m providers p dc status http provider s t k d l c _ (turned_down code r h) q =
    relays code r h
      (device_token_handler-relayed m providers p dc status "" code r http provider s t h k d l c q)

-- With the fake behind the adapter of Google or GitHub: a device grant that its token endpoint
-- turns down has an error of RFC 8628, and the API tells its caller that error.
pub token_device-Told :
    (m : AuthManager Store) (providers : Dict (OauthProvider Store)) (p status : String)
    (http : Endpoints Store) (provider : OauthProvider Store) (form : Dict String) (now : ℕ)
    (bytes : List ℕ) (s : Store)
    → parse_provider p ≡ some p
    → get form "device_code" ≢ ""
    → lookup p providers ≡ some provider
    → (provider ≡ google_provider http) ⊎ (provider ≡ github_provider http)
    → get form "grant_type" ≡ device_grant
    → http.device_token (get form "device_code") s ≡ (
      ok (status, as_response (token p (some form) now bytes s).0),
      (token p (some form) now bytes s).1,
    )
    → Told m providers p
        (get form "device_code")
        s
        (token p (some form) now bytes s).1
        (token p (some form) now bytes s).0
token_device-Told m providers p status http provider form now bytes s k d l c g q =
    answer-Told m providers p (get form "device_code") status http provider s
      (token p (some form) now bytes s).1 k d l c (token p (some form) now bytes s).0
      (token-Answered p form now bytes s g) q
