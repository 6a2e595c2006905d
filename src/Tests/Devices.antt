-- ===== src/Tests/Devices.antt =====
-- Runs of the store of oauthfake.
use courtknights.Common.{
  ℕ, ◌≡◌, ◌≢◌, refl, String, true, false, none, some, List, [], ◌∷◌, arith, inl,
}
use courtknights.Common.Dict.{Dict, lookup, store}
use courtknights.Oauthfake.Identity.{Identity, no_identity}
use courtknights.Oauthfake.Store.UserCode.{block_code, new_user_code, normalize_user_code}
use courtknights.Oauthfake.Store.{
  Store, DeviceAuth, pending, approved, denied, done, failed, panic, invalid_grant, slow_down,
  new_store, random_hex, lookup_token,
}
use courtknights.Oauthfake.Store.DeviceRequests.{
  DeviceStart, start_device, resolve_device, poll_device,
}
use courtknights.Oauthfake.Store.History.{start, resolve, poll, step, run}
use courtknights.Oauthfake.Store.Devices.{Moved, step-Moved}
use courtknights.Oauthfake.Store.Links.{resolve_device-ne-panic}
use courtknights.Oauthfake.Store.Grants.{
  Granted, poll_device-Granted, device_redeemed_once, device_denied_stays,
}
use courtknights.Oauthfake.Store.Flow.{device_flow}
use courtknights.Action.{ok, fail}
use courtknights.Errors.{opaque}
use courtknights.Infrastructure.Oauth2.{Endpoints, google_provider}
use courtknights.Application.Auth.{AuthManager}
use courtknights.Application.Auth.Oauth.{new_oauth_manager}
use courtknights.Api.Auth.{parse_provider}
use courtknights.Oauthfake.Server.{token, oauth_error, get}
use courtknights.Oauthfake.Server.Relay.{as_response, Told, token_device-Told}
use courtknights.Oauthfake.Store.Live.{pending_completes}
use courtknights.Oauthfake.Store.Polling.{poll_interval}

abbrev pub ana : Identity
ana = record { login = "ana"; email = "ana@example.com"; name = "Ana"; email_verified = true }

abbrev pub block : List ℕ
block = 0 ∷ 1 ∷ 2 ∷ 3 ∷ 4 ∷ 5 ∷ 6 ∷ 27 ∷ []

-- A device request of ana's terminal, and its states.
abbrev terminal : DeviceAuth
terminal = record {
  provider = "google";
  user_code = "BCDF-GHJK";
  status = pending;
  identity = no_identity;
  expires_at = 700;
  interval = 5;
  last_poll = 0;
  redeemed = false;
}

abbrev with_device : DeviceAuth → Store
with_device d = record (new_store 600 5) {
  devices = ("0a", d) ∷ [];
  user_codes = ("BCDF-GHJK", "0a") ∷ [];
}

abbrev allowed : DeviceAuth
allowed = record terminal { status = approved; identity = ana }

poll_device-Granted_example :
    Granted "google" "0a" "0b" 200
      (with_device allowed)
      (poll_device "google" "0a" 200 (11 ∷ []) (with_device allowed)).1
unfolding poll_device random_hex lookup
poll_device-Granted_example =
    poll_device-Granted "google" "0a" "0b" 200 (11 ∷ []) (with_device allowed) refl

device_redeemed_once_example :
    (poll_device "google" "0a" 300 (12 ∷ []) (
      run
        (resolve "google" "BCDF-GHJK" false ana 250 ∷ [])
        (poll_device "google" "0a" 200 (11 ∷ []) (with_device allowed)).1)).0
    ≡ failed invalid_grant
unfolding poll_device random_hex lookup
device_redeemed_once_example =
    device_redeemed_once "google" "0a" "0b" 200 (11 ∷ []) (with_device allowed)
      (resolve "google" "BCDF-GHJK" false ana 250 ∷ []) "google" 300 (12 ∷ []) refl (tt, tt)

device_denied_stays_example :
    (poll_device "google" "0a" 300 (12 ∷ []) (
      run
        (resolve "google" "BCDF-GHJK" true ana 250 ∷ [])
        (with_device (record terminal { status = denied })))).0
    ≢ done "0c"
unfolding lookup
device_denied_stays_example =
    device_denied_stays "0a" (record terminal { status = denied })
      (with_device (record terminal { status = denied }))
      (resolve "google" "BCDF-GHJK" true ana 250 ∷ []) "google" "0c" 300 (12 ∷ []) refl refl
      (tt, tt)

resolve_device-ne-panic_example :
    (resolve_device "google" "bcdf ghjk" true ana 9
      (run (start "google" 1 (10 ∷ []) (block ∷ []) ∷ []) (new_store 600 5))).0
    ≢ panic
resolve_device-ne-panic_example =
    resolve_device-ne-panic 600 5 (start "google" 1 (10 ∷ []) (block ∷ []) ∷ []) "google"
      "bcdf ghjk" true ana 9

abbrev flow_start : DeviceStart × Store
flow_start = (
  record { device_code = "0a"; user_code = "BCDF-GHJK"; expires_in = 600; interval = 5 },
  with_device (record terminal { expires_at = 601 }),
)

device_flow_example :
    let (resolved, s2) = resolve_device "google" "bcdf ghjk" true ana 100 flow_start.1 in
    let (polled, s3) = poll_device "google" "0a" 200 (11 ∷ []) s2 in
    (resolved ≡ done tt)
    × (polled ≡ done (random_hex (11 ∷ [])))
    × (lookup_token "google" (random_hex (11 ∷ [])) s3 ≡ done ana)
unfolding start_device store random_hex block_code normalize_user_code lookup
device_flow_example =
    device_flow "google" "bcdf ghjk" 1 100 200 (10 ∷ []) (11 ∷ []) (block ∷ []) ana
      (new_store 600 5) flow_start.1 flow_start.0 refl refl (omega arith) (omega arith)

poll_interval_example :
    (poll_device "google" "0a" 103 [] (poll_device "google" "0a" 100 [] (with_device terminal)).1).0
    ≡ failed slow_down
unfolding lookup
poll_interval_example =
    poll_interval "google" "0a" 100 103 [] [] terminal (with_device terminal)
      (record {
        present = refl;
        provider_eq = refl;
        undecided = refl;
        unused = refl;
        live = omega arith;
      })
      (omega arith) (omega arith)

-- The endpoints of an adapter that asks the fake for "0a" at the time 300.
abbrev grant : Dict String
grant = ("grant_type", "urn:ietf:params:oauth:grant-type:device_code") ∷ ("device_code", "0a") ∷ []

abbrev refused_device : Store
refused_device = with_device (record terminal { status = denied })

abbrev fake : Endpoints Store
fake = record {
  auth_code_url = λ s. s;
  exchange = λ _. fail (opaque "unused");
  device_auth = fail (opaque "unused");
  device_token = λ dc s.
      let (a, t) = token "google" (some grant) 300 (12 ∷ []) s in (ok ("400", as_response a), t);
  google_info = λ _. fail (opaque "unused");
  github_info = λ _. fail (opaque "unused");
  github_emails = λ _. fail (opaque "unused");
}

abbrev api : AuthManager Store
api = record {
  user = record {
    resolve_by_oauth = λ _ _ _ _. fail (opaque "unused");
    resolve_by_pat = λ _. fail (opaque "unused");
    create_pat = λ _ _. fail (opaque "unused");
    revoke_pat = λ _. fail (opaque "unused");
    list_pats = fail (opaque "unused");
    bootstrap_admin = λ _ _ _. fail (opaque "unused");
    update_user_role = λ _ _. fail (opaque "unused");
    find_by_id = λ _. fail (opaque "unused");
  };
  jwt = record { sign = λ _. fail (opaque "unused"); validate = λ _. fail (opaque "unused") };
  oauth = new_oauth_manager [];
  ensure_profile = λ _ _. fail (opaque "unused");
  parse_uuid = λ _. none;
}

token_device-Told_example :
    Told api
      (("google", google_provider fake) ∷ [])
      "google"
      "0a"
      refused_device
      (token "google" (some grant) 300 (12 ∷ []) refused_device).1
      (oauth_error "access_denied" "")
unfolding token lookup parse_provider get poll_device
token_device-Told_example =
    token_device-Told api (("google", google_provider fake) ∷ []) "google" "400" fake
      (google_provider fake) grant 300 (12 ∷ []) refused_device refl (λ e. cc) refl (inl refl) refl
      refl

step-Moved_example :
    Moved terminal
      (lookup "0a" (step (poll "google" "0a" 300 (12 ∷ [])) (with_device terminal)).devices)
unfolding lookup
step-Moved_example =
    step-Moved (poll "google" "0a" 300 (12 ∷ [])) (with_device terminal) "0a" terminal tt refl

pending_completes_example :
    let s = run (start "google" 100 (10 ∷ []) (block ∷ []) ∷ []) (new_store 600 5) in
    let (resolved, s2) = resolve_device "google" "bcdf ghjk" true ana 200 s in
    let (polled, s3) = poll_device "google" (random_hex (10 ∷ [])) 300 (11 ∷ []) s2 in
    (resolved ≡ done tt)
    × (polled ≡ done (random_hex (11 ∷ [])))
    × (lookup_token "google" (random_hex (11 ∷ [])) s3 ≡ done ana)
unfolding run step start_device new_user_code block_code lookup store normalize_user_code random_hex
pending_completes_example =
    pending_completes 600 5 (start "google" 100 (10 ∷ []) (block ∷ []) ∷ []) (random_hex (10 ∷ []))
      "bcdf ghjk" (record terminal { interval = 5 }) ana 200 300 (11 ∷ []) refl refl refl
      (omega arith) (omega arith)
