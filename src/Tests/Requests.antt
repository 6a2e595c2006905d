-- ===== src/Tests/Requests.antt =====
-- Requests to the API over small managers.
use courtknights.Common.{
  ℕ, ◌+◌, ◌<◌, ◌≤◌, suc, String, ◌≡◌, ◌≢◌, ◌↔◌, ◌⊎◌, ◌⧺◌, refl, sym, subst, Bool, true, false, ◌&&◌,
  eqb, ltb, Option, none, some, List, [], ◌∷◌, arith, find, inl, inr, if◌then◌else◌, ◌==◌, eq_iff,
  Bool-cases,
}
use courtknights.Action.{ok, err, pure, fail}
use courtknights.Errors.{opaque, sentinel, user_not_found, unauthorized}
use courtknights.Infrastructure.Jwt.{Claims, Adapter, sign}
use courtknights.Infrastructure.Oauth2.{GithubEmail, Endpoints, github_provider}
use courtknights.Application.Auth.{AuthManager, refresh_jwt}
use courtknights.Api.Response.{Response, json}
use courtknights.Api.Common.Session.{Session}
use courtknights.Api.Common.{Context}
use courtknights.Api.Pats.{Formats, CreateRequest}
use courtknights.Api.Auth.{device_token_handler, error_body, parse_provider}
use courtknights.Api.Auth.Relay.{with_providers, device_token_handler-relayed}
use courtknights.Api.Auth.Refresh.{Refreshed, refresh_jwt_iff}
use courtknights.Tests.Accounts.{bob}

abbrev ann : Claims
ann = record {
  subject = "7";
  issued_at = 3;
  expires_at = 60;
  email = "ann@example.com";
  role = "admin";
}

-- The state counts the calls. The token "good" is ann's, and user 7 is bob, except in state 9.
abbrev manager : AuthManager ℕ
manager = record {
  user = record {
    resolve_by_oauth = λ _ _ _ _. pure bob;
    resolve_by_pat = λ _. pure bob;
    create_pat = λ _ _. pure "raw";
    revoke_pat = λ _. pure tt;
    list_pats = pure [];
    bootstrap_admin = λ _ _ _. pure (none, "");
    update_user_role = λ _ _. pure tt;
    find_by_id =
        λ id s. if eqb s 9 then (err (sentinel user_not_found), suc s) else (ok bob, suc s);
  };
  jwt = record {
    sign = λ u s. (ok ("token of " ⧺ u.name), suc s);
    validate = λ token s.
        if token == "good" then (ok ann, suc s) else (err (sentinel unauthorized), suc s);
  };
  oauth = record {
    redirect_url = λ _ _. ok "url";
    exchange = λ _ _. fail (opaque "unused");
    device_auth = λ _. fail (opaque "unused");
    device_poll = λ _ _. fail (opaque "unused");
  };
  ensure_profile = λ _ _. pure tt;
  parse_uuid = λ s. if s == "7" then some 7 else none;
}

abbrev formats : Formats
formats = record {
  parse_uuid = λ s. if s == "7" then some 7 else none;
  uuid_string = λ _. "7";
  parse_time = λ _. some 80;
}

abbrev create_request : Option CreateRequest
create_request = some (record { user_id = "7"; expires_at = none })

refresh_jwt_iff_example :
    (refresh_jwt manager "good" 0 ≡ (ok "token of Bob", 3))
    ↔ Refreshed manager "good" "token of Bob" 0 3
refresh_jwt_iff_example = refresh_jwt_iff manager "good" "token of Bob" 0 3

abbrev emails : List GithubEmail
emails =
    record { email = "old@b.c"; primary = false; verified = true }
    ∷ record { email = "a@b.c"; primary = true; verified = true }
    ∷ []

abbrev http : Endpoints ℕ
http = record {
  auth_code_url = λ s. s;
  exchange = λ _. fail (opaque "unused");
  device_auth = fail (opaque "unused");
  device_token = λ code s. (ok ("200", record { access_token = ""; error = "slow_down" }), suc s);
  google_info = λ _. fail (opaque "unused");
  github_info = λ _. fail (opaque "unused");
  github_emails = λ _. fail (opaque "unused");
}

device_token_handler-relayed_example :
    device_token_handler
      (with_providers manager (("github", github_provider http) ∷ []))
      (some ("github", "0a"))
      5
    ≡ (json 202 (error_body "slow_down"), 6)
unfolding courtknights.Common.Dict.lookup parse_provider
device_token_handler-relayed_example =
    device_token_handler-relayed manager (("github", github_provider http) ∷ []) "github" "0a" "200"
      "" "slow_down" (202, "slow_down") http (github_provider http) 5 6 refl refl (λ e. cc) refl
      (inr refl) refl

abbrev adapter : Adapter
adapter = record { secret = "hush"; expiry = 30 }

-- A handler that answers with the email of the token.
abbrev greet : Context → ℕ → Response (Option String) × ℕ
greet c s = (json 200 c.email, s + 1)
