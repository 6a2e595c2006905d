-- ===== src/Oauthfake/Store.antt =====
-- tools/oauthfake/store.go. The clock and the random source are arguments: `now` is what the one
-- call of `s.now()` returns, and `bytes` what `rand.Read` fills a buffer with. A time is a number of
-- nanoseconds since Go's zero time, which is 0, and a duration is not negative.
pub mod UserCode
pub mod DeviceRequests
pub mod History
pub mod Links
pub mod Devices
pub mod Grants
pub mod Codes
pub mod Flow
pub mod Login
pub mod Live
pub mod Polling
use courtknights.Common.{
  ℕ, ◌+◌, ◌*◌, ◌/◌, ◌%◌, ◌^◌, String, Bool, true, false, not, ◌&&◌, ◌||◌, Option, none, some, List,
  [], ◌∷◌, ◌++◌, ◌==◌, eqb, ltb, leb, of_codes, if◌then◌else◌,
}
use courtknights.Common.Dict.{Dict, lookup, delete, store}
use courtknights.Oauthfake.Identity.{Identity, no_identity}
use UserCode.{normalize_user_code, new_user_code}

pub data DeviceStatus : Type 0 where
  pending approved denied : DeviceStatus

pub record AuthCode : Type 0 where
  pub provider : String
  pub redirect_uri : String
  pub identity : Identity
  pub expires_at : ℕ

pub record DeviceAuth : Type 0 where
  pub provider : String
  pub user_code : String
  pub status : DeviceStatus
  pub identity : Identity
  pub expires_at : ℕ
  pub interval : ℕ
  pub last_poll : ℕ
  pub redeemed : Bool

pub record AccessToken : Type 0 where
  pub provider : String
  pub identity : Identity

pub data StoreError : Type 0 where
  invalid_grant pending_authorization slow_down access_denied expired_token : StoreError
  unknown_code not_pending invalid_bearer : StoreError

-- `panic` is a nil pointer that the code dereferences.
pub data Reply {ℓ} (A : Type ℓ) : Type ℓ where
  done : A → Reply A
  failed : StoreError → Reply A
  panic : Reply A

pub record Store : Type 0 where
  pub code_ttl : ℕ
  pub interval : ℕ
  pub codes : Dict AuthCode
  pub devices : Dict DeviceAuth
  pub user_codes : Dict String
  pub tokens : Dict AccessToken

abbrev pub new_store : ℕ → ℕ → Store
new_store code_ttl interval = record {
  code_ttl = code_ttl;
  interval = interval;
  codes = [];
  devices = [];
  user_codes = [];
  tokens = [];
}

abbrev hex_digit : ℕ → ℕ
hex_digit n = if ltb n 10 then 48 + n else 87 + n

hex_codes : List ℕ → List ℕ
hex_codes [] = []
hex_codes (b ∷ bs) = hex_digit (b / 16) ∷ hex_digit (b % 16) ∷ hex_codes bs

-- `randomHex`, of the bytes that were drawn.
unfoldable pub random_hex : List ℕ → String
unfolding hex_codes of_codes
random_hex bytes = of_codes (hex_codes bytes)

-- `now.After(t)`
abbrev pub after : ℕ → ℕ → Bool
after now t = ltb t now

unfoldable pub issue_token : String → Identity → List ℕ → Store → String × Store
issue_token provider id bytes s =
    let token = random_hex bytes in
    (
      token,
      record s { tokens = store token (record { provider = provider; identity = id }) s.tokens },
    )

unfoldable pub issue_code : String → String → Identity → ℕ → List ℕ → Store → String × Store
issue_code provider redirect_uri id now bytes s =
    let code = random_hex bytes in
    let entry : AuthCode = record {
      provider = provider;
      redirect_uri = redirect_uri;
      identity = id;
      expires_at = now + s.code_ttl;
    } in
    (code, record s { codes = store code entry s.codes })

abbrev pub as_done : String × Store → Reply String × Store
as_done (token, s) = (done token, s)

-- `redeemCode` behind the test of the code and its provider.
unfoldable pub redeem_found :
    String → String → String → ℕ → List ℕ → AuthCode → Store → Reply String × Store
redeem_found provider code redirect_uri now bytes c s =
    let used = record s { codes = delete code s.codes } in
    if after now c.expires_at || (not (redirect_uri == "") && not (redirect_uri == c.redirect_uri))
    then (failed invalid_grant, used)
    else as_done (issue_token provider c.identity bytes used)

unfoldable pub redeem_code : String → String → String → ℕ → List ℕ → Store → Reply String × Store
unfolding redeem_found issue_token
redeem_code provider code redirect_uri now bytes s = elim (lookup code s.codes) [
  | none ↦ (failed invalid_grant, s)
  | some c ↦
      if not (c.provider == provider)
      then (failed invalid_grant, s)
      else redeem_found provider code redirect_uri now bytes c s
]

abbrev for_provider : String → Option AccessToken → Reply Identity
for_provider provider none = failed invalid_bearer
for_provider provider (some t) =
    if not (t.provider == provider) then failed invalid_bearer else done t.identity

unfoldable pub lookup_token : String → String → Store → Reply Identity
lookup_token provider token s = for_provider provider (lookup token s.tokens)
