-- ===== src/Infrastructure/Jwt.antt =====
-- api/internal/infrastructure/jwt. The library github.com/golang-jwt/jwt and `uuid.UUID.String` are
-- parameters; `now` is what `time.Now()` returns.
pub mod RoundTrip
use courtknights.Common.{
  ℕ, ◌+◌, String, Bool, true, false, not, ◌||◌, Option, none, some, ◌==◌, if◌then◌else◌, eqb,
}
use courtknights.Action.{Result, ok, err}
use courtknights.Errors.{Error, opaque, sentinel, wrap, join, unauthorized}
use courtknights.Domain.User.{Uuid, Time, Role, User}

pub record Claims : Type 0 where
  pub subject : String
  pub issued_at : Time
  pub expires_at : Time
  pub email : String
  pub role : Role

-- What ParseWithClaims returns: an error, or a token with its claims and whether it is valid.
pub data Parsed : Type 0 where
  rejected : Error → Parsed
  parsed : Claims → Bool → Parsed

-- `numeric_date` is NewNumericDate, which truncates a time to the precision of a token.
-- `signed_string` signs with HS256. `parse_with_claims` is given the key function, which gets
-- whether the token's method is an HMAC one, and the time.
pub record JwtLibrary : Type 0 where
  pub uuid_string : Uuid → String
  pub numeric_date : Time → Time
  pub signed_string : Claims → String → Result String
  pub parse_with_claims : String → (Bool → Result String) → Time → Parsed

pub record Adapter : Type 0 where
  pub secret : String
  pub expiry : ℕ

-- `New`, of the values that Viper has for the two keys; the default expiry is an hour.
unfoldable pub new : String → ℕ → Result Adapter
new secret expiry =
    if secret == ""
    then err (opaque "jwt: COURTKNIGHTS_JWT_SECRET is required")
    else ok (record { secret = secret; expiry = if eqb expiry 0 then 3600000000000 else expiry })

unfoldable pub new_with_config : String → ℕ → Result Adapter
new_with_config secret expiry =
    if secret == ""
    then err (opaque "jwt: secret must not be empty")
    else ok (record { secret = secret; expiry = expiry })

module _ (lib : JwtLibrary) (a : Adapter) where
  abbrev pub claims_of : User → Time → Claims
  claims_of u now = record {
    subject = lib.uuid_string u.id;
    issued_at = lib.numeric_date now;
    expires_at = lib.numeric_date (now + a.expiry);
    email = u.email;
    role = u.role;
  }

  abbrev signing_failed : Result String → Result String
  signing_failed (ok token) = ok token
  signing_failed (err e) = err (wrap "jwt: sign" e)

  unfoldable pub sign : User → Time → Result String
  sign u now = signing_failed (lib.signed_string (claims_of u now) a.secret)

  -- The key function: the secret, for HMAC methods only.
  abbrev pub key : Bool → Result String
  key true = ok a.secret
  key false = err (opaque "jwt: unexpected signing method")

  -- Both branches on ErrTokenExpired build the same error.
  abbrev checked : Parsed → Result Claims
  checked (rejected e) = err (join "jwt: validate" (sentinel unauthorized) e)
  checked (parsed claims true) = ok claims
  checked (parsed claims false) = err (wrap "jwt: validate" (sentinel unauthorized))

  unfoldable pub validate : String → Time → Result Claims
  validate token now = checked (lib.parse_with_claims token key now)
