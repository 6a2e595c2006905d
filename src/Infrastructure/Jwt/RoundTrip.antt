-- ===== src/Infrastructure/Jwt/RoundTrip.antt =====
-- Sign and then Validate of api/internal/infrastructure/jwt/jwt.go.
use courtknights.Common.{
  Bool-cases, ltb, inl, inr, arith, ◌+◌, ◌<◌, ◌≤◌, String, ◌≡◌, refl, Bool, true,
}
use courtknights.Action.{Result, ok, err}
use courtknights.Errors.{Error, join, sentinel, is, unauthorized}
use courtknights.Domain.User.{Time, User}
use courtknights.Infrastructure.Jwt.{
  Claims, rejected, parsed, JwtLibrary, Adapter, claims_of, key, sign, validate,
}

-- What Validate answers at the time `now` for a token with the claims that expires at `expiry`.
pub data ValidUntil (expiry now : Time) (claims : Claims) (r : Result Claims) : Type 0 where
  live : now < expiry → r ≡ ok claims → ValidUntil expiry now claims r
  expired :
      (e : Error)
      → expiry ≤ now
      → r ≡ err e
      → is unauthorized e ≡ true
      → ValidUntil expiry now claims r

module _ (lib : JwtLibrary) (a : Adapter) where
  sign-signed_string :
      (u : User) (now : Time) (r : Result String) (token : String)
      → lib.signed_string (claims_of lib a u now) a.secret ≡ r
      → sign lib a u now ≡ ok token
      → lib.signed_string (claims_of lib a u now) a.secret ≡ ok token
  unfolding sign
  sign-signed_string u now (ok t) token e h = cc (e, rw e at h)
  sign-signed_string u now (err f) token e h = absurd (cc (rw e at h))

  -- If a date that the library has truncated stays as it is, and the library accepts what it has
  -- signed with the key that its key function gives for the HMAC method, where the dates of the
  -- claims are truncated, until the token expires and not afterwards, then Validate returns the
  -- claims of the signed user before that time and an ErrUnauthorized from then on.
  pub validate-sign :
      (truncates : (date : Time) → lib.numeric_date (lib.numeric_date date) ≡ lib.numeric_date date)
      (accepts : (c : Claims) (secret token : String) (k : Bool → Result String) (now : Time)
        → lib.numeric_date c.issued_at ≡ c.issued_at
        → lib.numeric_date c.expires_at ≡ c.expires_at
        → lib.signed_string c secret ≡ ok token
        → k true ≡ ok secret
        → now < c.expires_at
        → lib.parse_with_claims token k now ≡ parsed c true)
      (expires : (c : Claims) (secret token : String) (k : Bool → Result String) (now : Time)
        → lib.signed_string c secret ≡ ok token
        → c.expires_at ≤ now
        → (e : Error) × (lib.parse_with_claims token k now ≡ rejected e))
      (u : User) (now later : Time) (token : String)
      → sign lib a u now ≡ ok token
      → ValidUntil
          (lib.numeric_date (now + a.expiry))
          later
          (claims_of lib a u now)
          (validate lib a token later)
  unfolding validate is
  validate-sign truncates accepts expires u now later token h =
      let claims = claims_of lib a u now in
      let s = sign-signed_string u now (lib.signed_string claims a.secret) token refl h in
      elim (Bool-cases (ltb later claims.expires_at)) [
        | inl e ↦
            let l : later < claims.expires_at = ground (arith, e) in
            live l (
              rw
                (accepts claims a.secret token (key lib a) later (truncates now)
                  (truncates (now + a.expiry)) s refl l)
                refl)
        | inr e ↦
            let l : claims.expires_at ≤ later = ground (arith, e) in
            let (f, p) = expires claims a.secret token (key lib a) later s l in
            expired (join "jwt: validate" (sentinel unauthorized) f) l (rw p refl) refl
      ]
