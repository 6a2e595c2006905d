-- ===== src/Api/Auth/Refresh.antt =====
-- `refreshJWT` and RefreshJWT: for whom a new token is signed, and what a caller is told otherwise.
use courtknights.Common.{
  String, ◌≡◌, ◌≢◌, ◌↔◌, refl, true, some, Option-cases, inl, inr, test_of_ne,
}
use courtknights.Action.{ok, err, Result-cases}
use courtknights.Errors.{Error, is, user_not_found}
use courtknights.Domain.User.{Uuid, User}
use courtknights.Infrastructure.Jwt.{Claims}
use courtknights.Application.Auth.{AuthManager, refresh_jwt, refresh_user, refresh_error}
use courtknights.Api.Response.{http_error}
use courtknights.Api.Auth.{refresh_jwt_handler}

-- Why RefreshJWT returns the token `fresh`: the old token is valid, its subject is a user that is
-- still stored, and `fresh` is signed for that user as stored.
pub record Refreshed {S : Type 0} (m : AuthManager S) (token fresh : String) (s t : S)
    : Type 0 where
  pub claims : Claims
  pub validated : S
  pub valid : m.jwt.validate token s ≡ (ok claims, validated)
  pub id : Uuid
  pub subject_eq : m.parse_uuid claims.subject ≡ some id
  pub u : User
  pub read : S
  pub stored : m.user.find_by_id id validated ≡ (ok u, read)
  pub signed : m.jwt.sign u read ≡ (ok fresh, t)

module _ {S : Type 0} (m : AuthManager S) (token fresh : String) (s t : S) where
  refresh_jwt_sound : refresh_jwt m token s ≡ (ok fresh, t) → Refreshed m token fresh s t
  unfolding refresh_jwt refresh_user
  refresh_jwt_sound h = elim (Result-cases (m.jwt.validate token s)) [
    | inr (e, s1, a) ↦ absurd (cc (rw a at h))
    | inl (claims, s1, a) ↦ elim (Option-cases (m.parse_uuid claims.subject)) [
      | inl b ↦ absurd (cc (rw (a, b) at h))
      | inr (id, b) ↦ elim (Result-cases (m.user.find_by_id id s1)) [
        | inr (e, s2, c) ↦ absurd (cc (rw (a, b, c) at h))
        | inl (u, s2, c) ↦ record {
          claims = claims;
          validated = s1;
          valid = a;
          id = id;
          subject_eq = b;
          u = u;
          read = s2;
          stored = c;
          signed = rw (a, b, c) at h;
        }
      ]
    ]
  ]

  refresh_jwt_complete : Refreshed m token fresh s t → refresh_jwt m token s ≡ (ok fresh, t)
  unfolding refresh_jwt refresh_user
  refresh_jwt_complete r = rw (r.valid, r.subject_eq, r.stored) r.signed

  -- RefreshJWT returns a token exactly when the old token is valid and its user is still stored,
  -- and then it is one signed for the stored user, not for the old claims.
  pub refresh_jwt_iff : (refresh_jwt m token s ≡ (ok fresh, t)) ↔ Refreshed m token fresh s t
  refresh_jwt_iff = (refresh_jwt_sound, refresh_jwt_complete)

-- The owner of a valid token who is no longer stored is told 401, like the holder of an invalid one.
pub refresh_jwt_handler_deleted :
    {S : Type 0} (m : AuthManager S) (token : String) (claims : Claims) (id : Uuid) (e : Error)
    (s s1 t : S)
    → token ≢ ""
    → m.jwt.validate token s ≡ (ok claims, s1)
    → m.parse_uuid claims.subject ≡ some id
    → m.user.find_by_id id s1 ≡ (err e, t)
    → is user_not_found e ≡ true
    → refresh_jwt_handler m (some token) s ≡ (http_error 401 "invalid or expired token", t)
unfolding refresh_jwt_handler refresh_jwt refresh_user refresh_error is
refresh_jwt_handler_deleted m token claims id e s s1 t n a b c d =
    rw (test_of_ne token "" n, a, b, c, d) refl
