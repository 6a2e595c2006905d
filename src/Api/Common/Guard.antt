-- ===== src/Api/Common/Guard.antt =====
-- api/internal/api/common/middleware.go: which requests reach the handler behind the middleware.
use Prim.Native.Char.{char, code}
use Prim.Native.String.append
use text.Mathlib.TextEquality.{Char-path}
use courtknights.Common.{
  ℕ, String, ◌⧺◌, ◌≡◌, ◌≢◌, refl, true, false, some, arith, eq_iff, eqb, ◌==◌, Bool-cases,
  Option-cases, inl, inr,
}
use courtknights.Action.{ok, err, Result-cases}
use courtknights.Errors.{Error}
use courtknights.Infrastructure.Jwt.{Claims}
use courtknights.Application.Auth.{JwtManager}
use courtknights.Api.Response.{Response, http_error}
use courtknights.Api.Common.{Context, cut_prefix, context_of, jwt_middleware}

eqb_sound : (m n : ℕ) → eqb m n ≡ true → m ≡ n
eqb_sound m n h = ground arith

-- A prefix is cut off where the text begins with it, and the rest is left.
cut_prefix_sound : (p s r : String) → cut_prefix p s ≡ some r → s ≡ p ⧺ r
unfolding cut_prefix
cut_prefix_sound String.[] s r h = cc (append.nil r)
cut_prefix_sound (String.◌∷◌ c p) String.[] r h = cc
cut_prefix_sound (String.◌∷◌ c p) (String.◌∷◌ d s) r h = elim (Bool-cases (eqb (code c) (code d))) [
  | inl e ↦ cc (
    Char-path c d (eqb_sound (code c) (code d) e),
    cut_prefix_sound p s r (rw e at h),
    append.cons c p r,
  )
  | inr e ↦ absurd (cc (rw e at h))
]

cut_prefix_complete : (p r : String) → cut_prefix p (p ⧺ r) ≡ some r
unfolding cut_prefix
cut_prefix_complete String.[] r = cc (append.nil r)
cut_prefix_complete (String.◌∷◌ c p) r = rw append.cons (ground (arith, cut_prefix_complete p r))

-- The header carries a token that `validate` accepts, in the state that it leaves.
pub record Admitted {S : Type 0} (jwt : JwtManager S) (header : String) (s : S) (claims : Claims)
    (t : S) : Type 0 where
  pub token : String
  pub header_eq : header ≡ "Bearer " ⧺ token
  pub validated : jwt.validate token s ≡ (ok claims, t)

-- The header carries no token that `validate` accepts, and checking it leaves the state `t`.
pub data Unauthenticated {S : Type 0} (jwt : JwtManager S) (header : String) (s t : S)
    : Type 0 where
  no_token :
      ((token : String) → header ≢ "Bearer " ⧺ token) → t ≡ s → Unauthenticated jwt header s t
  bad_token :
      (token : String) (e : Error)
      → header ≡ "Bearer " ⧺ token
      → jwt.validate token s ≡ (err e, t)
      → Unauthenticated jwt header s t

-- What a request to the handler `next` behind the middleware comes to.
pub data Guarded {S A : Type 0} (jwt : JwtManager S) (header : String) (s : S)
    (next : Context → S → Response A × S) (r : Response A × S) : Type 0 where
  turned_away :
      (t : S)
      → Unauthenticated jwt header s t
      → r ≡ (http_error 401 "unauthorized", t)
      → Guarded jwt header s next r
  let_in :
      (claims : Claims) (t : S)
      → Admitted jwt header s claims t
      → r ≡ next (context_of claims) t
      → Guarded jwt header s next r

nonempty_header : (token : String) → (("Bearer " ⧺ token) == "") ≡ false
nonempty_header token = elim (Bool-cases (("Bearer " ⧺ token) == "")) [
  | inl e ↦
      absurd (cc ((eq_iff ("Bearer " ⧺ token) "").0 e, append.cons (char 66 tt) "earer " token))
  | inr e ↦ e
]

pub jwt_middleware-Guarded :
    {S A : Type 0} (jwt : JwtManager S) (next : Context → S → Response A × S) (header : String)
    (s : S)
    → Guarded jwt header s next (jwt_middleware jwt next header s)
unfolding jwt_middleware courtknights.Errors.message
jwt_middleware-Guarded jwt next header s = elim (Bool-cases (header == "")) [
  | inl e ↦
      turned_away s (no_token (λ token h. absurd (cc (nonempty_header token, e, h))) refl)
        (rw e refl)
  | inr e ↦ elim (Option-cases (cut_prefix "Bearer " header)) [
    | inl f ↦
        turned_away s
          (no_token (λ token h. absurd (cc (cut_prefix_complete "Bearer " token, f, h))) refl)
          (rw (e, f) refl)
    | inr (token, f) ↦ elim (Result-cases (jwt.validate token s)) [
      | inl (claims, t, v) ↦
          let_in claims t
            (record {
              token = token;
              header_eq = cut_prefix_sound "Bearer " header token f;
              validated = v;
            })
            (rw (e, f, v) refl)
      | inr (failure, t, v) ↦
          turned_away t (bad_token token failure (cut_prefix_sound "Bearer " header token f) v)
            (rw (e, f, v) refl)
    ]
  ]
]

-- A request whose header carries a token that `validate` accepts reaches the handler, with the
-- subject, the email and the role of the claims.
pub jwt_middleware_valid :
    {S A : Type 0} (jwt : JwtManager S) (next : Context → S → Response A × S) (token : String)
    (claims : Claims) (s t : S)
    → jwt.validate token s ≡ (ok claims, t)
    → jwt_middleware jwt next ("Bearer " ⧺ token) s ≡ next (context_of claims) t
unfolding jwt_middleware
jwt_middleware_valid jwt next token claims s t h =
    rw (nonempty_header token, cut_prefix_complete "Bearer " token, h) refl

pub jwt_middleware_invalid :
    {S A : Type 0} (jwt : JwtManager S) (next : Context → S → Response A × S) (token : String)
    (e : Error) (s t : S)
    → jwt.validate token s ≡ (err e, t)
    → jwt_middleware jwt next ("Bearer " ⧺ token) s ≡ (http_error 401 "unauthorized", t)
unfolding jwt_middleware courtknights.Errors.message
jwt_middleware_invalid jwt next token e s t h =
    rw (nonempty_header token, cut_prefix_complete "Bearer " token, h) refl
