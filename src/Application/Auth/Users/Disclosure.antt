-- ===== src/Application/Auth/Users/Disclosure.antt =====
-- What ResolveByOAuth of api/internal/application/auth/user_manager.go tells of the account that
-- has an email already, and what it keeps of an account that signs in again.
use courtknights.Common.{
  String, ◌≡◌, ◌≢◌, ◌⊎◌, refl, ◌∙◌, false, some, arith, eq_iff, ◌==◌, Bool-cases, inl, inr,
}
use courtknights.Action.{Result, ok, err, Result-cases}
use courtknights.Errors.{
  Error, as_email_conflict, is, is-as_email_conflict, email_already_registered, wrap,
}
use courtknights.Domain.User.{User, UserRepository}
use courtknights.Domain.Pat.{PatRepository}
use courtknights.Application.Auth.Users.{
  Environment, resolve_by_oauth, email_owner_error, upsert_error,
}

-- In the state `s` the provider `p` may be told to one who has proved to own `email`: the account
-- that is stored with that email signs in with it, and it is not that of personal access tokens.
pub record MayBeTold {S : Type 0} (users : UserRepository S) (email p : String) (s : S)
    : Type 0 where
  pub t : S
  pub owner : User
  pub found : users.find_by_email email s ≡ (ok owner, t)
  pub provider_eq : owner.provider ≡ p
  pub not_pat : p ≢ "pat"

-- The upsert that ResolveByOAuth begins with.
abbrev pub attempt :
    {S : Type 0} → UserRepository S → String → String → String → String → S → Result User × S
attempt users provider provider_id email name = users.upsert (record {
  email = email;
  name = name;
  role = "user";
  provider = provider;
  provider_id = provider_id;
})

conflict_under :
    (e : Error) → as_email_conflict (wrap "user manager: ResolveByOAuth" e) ≡ as_email_conflict e
unfolding as_email_conflict
conflict_under e = refl

module _ {S : Type 0} (env : Environment S) (users : UserRepository S) (pats : PatRepository S)
    (email p : String) where
  told_of :
      (s t : S) (owner : User)
      → users.find_by_email email s ≡ (ok owner, t)
      → owner.provider ≡ p
      → (owner.provider == "pat") ≡ false
      → MayBeTold users email p s
  told_of s t owner f e n = record {
    t = t;
    owner = owner;
    found = f;
    provider_eq = e;
    not_pat = λ q. ground (arith, (eq_iff owner.provider "pat").1 (e ∙ q));
  }

  email_owner_error_told :
      (s : S)
      → as_email_conflict (email_owner_error env users pats email s).0 ≡ some p
      → (p ≡ "") ⊎ MayBeTold users email p s
  unfolding email_owner_error as_email_conflict
  email_owner_error_told s h = elim (Result-cases (users.find_by_email email s)) [
    | inl (owner, t, f) ↦ elim (Bool-cases (owner.provider == "pat")) [
      | inl e ↦ inl (cc (rw (f, e) at h))
      | inr e ↦ inr (told_of s t owner f (cc (rw (f, e) at h)) e)
    ]
    | inr (e, t, f) ↦ inl (cc (rw f at h))
  ]

  upsert_error_told :
      (e f : Error) (s t : S)
      → upsert_error env users pats email e s ≡ (err f, t)
      → as_email_conflict f ≡ some p
      → (p ≡ "") ⊎ MayBeTold users email p s
  unfolding upsert_error as_email_conflict
  upsert_error_told e f s t h k = elim (Bool-cases (is email_already_registered e)) [
    | inl c ↦
        email_owner_error_told s
          (cc (k, rw c at h, conflict_under (email_owner_error env users pats email s).0))
    | inr c ↦ absurd (cc (c, is-as_email_conflict e p (cc (k, rw c at h, conflict_under e))))
  ]

  -- An error of ResolveByOAuth names a provider only if an account that is stored with the
  -- requester's email when the upsert has failed signs in with it, and never "pat".
  pub resolve_by_oauth_told :
      (provider provider_id name : String) (e : Error) (s t : S)
      → resolve_by_oauth env users pats provider provider_id email name s ≡ (err e, t)
      → as_email_conflict e ≡ some p
      → (p ≡ "") ⊎ MayBeTold users email p (attempt users provider provider_id email name s).1
  unfolding resolve_by_oauth
  resolve_by_oauth_told provider provider_id name e s t h k =
      elim (Result-cases (attempt users provider provider_id email name s)) [
        | inl (u, t', f) ↦ absurd (cc (rw f at h))
        | inr (d, t', f) ↦ rw f (upsert_error_told d e t' t (rw f at h) k)
      ]
