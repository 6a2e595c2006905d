-- ===== src/Application/Auth/Users/Roles.antt =====
-- The role with which ResolveByOAuth of api/internal/application/auth/user_manager.go signs in,
-- over the users table.
use courtknights.Common.{String, ◌≡◌, ◌∙◌, ap, none, some, inl, inr, find, Bool-cases}
use courtknights.Errors.{Error, is, email_already_registered}
use courtknights.Action.{ok, Result-cases}
use courtknights.Domain.User.{Provider, User, NewUser}
use courtknights.Domain.Pat.{PatRepository}
use courtknights.Infrastructure.Postgres.{Database}
use courtknights.Infrastructure.Postgres.Users.{new_user_repository, has_provider, upsert}
use courtknights.Infrastructure.Postgres.Users.Upsert.{Upserted, created, renewed, upsert-Upserted}
use courtknights.Application.Auth.Users.{Environment, resolve_by_oauth, upsert_error}

-- The account that has signed in: a new one, which is a user's, or the one that the provider's id
-- had, with the role that it had.
pub data SignedIn (provider : Provider) (provider_id : String) (db : Database) (u : User)
    : Type 0 where
  first_time :
      find (has_provider provider provider_id) db.users ≡ none
      → u.role ≡ "user"
      → SignedIn provider provider_id db u
  again :
      (v : User)
      → find (has_provider provider provider_id) db.users ≡ some v
      → u.id ≡ v.id
      → u.role ≡ v.role
      → u.created_at ≡ v.created_at
      → SignedIn provider provider_id db u

module _ (env : Environment Database) (pats : PatRepository Database) (provider : Provider)
    (provider_id email name : String) (db : Database) (u : User) (t : Database) where
  abbrev fresh_user : NewUser
  fresh_user = record {
    email = email;
    name = name;
    role = "user";
    provider = provider;
    provider_id = provider_id;
  }

  Upserted-role : Upserted fresh_user db u t → SignedIn provider provider_id db u
  Upserted-role (created f e _) = first_time f (ap (λ x. x.role) e)
  Upserted-role (renewed v f e _) =
      again v f (ap (λ x. x.id) e) (ap (λ x. x.role) e) (ap (λ x. x.created_at) e)

  upsert_error_err :
      (e : Error) (s : Database)
      → upsert_error env new_user_repository pats email e s ≡ (ok u, t)
      → ⊥
  unfolding upsert_error
  upsert_error_err e s h = elim (Bool-cases (is email_already_registered e)) [
    | inl c ↦ cc (rw c at h)
    | inr c ↦ cc (rw c at h)
  ]

  -- Whoever signs in with a provider gets the role "user" the first time, and keeps the account and
  -- its role afterwards.
  pub resolve_by_oauth-SignedIn :
      resolve_by_oauth env new_user_repository pats provider provider_id email name db ≡ (ok u, t)
      → SignedIn provider provider_id db u
  unfolding resolve_by_oauth
  resolve_by_oauth-SignedIn h = elim (Result-cases (upsert fresh_user db)) [
    | inl (v, t', f) ↦ Upserted-role (upsert-Upserted fresh_user db u t (f ∙ rw f at h))
    | inr (e, t', f) ↦ absurd (upsert_error_err e t' (rw f at h))
  ]
