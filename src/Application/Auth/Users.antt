-- ===== src/Application/Auth/Users.antt =====
-- api/internal/application/auth/user_manager.go and helpers.go: users and their tokens. SHA-256, the
-- random source, new UUIDs and the clock are parameters.
pub mod Tokens
pub mod Disclosure
pub mod Bootstrap
pub mod Roles
pub mod RoundTrip
use courtknights.Common.{
  ℕ, zero, suc, String, ◌⧺◌, Bool, true, false, Option, none, some, List, [], ◌∷◌, ◌==◌,
  if◌then◌else◌, ltb,
}
use courtknights.Action.{Action, Result, ok, err, pure, fail, lift, within, handle, ◌>>=◌, ◌>>◌}
use courtknights.Errors.{
  Error, sentinel, email_conflict, wrap, is, email_already_registered, invalid_pat, pat_expired,
}
use courtknights.Domain.User.{
  Uuid, Time, Role, role_user, role_admin, Provider, provider_pat, User, NewUser, UserRepository,
}
use courtknights.Domain.Pat.{Pat, NewPat, PatRepository, is_expired}
use courtknights.Application.Auth.{UserManager}

-- `digest` is the hexadecimal SHA-256 of a text, `random_hex n` the hexadecimal of `n` random bytes.
pub record Environment (S : Type 0) : Type 0 where
  pub digest : String → String
  pub random_hex : ℕ → Action S String
  pub new_uuid : Action S String
  pub now : Action S Time

module _ {S : Type 0} (env : Environment S) where
  unfoldable pub hash_key : String → String → String
  hash_key key salt = env.digest (key ⧺ salt)

  generate_raw_key : Action S String
  generate_raw_key = env.random_hex 32

  generate_salt : Action S String
  generate_salt = env.random_hex 16

  -- The loop of ResolveByPAT: the first token whose hash is that of the raw one.
  unfoldable pub match_pat : String → List Pat → Option Pat
  unfolding hash_key
  match_pat raw [] = none
  match_pat raw (p ∷ rest) =
      let later = match_pat raw rest in if hash_key raw p.salt == p.key_hash then some p else later

module _ {S : Type 0} (env : Environment S) (users : UserRepository S)
    (pats : PatRepository S) where
  -- The provider that may be told to the user.
  disclosed : Provider → Error
  disclosed p = if p == provider_pat then email_conflict "" else email_conflict p

  owner_error : Result User × S → Error × S
  unfolding disclosed
  owner_error (ok owner, s) = (disclosed owner.provider, s)
  owner_error (err e, s) = (email_conflict "", s)

  -- `emailOwnerError`; its result is an error in any case.
  unfoldable pub email_owner_error : String → S → Error × S
  unfolding owner_error
  email_owner_error email s = owner_error (users.find_by_email email s)

  abbrev conflicting : Error × S → Result User × S
  conflicting (e, s) = (err (wrap "user manager: ResolveByOAuth" e), s)

  -- What ResolveByOAuth makes of an error of Upsert.
  upsert_error : String → Error → Action S User
  unfolding email_owner_error
  upsert_error email e s =
      if is email_already_registered e
      then conflicting (email_owner_error email s)
      else (err (wrap "user manager: ResolveByOAuth" e), s)

  unfoldable pub resolve_by_oauth : Provider → String → String → String → Action S User
  unfolding upsert_error
  resolve_by_oauth provider provider_id email name s = handle (upsert_error email) pure (
      users.upsert
        (record {
          email = email;
          name = name;
          role = role_user;
          provider = provider;
          provider_id = provider_id;
        })
        s)

  owner_of : Option Pat → Action S User
  owner_of none = fail (wrap "user manager: ResolveByPAT" (sentinel invalid_pat))
  owner_of (some p) = do
    now ← env.now
    if is_expired p now
        then fail (wrap "user manager: ResolveByPAT" (sentinel pat_expired))
        else within "user manager: ResolveByPAT" (users.find_by_id p.user_id)

  unfoldable pub resolve_by_pat : String → Action S User
  unfolding match_pat owner_of
  resolve_by_pat raw = do
    all ← within "user manager: ResolveByPAT" pats.find_all
    owner_of (match_pat env raw all)

  unfoldable pub create_pat : Uuid → Option Time → Action S String
  unfolding generate_raw_key generate_salt hash_key
  create_pat user_id expires_at = do
    within "user manager: CreatePAT: find user" (users.find_by_id user_id)
    raw ← within "user manager: CreatePAT: generate key" (generate_raw_key env)
    salt ← within "user manager: CreatePAT: generate salt" (generate_salt env)
    within "user manager: CreatePAT: save" (
        pats.save (record {
          user_id = user_id;
          key_hash = hash_key env raw salt;
          salt = salt;
          expires_at = expires_at;
        }))
    pure raw

  unfoldable pub revoke_pat : Uuid → Action S (Unit {0})
  revoke_pat id = within "user manager: RevokePAT" (pats.delete id)

  unfoldable pub list_pats : Action S (List Pat)
  list_pats = within "user manager: ListPATs" pats.find_all

  unfoldable pub update_user_role : Uuid → Role → Action S (Unit {0})
  update_user_role user_id role =
      within "user manager: UpdateUserRole" (users.update_role user_id role)

  unfoldable pub find_by_id : Uuid → Action S User
  find_by_id id = within "user manager: FindByID" (users.find_by_id id)

  -- BootstrapAdmin on an empty store.
  bootstrap_first : String → String → String → Action S (Option User × String)
  unfolding generate_salt hash_key
  bootstrap_first email name raw = do
    salt ← within "user manager: BootstrapAdmin: generate salt" (generate_salt env)
    provider_id ← env.new_uuid
    u ← within "user manager: BootstrapAdmin: upsert user" (
        users.upsert (record {
          email = email;
          name = name;
          role = role_admin;
          provider = provider_pat;
          provider_id = provider_id;
        }))
    within "user manager: BootstrapAdmin: save PAT" (
        pats.save (record {
          user_id = u.id;
          key_hash = hash_key env raw salt;
          salt = salt;
          expires_at = none;
        }))
    pure (some u, raw)

  unfoldable pub bootstrap_admin : String → String → String → Action S (Option User × String)
  unfolding bootstrap_first
  bootstrap_admin email name raw = do
    count ← within "user manager: BootstrapAdmin: count users" users.count_all
    if ltb 0 count then pure (none, "") else bootstrap_first email name raw

  -- The UserManager that `NewUserManager` returns.
  abbrev pub new_user_manager : UserManager S
  new_user_manager = record {
    resolve_by_oauth = resolve_by_oauth;
    resolve_by_pat = resolve_by_pat;
    create_pat = create_pat;
    revoke_pat = revoke_pat;
    list_pats = list_pats;
    bootstrap_admin = bootstrap_admin;
    update_user_role = update_user_role;
    find_by_id = find_by_id;
  }
