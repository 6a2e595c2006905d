-- ===== src/Tests/Accounts.antt =====
-- Runs of the user manager over small tables.
use courtknights.Common.{◌+◌, String, ◌≡◌, ◌↔◌, ◌⊎◌, refl, none, some, [], ◌∷◌, arith, find}
use courtknights.Action.{ok}
use courtknights.Errors.{Error, email_conflict, wrap}
use courtknights.Domain.User.{User}
use courtknights.Domain.Pat.{Pat}
use courtknights.Infrastructure.Postgres.{Database}
use courtknights.Infrastructure.Postgres.Users.{
  new_user_repository, has_id, upsert, find_by_email, find_by_id,
}
use courtknights.Infrastructure.Postgres.Pats.{new_pat_repository, find_all, save}
use courtknights.Application.Auth.Users.{
  Environment, resolve_by_pat, create_pat, resolve_by_oauth, hash_key, match_pat, email_owner_error,
}
use courtknights.Application.Auth.Users.Tokens.{Owned, resolve_by_pat_iff}
use courtknights.Application.Auth.Users.Disclosure.{MayBeTold, resolve_by_oauth_told}
use courtknights.Application.Auth.Users.Roles.{SignedIn, resolve_by_oauth-SignedIn}
use courtknights.Application.Auth.Users.RoundTrip.{create_pat-resolve_by_pat}

-- A digest that is the text itself, and a random source that always gives one text.
abbrev pub env : Environment Database
env = record {
  digest = λ s. s;
  random_hex = λ n s. (ok "5a", s);
  new_uuid = λ s. (ok "placeholder", s);
  now = λ s. (ok s.now, s);
}

abbrev pub bob : User
bob = record {
  id = 7;
  email = "bob@example.com";
  name = "Bob";
  role = "admin";
  provider = "github";
  provider_id = "41";
  created_at = 3;
  updated_at = 3;
}

abbrev old_pat : Pat
old_pat = record {
  id = 20;
  user_id = 7;
  key_hash = "k1s1";
  salt = "s1";
  expires_at = some 90;
  created_at = 4;
}

abbrev db : Database
db = record {
  users = bob ∷ [];
  pats = old_pat ∷ [];
  profiles = [];
  uuids = λ n. n + 100;
  drawn = 0;
  now = 50;
}

resolve_by_pat_iff_example :
    (resolve_by_pat env new_user_repository new_pat_repository "k1" db ≡ (ok bob, db))
    ↔ Owned env new_user_repository new_pat_repository "k1" db bob db
resolve_by_pat_iff_example =
    resolve_by_pat_iff env new_user_repository new_pat_repository "k1" db bob db

resolve_by_pat_bob :
    resolve_by_pat env new_user_repository new_pat_repository "k1" db ≡ (ok bob, db)
unfolding resolve_by_pat find_all find_by_id match_pat hash_key courtknights.Domain.Pat.is_expired
resolve_by_pat_bob = refl

resolve_by_oauth_told_example :
    (◌≡◌ {A = String} "github" "") ⊎ MayBeTold new_user_repository "bob@example.com" "github" db
unfolding resolve_by_oauth upsert email_owner_error find_by_email
    courtknights.Errors.as_email_conflict courtknights.Errors.is
resolve_by_oauth_told_example =
    resolve_by_oauth_told env new_user_repository new_pat_repository "bob@example.com" "github"
      "google" "9" "Bob" (wrap "user manager: ResolveByOAuth" (email_conflict "github")) db db refl
      refl

resolve_by_oauth-SignedIn_example :
    SignedIn "github" "41" db (record bob { name = "Bobby"; updated_at = 50 })
unfolding resolve_by_oauth upsert
resolve_by_oauth-SignedIn_example =
    resolve_by_oauth-SignedIn env new_pat_repository "github" "41" "bob@example.com" "Bobby" db
      (record bob { name = "Bobby"; updated_at = 50 })
      (record db { users = record bob { name = "Bobby"; updated_at = 50 } ∷ [] }) refl

abbrev new_pat : Pat
new_pat = record {
  id = 100;
  user_id = 7;
  key_hash = "5a5a";
  salt = "5a";
  expires_at = some 60;
  created_at = 50;
}

abbrev with_pat : Database
with_pat = record db { pats = old_pat ∷ new_pat ∷ []; drawn = 1 }

create_pat-resolve_by_pat_example :
    (u : User) × (find (has_id 7) db.users ≡ some u)
    × (resolve_by_pat env new_user_repository new_pat_repository "5a" with_pat ≡ (ok u, with_pat))
unfolding create_pat find_by_id save hash_key
create_pat-resolve_by_pat_example =
    create_pat-resolve_by_pat env (λ n s. record { users_eq = refl; pats_eq = refl }) 7 (some 60) db
      "5a" with_pat refl ((λ e. cc), tt) 50 with_pat refl
      (record { users_eq = refl; pats_eq = refl }) (omega arith)

abbrev pub empty : Database
empty = record db { users = []; pats = [] }

abbrev pub root : User
root = record {
  id = 100;
  email = "root@example.com";
  name = "Root";
  role = "admin";
  provider = "pat";
  provider_id = "placeholder";
  created_at = 50;
  updated_at = 50;
}

abbrev root_pat : Pat
root_pat = record {
  id = 101;
  user_id = 100;
  key_hash = "key5a";
  salt = "5a";
  expires_at = none;
  created_at = 50;
}

abbrev pub with_root : Database
with_root = record empty { users = root ∷ []; pats = root_pat ∷ []; drawn = 2 }
