-- ===== src/Infrastructure/Postgres/Users.antt =====
-- api/internal/infrastructure/postgres/user_repository.go, over db/migrations/001.
pub mod Upsert
use courtknights.Common.{
  ℕ, suc, String, ◌≡◌, refl, Bool, true, false, not, ◌&&◌, ◌||◌, Option, none, some, List, [], ◌∷◌,
  ◌++◌, map, length, find, is_some, eqb, ◌==◌, if◌then◌else◌,
}
use courtknights.Action.{Action, Result, ok, err}
use courtknights.Errors.{Error, opaque, sentinel, wrap, user_not_found, email_already_registered}
use courtknights.Domain.User.{
  Uuid, Role, Provider, role_admin, role_user, provider_google, provider_github, provider_pat, User,
  NewUser, UserRepository,
}
use courtknights.Infrastructure.Postgres.{Database}

abbrev scanned : String → Option User → Result User
scanned prefix none = err (wrap prefix (sentinel user_not_found))
scanned prefix (some u) = ok u

abbrev pub has_id : Uuid → User → Bool
has_id id u = eqb u.id id

abbrev pub has_email : String → User → Bool
has_email email u = u.email == email

abbrev pub has_provider : Provider → String → User → Bool
has_provider provider provider_id u = u.provider == provider && u.provider_id == provider_id

unfoldable pub find_by_id : Uuid → Action Database User
find_by_id id db = (scanned "postgres: FindByID" (find (has_id id) db.users), db)

pub find_by_id_found :
    (id : Uuid) (u : User) (db : Database)
    → find (has_id id) db.users ≡ some u
    → find_by_id id db ≡ (ok u, db)
unfolding find_by_id
find_by_id_found id u db e = rw e refl

unfoldable pub find_by_provider : Provider → String → Action Database User
find_by_provider provider provider_id db =
    (scanned "postgres: FindByProvider" (find (has_provider provider provider_id) db.users), db)

unfoldable pub find_by_email : String → Action Database User
find_by_email email db = (scanned "postgres: FindByEmail" (find (has_email email) db.users), db)

-- The CHECK constraints of the table.
abbrev pub passes_checks : NewUser → Bool
passes_checks n =
    (n.role == role_admin || n.role == role_user)
    && (n.provider == provider_google
        || (n.provider == provider_github || n.provider == provider_pat))

abbrev upsert_failed : Error → Database → Result User × Database
upsert_failed e db = (err (wrap "postgres: Upsert" e), db)

abbrev pub inserted : NewUser → Database → User
inserted n db = record {
  id = db.uuids db.drawn;
  email = n.email;
  name = n.name;
  role = n.role;
  provider = n.provider;
  provider_id = n.provider_id;
  created_at = db.now;
  updated_at = db.now;
}

abbrev pub updated : NewUser → User → Database → User
updated n u db = record u { email = n.email; name = n.name; updated_at = db.now }

-- Another row than that of the id has the email.
abbrev pub taken_by_other : Uuid → String → List User → Bool
taken_by_other id email users = is_some (find (λ v. not (has_id id v) && has_email email v) users)

abbrev pub set_row : User → List User → List User
set_row u users = map (λ v. if has_id u.id v then u else v) users

-- The INSERT, or the DO UPDATE where a row has the provider and its id.
upsert_row : NewUser → Option User → Action Database User
upsert_row n none db =
    if is_some (find (has_email n.email) db.users)
    then upsert_failed (sentinel email_already_registered) db
    else if is_some (find (has_id (db.uuids db.drawn)) db.users)
    then upsert_failed (opaque "duplicate key value violates unique constraint \"users_pkey\"") db
    else (
      ok (inserted n db),
      record db { users = db.users ++ (inserted n db ∷ []); drawn = suc db.drawn },
    )
upsert_row n (some u) db =
    if taken_by_other u.id n.email db.users
    then upsert_failed (sentinel email_already_registered) db
    else (ok (updated n u db), record db { users = set_row (updated n u db) db.users })

unfoldable pub upsert : NewUser → Action Database User
unfolding upsert_row
upsert n db =
    if not (passes_checks n)
    then upsert_failed (opaque "new row for relation \"users\" violates check constraint") db
    else upsert_row n (find (has_provider n.provider n.provider_id) db.users) db

unfoldable pub count_all : Action Database ℕ
count_all db = (ok (length db.users), db)

abbrev role_failed : Error → Database → Result (Unit {0}) × Database
role_failed e db = (err (wrap "postgres: UpdateRole" e), db)

abbrev with_role : Uuid → Role → Database → User → User
with_role id role db u = if has_id id u then record u { role = role; updated_at = db.now } else u

-- `RowsAffected() == 0` where no row has the id; no CHECK is made then.
unfoldable pub update_role : Uuid → Role → Action Database (Unit {0})
update_role id role db =
    if not (is_some (find (has_id id) db.users))
    then role_failed (sentinel user_not_found) db
    else if not (role == role_admin || role == role_user)
    then role_failed (opaque "new row for relation \"users\" violates check constraint") db
    else (ok tt, record db { users = map (with_role id role db) db.users })

-- `NewUserRepository`
abbrev pub new_user_repository : UserRepository Database
new_user_repository = record {
  find_by_id = find_by_id;
  find_by_provider = find_by_provider;
  find_by_email = find_by_email;
  upsert = upsert;
  update_role = update_role;
  count_all = count_all;
}
