-- ===== src/Infrastructure/Postgres/Profiles.antt =====
-- api/internal/infrastructure/postgres/profile_repository.go, over db/migrations/003 and 005.
pub mod Builder
pub mod Like
pub mod Table
pub mod Placeholders
pub mod Update
pub mod Sorting
pub mod Pages
pub mod Store
pub mod Branches
pub mod Contract
pub mod Consistent
pub mod Effects
pub mod History
use courtknights.Common.{
  ℕ, ◌-◌, ◌*◌, ◌%◌, ◌^◌, String, ◌⧺◌, ◌==◌, Bool, false, not, ◌&&◌, ◌||◌, Option, none, some, List,
  [], ◌∷◌, ◌++◌, map, length, find, take, drop, ltb, leb, eqb, is_some, if◌then◌else◌,
}
use courtknights.Common.Dict.{lookup}
use courtknights.Action.{Action, Result, ok, err}
use courtknights.Errors.{Error, opaque, sentinel, wrap, profile_not_found, profile_conflict}
use courtknights.Domain.User.{Uuid, Time, User}
use courtknights.Domain.Profile.{
  Profile, ProfilePatch, is_empty, ListParams, ProfileListItem, ProfileRepository,
}
use courtknights.Infrastructure.Postgres.{Database, ProfileRow}
use courtknights.Infrastructure.Postgres.Users.{has_id}
use courtknights.Infrastructure.Postgres.Profiles.Builder.{
  uuid, UpdateBuilder, arg, build, Statement,
}
use courtknights.Infrastructure.Postgres.Profiles.Table.{
  Failure, no_rows, refused, violation, Answer, answered, failed, of_user, run_update,
}

-- `scanProfile`
abbrev pub scan_profile : ProfileRow → Profile
scan_profile p = record {
  user_id = p.user_id;
  display_name = p.display_name;
  city = p.city;
  region = p.region;
  country = p.country;
  gender = p.gender;
  date_of_birth = p.date_of_birth;
  category = p.category;
  preferences = record {
    court_side = lookup "court_side" p.preferences;
    handedness = lookup "handedness" p.preferences;
  };
  created_at = p.created_at;
  updated_at = p.updated_at;
}

-- `scanProfileListItem`
abbrev pub scan_list_item : ProfileRow → ProfileListItem
scan_list_item p = record {
  id = some p.user_id;
  display_name = some p.display_name;
  city = p.city;
  region = p.region;
  country = p.country;
  gender = p.gender;
  category = p.category;
}

abbrev pub inserted : Uuid → String → Database → ProfileRow
inserted user_id display_name db = record {
  user_id = user_id;
  display_name = display_name;
  city = none;
  region = none;
  country = none;
  gender = none;
  date_of_birth = none;
  category = none;
  preferences = [];
  created_at = db.now;
  updated_at = db.now;
}

abbrev no_user : Error
no_user =
    wrap "postgres: EnsureExists profile"
      (opaque "violates foreign key constraint \"user_profiles_user_id_fkey\"")

-- ON CONFLICT DO NOTHING; a new row needs its user.
unfoldable pub ensure_exists : Uuid → String → Action Database (Unit {0})
ensure_exists user_id display_name db =
    if is_some (find (of_user user_id) db.profiles)
    then (ok tt, db)
    else if not (is_some (find (has_id user_id) db.users))
    then (err no_user, db)
    else (ok tt, record db { profiles = db.profiles ++ (inserted user_id display_name db ∷ []) })

abbrev found_or_not : Option ProfileRow → Result Profile
found_or_not none = err (wrap "postgres: FindByUserID profile" (sentinel profile_not_found))
found_or_not (some p) = ok (scan_profile p)

unfoldable pub find_by_user_id : Uuid → Action Database Profile
find_by_user_id user_id db = (found_or_not (find (of_user user_id) db.profiles), db)

-- `isRegionCountryViolation`
abbrev pub is_region_country_violation : Failure → Bool
is_region_country_violation (violation code name) =
    code == "23514" && name == "user_profiles_region_country_check"
is_region_country_violation _ = false

-- The text of a failure that the repository passes on.
abbrev failure_error : Failure → Error
failure_error (violation code name) = opaque ("constraint " ⧺ name ⧺ " (SQLSTATE " ⧺ code ⧺ ")")
failure_error refused = opaque "syntax error or type mismatch"
failure_error no_rows = opaque "no rows in result set"

-- What `Update` makes of an error of the statement.
unfoldable pub update_error : Failure → Error
update_error no_rows = wrap "postgres: Update profile" (sentinel profile_not_found)
update_error f =
    if is_region_country_violation f
    then wrap "postgres: Update profile" (sentinel profile_conflict)
    else wrap "postgres: Update profile" (failure_error f)

abbrev pub updated : Answer ProfileRow × Database → Result Profile × Database
updated (answered p, db) = (ok (scan_profile p), db)
updated (failed f, db) = (err (update_error f), db)

-- The statement of `Update` over the builder, with the id of the user as its last argument.
abbrev pub statement : Uuid → UpdateBuilder → Statement × UpdateBuilder
statement user_id b =
    let (n, last) = arg (uuid user_id) b in
    (record { clauses = last.clauses; where_index = n }, last)

-- `now` is `time.Now().UTC()`.
unfoldable pub update : (Database → Time) → Uuid → ProfilePatch → Action Database Profile
unfolding build run_update is_empty find_by_user_id
update now user_id patch db =
    if is_empty patch
    then find_by_user_id user_id db
    else (let (q, b) = statement user_id (build patch (now db)) in updated (run_update q b.args db))

-- The rows that pass the test.
abbrev select : (ProfileRow → Bool) → List ProfileRow → List ProfileRow
select test [] = []
select test (p ∷ ps) = let rest = select test ps in if test p then p ∷ rest else rest

-- `users u JOIN user_profiles p ON p.user_id = u.id`; the row of a profile has the id of its user.
abbrev pub joined : List User → List ProfileRow → List ProfileRow
joined [] profiles = []
joined (u ∷ users) profiles = select (of_user u.id) profiles ++ joined users profiles

-- How the database sorts: `before` is its collation, and `sort` gives the rows in an order by the
-- test that it gets. Rows that the test does not tell apart may come in any order, and in another
-- one for each page.
pub record Ordering : Type 0 where
  pub before : String → String → Bool
  pub sort : ListParams → (ProfileRow → ProfileRow → Bool) → List ProfileRow → List ProfileRow

-- `ORDER BY p.display_name ASC, u.id ASC`
unfoldable pub precedes : (String → String → Bool) → ProfileRow → ProfileRow → Bool
precedes before p q =
    before p.display_name q.display_name
    || (p.display_name == q.display_name && ltb p.user_id q.user_id)

abbrev pub ordered : Ordering → ListParams → List ProfileRow → List ProfileRow
ordered order params rows = order.sort params (precedes order.before) rows

-- `(params.Page - 1) * params.PageSize` of 64-bit integers, as its remainder modulo 2^64.
unfoldable pub offset : ListParams → ℕ
offset params =
    if eqb params.page 0
    then (2 ^ 64 - params.page_size % 2 ^ 64) % 2 ^ 64
    else ((params.page - 1) * params.page_size) % 2 ^ 64

abbrev list_failed : String → Database → Result (List ProfileListItem × ℕ) × Database
list_failed e db = (err (wrap "postgres: List profiles rows" (opaque e)), db)

-- The server refuses a negative OFFSET, which is one from 2^63 on here.
unfoldable pub list : Ordering → ListParams → Action Database (List ProfileListItem × ℕ)
list order params db =
    let rows = joined db.users db.profiles in
    if leb (2 ^ 63) (offset params) then list_failed "OFFSET must not be negative" db else (
      ok (
        map scan_list_item
            (take params.page_size (drop (offset params) (ordered order params rows))),
        length rows,
      ),
      db,
    )

-- `NewProfileRepository`
abbrev pub new_profile_repository : (Database → Time) → Ordering → ProfileRepository Database
new_profile_repository now order = record {
  ensure_exists = ensure_exists;
  find_by_user_id = find_by_user_id;
  update = update now;
  list = list order;
}
