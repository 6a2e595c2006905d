-- ===== src/Tests/Rows.antt =====
-- Runs of the profile repository over a small table.
use courtknights.Common.{
  ◌≡◌, refl, Bool, true, false, none, some, List, [], ◌∷◌, ◌+◌, eq_iff, codes, arith, eqb,
  if◌then◌else◌, decimal, All,
}
use courtknights.Common.Dict.{lookup}
use courtknights.Action.{Result, ok, err}
use courtknights.Errors.{is, sentinel, wrap, profile_conflict}
use courtknights.Domain.User.{Time, User}
use courtknights.Domain.Profile.{ProfilePatch, cleared, set_to, is_empty, preferences_is_empty}
use courtknights.Domain.Profile.Contract.{IsProfileStore}
use courtknights.Domain.Profile.Location.{validate_location}
use courtknights.Application.Profile.{apply_location_rules, same_value}
use courtknights.Infrastructure.Postgres.{Database, ProfileRow}
use courtknights.Infrastructure.Postgres.Profiles.{
  Ordering, list, offset, update, new_profile_repository, statement, update_error,
}
use courtknights.Infrastructure.Postgres.Profiles.Builder.{
  build, build_columns, set, set_field, merge_preferences, build_update_query,
}
use courtknights.Infrastructure.Postgres.Profiles.Like.{like, IsPlainChar}
use courtknights.Infrastructure.Postgres.Profiles.Table.{
  run_update, violation, apply_clauses, apply_clause, assigned,
}
use courtknights.Infrastructure.Postgres.Profiles.Sorting.{insertion_sort}
use courtknights.Tests.Collation.{earlier}
use courtknights.Infrastructure.Postgres.Profiles.Store.{stored_profile}
use courtknights.Infrastructure.Postgres.Profiles.Contract.{new_profile_repository-IsProfileStore}
use courtknights.Infrastructure.Postgres.Profiles.Branches.{Ran, update-Ran}
use courtknights.Infrastructure.Postgres.Profiles.Consistent.{IsIso, update_ruled-no_conflict}
use courtknights.Infrastructure.Postgres.Profiles.History.{
  Call, save_user, ensure_profile, update_profile, run, IsSound, run-IsSound,
}
use courtknights.Tests.Profiles.{countries, player, to_france, player_location}

abbrev ana : User
ana = record {
  id = 7;
  email = "ana@example.com";
  name = "Ana";
  role = "user";
  provider = "google";
  provider_id = "g7";
  created_at = 1;
  updated_at = 1;
}

abbrev pub ana_row : ProfileRow
ana_row = record {
  user_id = 7;
  display_name = "Ana";
  city = some "Madrid";
  region = some "ES-MD";
  country = some "ES";
  gender = none;
  date_of_birth = none;
  category = none;
  preferences = [];
  created_at = 1;
  updated_at = 1;
}

abbrev pub db : Database
db = record {
  users = ana ∷ record ana { id = 8; name = "Bea" } ∷ [];
  pats = [];
  profiles = record ana_row { user_id = 8; display_name = "Bea" } ∷ ana_row ∷ [];
  uuids = λ n. n + 100;
  drawn = 0;
  now = 50;
}

abbrev clock : Database → Time
clock s = 60

-- The database sorts by insertion, with the texts in the order of their code points.
abbrev pub order : Ordering
order = record { before = earlier; sort = λ _ less rows. insertion_sort less rows }

abbrev moved : ProfilePatch
moved = record to_france { region = cleared }

-- Moving to France with the region kept breaks the CHECK, and without it does not.
conflict :
    update clock 7 to_france db
    ≡ (err (wrap "postgres: Update profile" (sentinel profile_conflict)), db)
unfolding update is_empty preferences_is_empty build build_columns set set_field merge_preferences
    run_update apply_clauses apply_clause assigned like update_error
conflict = refl

query :
    build_update_query (statement 7 (build moved 60)).0
    ≡ "UPDATE user_profiles SET region = $1, country = $2, updated_at = $3\n\t\tWHERE user_id = $4\n\t\tRETURNING user_id, display_name, city, region, country, gender, date_of_birth,\n\t\t          category, preferences, created_at, updated_at"
unfolding is_empty preferences_is_empty build build_columns set set_field merge_preferences
    build_update_query decimal
query = refl

update-Ran_example : Ran 7 moved 60 db (update clock 7 moved db)
update-Ran_example = update-Ran clock 7 moved db

new_profile_repository-IsProfileStore_example :
    IsProfileStore (new_profile_repository clock order) stored_profile
new_profile_repository-IsProfileStore_example = new_profile_repository-IsProfileStore clock order

abbrev is_iso_plain :
    (b : Bool) (c : Bool) → All IsPlainChar (codes (if b then "ES" else if c then "FR" else ""))
is_iso_plain true c = (
  (λ e. omega arith, λ e. omega arith, λ e. omega arith),
  ((λ e. omega arith, λ e. omega arith, λ e. omega arith), tt),
)
is_iso_plain false true = (
  (λ e. omega arith, λ e. omega arith, λ e. omega arith),
  ((λ e. omega arith, λ e. omega arith, λ e. omega arith), tt),
)
is_iso_plain false false = tt

countries-IsIso : IsIso countries
countries-IsIso = record {
  alpha2_plain = λ n. is_iso_plain (eqb n 724) (eqb n 250);
  prefixed = λ r known. (77 ∷ 68 ∷ [], rw ((eq_iff r "ES-MD").0 known) refl);
}

held : stored_profile 7 db ≡ some player
unfolding lookup
held = refl

-- A gender that no CHECK allows: the update fails, and not with a conflict.
update_ruled-no_conflict_example :
    is profile_conflict (update_error (violation "23514" "user_profiles_gender_check")) ≡ false
unfolding apply_location_rules same_value validate_location update is_empty preferences_is_empty
    build build_columns set set_field merge_preferences run_update apply_clauses apply_clause
    assigned like update_error
update_ruled-no_conflict_example =
    update_ruled-no_conflict countries countries-IsIso clock 7
      (record to_france { gender = set_to "x" }) (record moved { gender = set_to "x" }) db db player
      (update_error (violation "23514" "user_profiles_gender_check")) held player_location refl refl

abbrev is_err : {A : Type 0} → Result A → Bool
is_err (ok a) = false
is_err (err e) = true

abbrev without_profiles : Database
without_profiles = record db { profiles = [] }

abbrev calls : List Call
calls =
    save_user (record {
      email = "cy@example.com";
      name = "Cy";
      role = "user";
      provider = "github";
      provider_id = "9";
    })
    ∷ ensure_profile 7 "Ana"
    ∷ update_profile 7 to_france
    ∷ ensure_profile 9 "Nobody"
    ∷ []

-- Nothing is stored yet.
nothing_stored : IsSound countries clock order without_profiles
nothing_stored = record {
  valid = λ u p held. absurd (cc held);
  owned = λ u p held. absurd (cc held);
}

run-IsSound_example :
    IsSound countries clock order (run countries clock order calls without_profiles)
run-IsSound_example = run-IsSound countries clock order calls without_profiles nothing_stored

-- The offset of a page beyond 2^62 wraps around to that of the first one.
page_wraps :
    list order (record { page = 4611686018427387905; page_size = 4; fields = [] }) db
    ≡ list order (record { page = 1; page_size = 4; fields = [] }) db
unfolding list offset
page_wraps = refl

-- And that of a page just below is negative, which the server refuses.
page_fails :
    is_err (list order (record { page = 4611686018427387904; page_size = 4; fields = [] }) db).0
    ≡ true
unfolding list offset
page_fails = refl
