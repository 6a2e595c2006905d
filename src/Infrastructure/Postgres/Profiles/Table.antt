-- ===== src/Infrastructure/Postgres/Profiles/Table.antt =====
-- What the statements of api/internal/infrastructure/postgres/profile_repository.go do to the table
-- user_profiles of db/migrations/003 and 005.
use courtknights.Common.{
  zero, suc, String, ◌==◌, Bool, true, false, not, Option, none, some, List, [], ◌∷◌, ◌++◌, map,
  find, get_elem?, contains, codes, eqb, if◌then◌else◌,
}
use courtknights.Common.Dict.{Dict, store, delete}
use courtknights.Domain.User.{Uuid}
use courtknights.Domain.Profile.{genders, categories}
use courtknights.Infrastructure.Postgres.{Database, ProfileRow}
use courtknights.Infrastructure.Postgres.Profiles.Builder.{
  Value, null, text, time, uuid, boolean, object, texts, Placeholder, Clause, assign, merge_json,
  Statement,
}
use courtknights.Infrastructure.Postgres.Profiles.Like.{like}

-- What a statement fails with: pgx.ErrNoRows, a violated constraint with its SQLSTATE and name, or
-- a statement that the server refuses.
pub data Failure : Type 0 where
  no_rows refused : Failure
  violation : String → String → Failure

pub data Answer (A : Type 0) : Type 0 where
  answered : A → Answer A
  failed : Failure → Answer A

abbrev pub of_user : Uuid → ProfileRow → Bool
of_user id p = eqb p.user_id id

-- The CHECK of the migration 005.
abbrev pub passes_region_check : Option String → Option String → Bool
passes_region_check none country = true
passes_region_check (some region) none = false
passes_region_check (some region) (some country) =
    like (codes country ++ (45 ∷ 37 ∷ [])) (codes region)

abbrev pub is_one_of : List String → Option String → Bool
is_one_of values none = true
is_one_of values (some v) = contains values v

abbrev check_violation : String → Option Failure
check_violation name = some (violation "23514" name)

-- The first constraint that is broken, of those on the category, the gender and the region: the
-- server tests them in the order of their names.
abbrev pub first_violated : Bool → Bool → Bool → Option Failure
first_violated category_fits gender_fits region_fits =
    if not category_fits
    then check_violation "user_profiles_category_check"
    else if not gender_fits
    then check_violation "user_profiles_gender_check"
    else if not region_fits
    then check_violation "user_profiles_region_country_check"
    else none

abbrev pub violated : ProfileRow → Option Failure
violated p =
    first_violated (is_one_of categories p.category) (is_one_of genders p.gender)
      (passes_region_check p.region p.country)

abbrev value_at : Option Value → Value
value_at none = null
value_at (some v) = v

-- `$n`
abbrev pub argument : List Value → Placeholder → Value
argument args zero = null
argument args (suc n) = value_at (get_elem? args n)

abbrev with_text : (Option String → ProfileRow) → Value → Option ProfileRow
with_text write null = some (write none)
with_text write (text s) = some (write (some s))
with_text write _ = none

-- "column = value", where the value has the type of the column.
unfoldable pub assigned : String → Value → ProfileRow → Option ProfileRow
assigned column v p =
    if column == "display_name"
    then elim v [ text s ↦ some (record p { display_name = s }) | _ ↦ none ]
    else if column == "city"
    then with_text (λ s. record p { city = s }) v
    else if column == "region"
    then with_text (λ s. record p { region = s }) v
    else if column == "country"
    then with_text (λ s. record p { country = s }) v
    else if column == "gender"
    then with_text (λ s. record p { gender = s }) v
    else if column == "date_of_birth"
    then elim v [
      | null ↦ some (record p { date_of_birth = none })
      | time t ↦ some (record p { date_of_birth = some t })
      | _ ↦ none
    ]
    else if column == "category"
    then with_text (λ s. record p { category = s }) v
    else if column == "updated_at"
    then elim v [ time t ↦ some (record p { updated_at = t }) | _ ↦ none ]
    else none

-- `j || set` and `j - remove` of JSONB.
unfoldable pub concatenated : Dict String → Dict String → Dict String
concatenated j [] = j
concatenated j ((k, v) ∷ set) = store k v (concatenated j set)

unfoldable pub removed : Dict String → List String → Dict String
removed j [] = j
removed j (k ∷ remove) = removed (delete k j) remove

unfoldable pub merged : Value → Value → Value → Dict String → Option (Dict String)
merged (boolean clear) (object set) (texts remove) j =
    some (removed (concatenated (if clear then [] else j) set) remove)
merged _ _ _ j = none

abbrev pub and_then : {A B : Type 0} → (A → Option B) → Option A → Option B
and_then f none = none
and_then f (some a) = f a

-- One SET clause, over the row as it was before the statement.
unfoldable pub apply_clause : List Value → ProfileRow → Clause → ProfileRow → Option ProfileRow
unfolding assigned merged
apply_clause args old (assign column n) p = assigned column (argument args n) p
apply_clause args old (merge_json clear set remove) p =
    and_then (λ j. some (record p { preferences = j }))
      (merged (argument args clear) (argument args set) (argument args remove) old.preferences)

unfoldable pub apply_clauses :
    List Value → ProfileRow → List Clause → ProfileRow → Option ProfileRow
unfolding apply_clause
apply_clauses args old [] p = some p
apply_clauses args old (c ∷ cs) p =
    and_then (λ q. apply_clauses args old cs q) (apply_clause args old c p)

abbrev pub put_row : ProfileRow → List ProfileRow → List ProfileRow
put_row p rows = map (λ q. if of_user p.user_id q then p else q) rows

abbrev pub checked : ProfileRow → Option Failure → Database → Answer ProfileRow × Database
checked p (some f) db = (failed f, db)
checked p none db = (answered p, record db { profiles = put_row p db.profiles })

abbrev pub written : Option ProfileRow → Database → Answer ProfileRow × Database
written none db = (failed refused, db)
written (some p) db = checked p (violated p) db

abbrev pub update_found :
    Statement → List Value → Option ProfileRow → Database → Answer ProfileRow × Database
update_found q args none db = (failed no_rows, db)
update_found q args (some old) db = written (apply_clauses args old q.clauses old) db

abbrev pub update_where : Statement → List Value → Value → Database → Answer ProfileRow × Database
update_where q args (uuid id) db = update_found q args (find (of_user id) db.profiles) db
update_where q args _ db = (failed refused, db)

-- The UPDATE with its arguments, and the row it returns.
unfoldable pub run_update : Statement → List Value → Database → Answer ProfileRow × Database
run_update q args db = update_where q args (argument args q.where_index) db
