-- ===== src/Infrastructure/Postgres/Profiles/Builder.antt =====
-- The updateBuilder of api/internal/infrastructure/postgres/profile_repository.go: the SET clauses
-- of an UPDATE with the arguments that their placeholders number.
use courtknights.Common.{
  ℕ, String, ◌⧺◌, Bool, not, Option, none, some, List, [], ◌∷◌, ◌++◌, length, decimal,
  if◌then◌else◌,
}
use courtknights.Common.Dict.{Dict, store}
use courtknights.Domain.User.{Uuid, Time}
use courtknights.Domain.Profile.{Field, PreferencesPatch, ProfilePatch, preferences_is_empty}

-- An argument of a statement; `null` is nil, and `object` a marshalled map of texts.
pub data Value : Type 0 where
  null : Value
  text : String → Value
  time : Time → Value
  uuid : Uuid → Value
  boolean : Bool → Value
  object : Dict String → Value
  texts : List String → Value

-- `$n`, by its number.
abbrev pub Placeholder : Type 0
Placeholder = ℕ

-- "column = $n", and the clause that mergePreferences writes, with its three placeholders.
pub data Clause : Type 0 where
  assign : String → Placeholder → Clause
  merge_json : Placeholder → Placeholder → Placeholder → Clause

pub record UpdateBuilder : Type 0 where
  pub clauses : List Clause
  pub args : List Value

abbrev pub new_builder : UpdateBuilder
new_builder = record { clauses = []; args = [] }

-- `arg`
abbrev pub arg : Value → UpdateBuilder → Placeholder × UpdateBuilder
arg v b = let args = b.args ++ (v ∷ []) in (length args, record b { args = args })

-- `b.clauses = append(b.clauses, c)`
abbrev pub add_clause : Clause → UpdateBuilder → UpdateBuilder
add_clause c b = record b { clauses = b.clauses ++ (c ∷ []) }

unfoldable pub set : String → Value → UpdateBuilder → UpdateBuilder
set column v b = let (n, b1) = arg v b in add_clause (assign column n) b1

abbrev pub value_or_null : {A : Type 0} → (A → Value) → Option A → Value
value_or_null value none = null
value_or_null value (some a) = value a

-- `setField`; `value` is the argument that the type parameter's values are passed as.
unfoldable pub set_field :
    {A : Type 0} → (A → Value) → String → Field A → UpdateBuilder → UpdateBuilder
set_field value column f b = if not f.set then b else set column (value_or_null value f.value) b

-- What mergePreferences collects: the members with a value, and the keys to remove.
pub record Members : Type 0 where
  pub set : Dict String
  pub remove : List String

unfoldable pub merge_preference : String → Field String → Members → Members
merge_preference key f m = if not f.set then m else elim f.value [
  | none ↦ record m { remove = m.remove ++ (key ∷ []) }
  | some v ↦ record m { set = store key v m.set }
]

abbrev pub no_members : Members
no_members = record { set = []; remove = [] }

unfoldable pub members : PreferencesPatch → Members
members p =
    merge_preference "handedness" p.handedness
      (merge_preference "court_side" p.court_side no_members)

-- The clause of mergePreferences and its three arguments.
abbrev pub add_merge : Bool → Members → UpdateBuilder → UpdateBuilder
add_merge clear_all m b =
    let (clear, b1) = arg (boolean clear_all) b in
    let (set, b2) = arg (object m.set) b1 in
    let (remove, b3) = arg (texts m.remove) b2 in add_clause (merge_json clear set remove) b3

-- Marshalling a map of texts cannot fail.
unfoldable pub merge_preferences : PreferencesPatch → UpdateBuilder → UpdateBuilder
merge_preferences p b = if preferences_is_empty p then b else add_merge p.clear (members p) b

abbrev pub set_name : Option String → UpdateBuilder → UpdateBuilder
set_name none b = b
set_name (some name) b = set "display_name" (text name) b

-- The clauses of `Update` for the columns before the preferences.
unfoldable pub build_columns : ProfilePatch → UpdateBuilder
build_columns patch =
    let b1 = set_name patch.display_name new_builder in
    let b2 = set_field text "city" patch.city b1 in
    let b3 = set_field text "region" patch.region b2 in
    let b4 = set_field text "country" patch.country b3 in
    let b5 = set_field text "gender" patch.gender b4 in
    let b6 = set_field time "date_of_birth" patch.date_of_birth b5 in
    set_field text "category" patch.category b6

-- The builder as `Update` fills it, with the time of the update.
unfoldable pub build : ProfilePatch → Time → UpdateBuilder
build patch now =
    set "updated_at" (time now) (merge_preferences patch.preferences (build_columns patch))

-- The query that buildUpdateQuery makes of the clauses and the index in its WHERE.
pub record Statement : Type 0 where
  pub clauses : List Clause
  pub where_index : Placeholder

abbrev shown_placeholder : Placeholder → String
shown_placeholder n = "$" ⧺ decimal n

abbrev shown_clause : Clause → String
shown_clause (assign column n) = column ⧺ " = " ⧺ shown_placeholder n
shown_clause (merge_json clear set remove) =
    "preferences = ((CASE WHEN "
    ⧺ shown_placeholder clear
    ⧺ " THEN '{}'::jsonb ELSE preferences END) || "
    ⧺ shown_placeholder set
    ⧺ "::jsonb) - "
    ⧺ shown_placeholder remove
    ⧺ "::text[]"

abbrev joined_clauses : List Clause → String
joined_clauses [] = ""
joined_clauses (c ∷ []) = shown_clause c
joined_clauses (c ∷ d ∷ cs) = shown_clause c ⧺ ", " ⧺ joined_clauses (d ∷ cs)

-- The text of the statement, `buildUpdateQuery`.
unfoldable pub build_update_query : Statement → String
build_update_query q =
    "UPDATE user_profiles SET "
    ⧺ joined_clauses q.clauses
    ⧺ "\n\t\tWHERE user_id = "
    ⧺ shown_placeholder q.where_index
    ⧺ "\n\t\tRETURNING user_id, display_name, city, region, country, gender, date_of_birth,"
    ⧺ "\n\t\t          category, preferences, created_at, updated_at"
