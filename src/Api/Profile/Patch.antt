-- ===== src/Api/Profile/Patch.antt =====
-- api/internal/api/profile/patch.go, on the members that encoding/json decodes. `time.Parse` of a
-- date is a parameter.
pub mod Reading
pub mod Members
use Prim.Native.Nat.{Ordering}
use Prim.Native.String
use courtknights.Common.{
  ℕ, String, ◌⧺◌, Bool, true, false, Option, none, some, List, [], ◌∷◌, ◌++◌, contains, is_blank,
  quote, if◌then◌else◌, ◌==◌,
}
use courtknights.Common.Dict.{Dict, lookup}
use courtknights.Action.{Result, ok, err}
use courtknights.Errors.{opaque}
use courtknights.Domain.User.{Time}
use courtknights.Domain.Profile.{
  Field, unchanged, cleared, set_to, ProfilePatch, PreferencesPatch, genders, categories,
  court_sides, hands,
}

-- A raw JSON value: null, a string, or one that is neither.
pub data Scalar : Type 0 where
  null : Scalar
  text : String → Scalar
  other : Scalar

-- A member of the patch; an object has its members, whose own objects are `other`.
pub data Member : Type 0 where
  scalar : Scalar → Member
  object : Dict Scalar → Member

abbrev pub profile_patch_members : List String
profile_patch_members =
    "display_name" ∷ "city" ∷ "region" ∷ "country" ∷ "gender" ∷ "date_of_birth" ∷ "category"
    ∷ "preferences" ∷ []

abbrev pub preferences_patch_members : List String
preferences_patch_members = "court_side" ∷ "handedness" ∷ []

abbrev pub as_scalar : Option Member → Option Scalar
as_scalar none = none
as_scalar (some (scalar v)) = some v
as_scalar (some (object _)) = some other

-- `x, err := call(); if err != nil { return err }`
infixl 5 ◌>>=◌ ◌>>◌
abbrev pub ◌>>=◌ : {A B : Type 0} → Result A → (A → Result B) → Result B
(ok a) >>= f = f a
(err e) >>= f = err e

abbrev ◌>>◌ : {A B : Type 0} → Result A → Result B → Result B
r >> q = r >>= λ _. q

module _ {A : Type 0} where
  unfoldable pub unknown : List String → Dict A → List String
  unknown allowed [] = []
  unknown allowed ((name, _) ∷ members) =
      let rest = unknown allowed members in if contains allowed name then rest else name ∷ rest

abbrev before : String → String → Bool
before s t = elim (String.compare s t) [ Ordering.lt ↦ true | _ ↦ false ]

abbrev lesser : String → Option String → String
lesser s none = s
lesser s (some t) = if before t s then t else s

-- The first of the sorted names.
abbrev least : List String → Option String
least [] = none
least (s ∷ names) = some (lesser s (least names))

abbrev unknown_member : String → Option String → Result (Unit {0})
unknown_member prefix none = ok tt
unknown_member prefix (some name) = err (opaque ("unknown member " ⧺ quote (prefix ⧺ name)))

unfoldable pub reject_unknown : {A : Type 0} → Dict A → List String → String → Result (Unit {0})
unfolding unknown quote
reject_unknown members allowed prefix = unknown_member prefix (least (unknown allowed members))

abbrev blank : String → Result String
blank name = err (opaque (name ⧺ " must not be blank; use null to clear it"))

-- `parseString`; encoding/json decodes null into an empty string.
unfoldable pub parse_string : String → Scalar → Result String
parse_string name null = blank name
parse_string name (text s) = if is_blank s then blank name else ok s
parse_string name other = err (opaque (name ⧺ " must be a string or null"))

-- `stringField`, on the member of that name.
unfoldable pub string_field : String → Option Scalar → Result (Field String)
unfolding parse_string
string_field name none = ok unchanged
string_field name (some null) = ok cleared
string_field name (some v) = do s ← parse_string name v; ok (set_to s)

abbrev enum_value : String → List String → Field String → Option String → Result (Field String)
enum_value name allowed f none = ok (record { set = f.set; value = none })
enum_value name allowed f (some v) =
    if contains allowed v
    then ok (set_to v)
    else err (opaque ("invalid " ⧺ name ⧺ " value: " ⧺ quote v))

unfoldable pub enum_field : String → Option Scalar → List String → Result (Field String)
unfolding string_field quote
enum_field name v allowed = do f ← string_field name v; enum_value name allowed f f.value

-- `display_name`, which may not be cleared.
unfoldable pub name_field : Option Scalar → Result (Option String)
unfolding parse_string
name_field none = ok none
name_field (some null) = err (opaque "display_name cannot be cleared")
name_field (some v) = do s ← parse_string "display_name" v; ok (some s)

-- The members of an object under "preferences".
unfoldable pub preferences_object : Dict Scalar → Result PreferencesPatch
unfolding reject_unknown enum_field lookup
preferences_object prefs = do
  reject_unknown prefs preferences_patch_members "preferences."
  court_side ← enum_field "preferences.court_side" (lookup "court_side" prefs) court_sides
  handedness ← enum_field "preferences.handedness" (lookup "handedness" prefs) hands
  ok (record { clear = false; court_side = court_side; handedness = handedness })

abbrev pub no_preferences : Bool → PreferencesPatch
no_preferences clear = record { clear = clear; court_side = unchanged; handedness = unchanged }

unfoldable pub preferences_field : Option Member → Result PreferencesPatch
unfolding preferences_object
preferences_field none = ok (no_preferences false)
preferences_field (some (scalar null)) = ok (no_preferences true)
preferences_field (some (scalar _)) = err (opaque "preferences must be an object or null")
preferences_field (some (object prefs)) = preferences_object prefs

module _ (parse_date : String → Option Time) where
  abbrev date_parsed : String → Option Time → Result (Field Time)
  date_parsed name none = err (opaque ("invalid " ⧺ name ⧺ ": must be YYYY-MM-DD"))
  date_parsed name (some t) = ok (set_to t)

  abbrev date_value : String → Field String → Option String → Result (Field Time)
  date_value name f none = ok (record { set = f.set; value = none })
  date_value name f (some s) = date_parsed name (parse_date s)

  unfoldable pub date_field : String → Option Scalar → Result (Field Time)
  unfolding string_field
  date_field name v = do f ← string_field name v; date_value name f f.value

  unfoldable pub parse_profile_patch : Dict Member → Result ProfilePatch
  unfolding reject_unknown name_field string_field enum_field date_field preferences_field lookup
  parse_profile_patch members = do
    reject_unknown members profile_patch_members ""
    display_name ← name_field (as_scalar (lookup "display_name" members))
    city ← string_field "city" (as_scalar (lookup "city" members))
    region ← string_field "region" (as_scalar (lookup "region" members))
    country ← string_field "country" (as_scalar (lookup "country" members))
    gender ← enum_field "gender" (as_scalar (lookup "gender" members)) genders
    date_of_birth ← date_field "date_of_birth" (as_scalar (lookup "date_of_birth" members))
    category ← enum_field "category" (as_scalar (lookup "category" members)) categories
    preferences ← preferences_field (lookup "preferences" members)
    ok (record {
      display_name = display_name;
      city = city;
      region = region;
      country = country;
      gender = gender;
      date_of_birth = date_of_birth;
      category = category;
      preferences = preferences;
    })
