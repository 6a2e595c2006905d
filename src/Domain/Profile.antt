-- ===== src/Domain/Profile.antt =====
-- api/internal/domain/profile: the Profile entity, the merge patch of RFC 7396 and the contract of
-- the repository. Gender, Category, CourtSide and Handedness are texts, as in the source.
pub mod Merge
pub mod Location
pub mod Contract
use courtknights.Common.{
  ℕ, String, Bool, true, false, not, ◌&&◌, Option, none, some, List, [], ◌∷◌, is_none,
}
use courtknights.Action.{Action}
use courtknights.Domain.User.{Uuid, Time}

abbrev pub Gender : Type 0
Gender = String

abbrev pub genders : List Gender
genders = "male" ∷ "female" ∷ []

abbrev pub Category : Type 0
Category = String

abbrev pub categories : List Category
categories = "first" ∷ "second" ∷ "third" ∷ "fourth" ∷ "fifth" ∷ []

abbrev pub CourtSide : Type 0
CourtSide = String

abbrev pub court_sides : List CourtSide
court_sides = "drive" ∷ "backhand" ∷ "both" ∷ []

abbrev pub Handedness : Type 0
Handedness = String

abbrev pub hands : List Handedness
hands = "right" ∷ "left" ∷ []

pub record Preferences : Type 0 where
  pub court_side : Option CourtSide
  pub handedness : Option Handedness

pub record Profile : Type 0 where
  pub user_id : Uuid
  pub display_name : String
  pub city : Option String
  pub region : Option String
  pub country : Option String
  pub gender : Option Gender
  pub date_of_birth : Option Time
  pub category : Option Category
  pub preferences : Preferences
  pub created_at : Time
  pub updated_at : Time

-- One member of a merge patch: Set, and the Value or nil.
pub record Field {ℓ} (A : Type ℓ) : Type ℓ where
  pub set : Bool
  pub value : Option A

module _ {ℓ} {A : Type ℓ} where
  abbrev pub unchanged : Field A
  unchanged = record { set = false; value = none }

  abbrev pub cleared : Field A
  cleared = record { set = true; value = none }

  abbrev pub set_to : A → Field A
  set_to a = record { set = true; value = some a }

  unfoldable pub is_clear : Field A → Bool
  is_clear f = f.set && is_none f.value

pub record PreferencesPatch : Type 0 where
  pub clear : Bool
  pub court_side : Field CourtSide
  pub handedness : Field Handedness

pub record ProfilePatch : Type 0 where
  pub display_name : Option String
  pub city : Field String
  pub region : Field String
  pub country : Field String
  pub gender : Field Gender
  pub date_of_birth : Field Time
  pub category : Field Category
  pub preferences : PreferencesPatch

-- `PreferencesPatch.IsEmpty`
unfoldable pub preferences_is_empty : PreferencesPatch → Bool
preferences_is_empty p = not p.clear && not p.court_side.set && not p.handedness.set

-- `ProfilePatch.IsEmpty`
unfoldable pub is_empty : ProfilePatch → Bool
unfolding preferences_is_empty
is_empty p =
    is_none p.display_name
    && not p.city.set
    && not p.region.set
    && not p.country.set
    && not p.gender.set
    && not p.date_of_birth.set
    && not p.category.set
    && preferences_is_empty p.preferences

pub record ListParams : Type 0 where
  pub page : ℕ
  pub page_size : ℕ
  pub fields : List String

pub record ProfileListItem : Type 0 where
  pub id : Option Uuid
  pub display_name : Option String
  pub city : Option String
  pub region : Option String
  pub country : Option String
  pub gender : Option Gender
  pub category : Option Category

-- The store behind the repository has states `S`.
pub record ProfileRepository (S : Type 0) : Type 0 where
  pub ensure_exists : Uuid → String → Action S (Unit {0})
  pub find_by_user_id : Uuid → Action S Profile
  pub update : Uuid → ProfilePatch → Action S Profile
  pub list : ListParams → Action S (List ProfileListItem × ℕ)
