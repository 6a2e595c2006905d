-- ===== src/Domain/Profile/Merge.antt =====
-- What a merge patch means (RFC 7396, ADR-015), field by field.
use courtknights.Common.{String, ◌≡◌, true, Option, none, some, arith, if◌then◌else◌}
use courtknights.Domain.Profile.{
  Field, Preferences, PreferencesPatch, Profile, ProfilePatch, is_empty,
}

-- An omitted member keeps the stored value, null clears it, and a value replaces it.
abbrev pub merge_field {ℓ} : {A : Type ℓ} → Field A → Option A → Option A
merge_field f stored = if f.set then f.value else stored

abbrev pub merge_name : Option String → String → String
merge_name none stored = stored
merge_name (some name) stored = name

-- `"preferences": null` clears both before the members are applied.
abbrev pub merge_preferences : PreferencesPatch → Preferences → Preferences
merge_preferences p stored = record {
  court_side = merge_field p.court_side (if p.clear then none else stored.court_side);
  handedness = merge_field p.handedness (if p.clear then none else stored.handedness);
}

unfoldable pub merge : ProfilePatch → Profile → Profile
merge p stored = record stored {
  display_name = merge_name p.display_name stored.display_name;
  city = merge_field p.city stored.city;
  region = merge_field p.region stored.region;
  country = merge_field p.country stored.country;
  gender = merge_field p.gender stored.gender;
  date_of_birth = merge_field p.date_of_birth stored.date_of_birth;
  category = merge_field p.category stored.category;
  preferences = merge_preferences p.preferences stored.preferences;
}

-- A patch that `is_empty` reports as empty changes no stored profile.
pub merge_of_is_empty :
    (p : ProfilePatch) (stored : Profile) → is_empty p ≡ true → merge p stored ≡ stored
unfolding merge is_empty
merge_of_is_empty p stored h = ground arith
