-- ===== src/Application/Profile.antt =====
-- api/internal/application/profile: the ProfileManager over any ProfileRepository.
pub mod Location
pub mod Update
use courtknights.Common.{
  ℕ, String, Bool, true, false, not, ◌&&◌, Option, none, some, List, ◌==◌, if◌then◌else◌,
}
use courtknights.Action.{Action, Result, ok, err, pure, lift, within, ◌>>=◌}
use courtknights.Domain.User.{Uuid}
use courtknights.Domain.Profile.{
  Field, cleared, Profile, ProfilePatch, is_empty, ListParams, ProfileListItem, ProfileRepository,
}
use courtknights.Domain.Profile.Location.{Dataset, validate_location}

-- `sameValue`
unfoldable pub same_value : Option String → Option String → Bool
same_value none none = true
same_value none (some b) = false
same_value (some a) none = false
same_value (some a) (some b) = a == b

-- The effective country of a patch.
abbrev pub effective_country : Profile → ProfilePatch → Option String
effective_country stored patch = if patch.country.set then patch.country.value else stored.country

-- A country that changes takes with it a region that the patch leaves out.
abbrev pub drop_region : Profile → ProfilePatch → ProfilePatch
drop_region stored patch =
    if patch.country.set
      && (not patch.region.set && not (same_value stored.country patch.country.value))
    then record patch { region = cleared }
    else patch

abbrev returning {ℓ} : {A : Type ℓ} → A → Result (Unit {0}) → Result A
returning a (ok _) = ok a
returning a (err e) = err e

module _ (d : Dataset) where
  -- The `switch` of `applyLocationRules`, by the values of the patch's region and country.
  check_patch : Option String → Option String → Option String → Result (Unit {0})
  check_patch country (some region) patched = validate_location d country (some region)
  check_patch country none (some patched) = validate_location d (some patched) none
  check_patch country none none = ok tt

  unfoldable pub apply_location_rules : Profile → ProfilePatch → Result ProfilePatch
  unfolding check_patch
  apply_location_rules stored patch =
      let ruled = drop_region stored patch in
      returning ruled
        (check_patch (effective_country stored patch) ruled.region.value ruled.country.value)

  module _ {S : Type 0} (profiles : ProfileRepository S) where
    unfoldable pub ensure_exists : Uuid → String → Action S (Unit {0})
    ensure_exists user_id name =
        within "profile manager: EnsureExists" (profiles.ensure_exists user_id name)

    unfoldable pub get_by_user_id : Uuid → Action S Profile
    get_by_user_id user_id =
        within "profile manager: GetByUserID" (profiles.find_by_user_id user_id)

    -- The part of `Update` behind the test for an empty patch.
    write_patch : Uuid → Profile → ProfilePatch → Action S Profile
    write_patch user_id stored patch = do
      ruled ← lift (apply_location_rules stored patch)
      within "profile manager: Update" (profiles.update user_id ruled)

    unfoldable pub update : Uuid → ProfilePatch → Action S Profile
    unfolding write_patch
    update user_id patch = do
      stored ← within "profile manager: Update" (profiles.find_by_user_id user_id)
      if is_empty patch then pure stored else write_patch user_id stored patch

    unfoldable pub list : ListParams → Action S (List ProfileListItem × ℕ)
    list params = within "profile manager: List" (profiles.list params)
