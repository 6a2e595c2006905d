-- ===== src/Application/Profile/Location.antt =====
-- The location rules keep the country and the region of a profile consistent.
use courtknights.Common.{
  String, ◌≡◌, refl, true, false, Option, none, some, arith, not, ◌&&◌, eq_iff, eq_refl,
  if◌then◌else◌, Bool-cases, inl, inr,
}
use courtknights.Action.{Result, ok, err}
use courtknights.Errors.{Error, is, invalid_location, profile_not_found}
use courtknights.Domain.Profile.{Field, Profile, ProfilePatch}
use courtknights.Domain.Profile.Merge.{merge, merge_field}
use courtknights.Domain.Profile.Location.{Dataset, validate_location, IsLocation}
use courtknights.Domain.Profile.Location.Validity.{
  validate_location_iff, validate_location-is, validate_location-is_not,
}
use courtknights.Application.Profile.{
  same_value, effective_country, drop_region, returning, apply_location_rules,
}

same_value-eq : (a b : Option String) → same_value a b ≡ true → a ≡ b
unfolding same_value
same_value-eq none none h = refl
same_value-eq (some a) (some b) h = ground (arith, eq_iff a b)
same_value-eq _ _ h = cc

same_value_self : (a : Option String) → same_value a a ≡ true
unfolding same_value
same_value_self none = refl
same_value_self (some a) = eq_refl a

returning-eq {ℓ} :
    {A : Type ℓ} (a : A) (r : Result (Unit {0})) (b : A) → returning a r ≡ ok b → b ≡ a
returning-eq a (ok _) b h = cc
returning-eq a (err e) b h = cc

-- The patch that the rules pass on differs from the given one in its region only.
drop_region_others :
    (stored : Profile) (patch : ProfilePatch)
    → record (merge (drop_region stored patch) stored) { region = none }
      ≡ record (merge patch stored) { region = none }
unfolding merge
drop_region_others stored patch =
    elim (Bool-cases (
      patch.country.set
      && (not patch.region.set && not (same_value stored.country patch.country.value)))) [
        | inl e ↦ rw e
        | inr e ↦ rw e
      ]

module _ (d : Dataset) where
  abbrev pub HasValidLocation : Profile → Type 0
  HasValidLocation p = IsLocation d p.country p.region

  validate_location-none : validate_location d none none ≡ ok tt
  validate_location-none = (validate_location_iff d none none).1 tt

  no_region_alone :
      (country region : Option String)
      → validate_location d country region ≡ ok tt
      → country ≡ none
      → region ≡ none
  no_region_alone none none h e = refl
  no_region_alone none (some r) h e = absurd ((validate_location_iff d none (some r)).0 h)
  no_region_alone (some c) region h e = cc

  without_region :
      (country region : Option String)
      → validate_location d country region ≡ ok tt
      → validate_location d country none ≡ ok tt
  without_region none region h = validate_location-none
  without_region (some c) none h = h
  without_region (some c) (some r) h =
      (validate_location_iff d (some c) none).1 ((validate_location_iff d (some c) (some r)).0 h).0

  kept :
      (stored : Profile) (patch ruled : ProfilePatch)
      → validate_location d stored.country stored.region ≡ ok tt
      → apply_location_rules d stored patch ≡ ok ruled
      → validate_location d
          (merge_field ruled.country stored.country)
          (merge_field ruled.region stored.region)
        ≡ ok tt
  unfolding apply_location_rules
  kept stored patch ruled v h = ground (
    arith,
    validate_location-none,
    without_region stored.country stored.region,
    without_region stored.country patch.region.value,
    without_region patch.country.value patch.region.value,
    no_region_alone stored.country stored.region,
    same_value-eq stored.country patch.country.value,
  )

  -- If the stored location is valid and the rules accept a patch, then the profile that the patch
  -- makes of the stored one has a valid location too.
  pub apply_location_rules-HasValidLocation :
      (stored : Profile) (patch ruled : ProfilePatch)
      → HasValidLocation stored
      → apply_location_rules d stored patch ≡ ok ruled
      → HasValidLocation (merge ruled stored)
  unfolding merge
  apply_location_rules-HasValidLocation stored patch ruled v h =
      (validate_location_iff d _ _).0
        (kept stored patch ruled ((validate_location_iff d _ _).1 v) h)

  -- A Field as the constructors of patch.go make it: a value only where it is set.
  abbrev pub IsFormed {ℓ} : {A : Type ℓ} → Field A → Type ℓ
  IsFormed f = f.set ≡ false → f.value ≡ none

  -- The rules reject no more than they must: over a valid stored location, a well-formed patch
  -- that makes a valid location of it is accepted.
  pub apply_location_rules_complete :
      (stored : Profile) (patch : ProfilePatch)
      → IsFormed patch.region
      → IsFormed patch.country
      → HasValidLocation (merge (drop_region stored patch) stored)
      → apply_location_rules d stored patch ≡ ok (drop_region stored patch)
  unfolding apply_location_rules merge
  apply_location_rules_complete stored patch wr wc v = ground (
    arith,
    (validate_location_iff d (merge (drop_region stored patch) stored).country
          (merge (drop_region stored patch) stored).region).1
        v,
    without_region stored.country stored.region,
    without_region patch.country.value patch.region.value,
    without_region patch.country.value stored.region,
  )

  -- Every error of the rules wraps ErrInvalidLocation.
  pub apply_location_rules-is :
      (stored : Profile) (patch : ProfilePatch) (e : Error)
      → apply_location_rules d stored patch ≡ err e
      → is invalid_location e ≡ true
  unfolding apply_location_rules
  apply_location_rules-is stored patch e h = ground (
    arith,
    validate_location-is d (effective_country stored patch) patch.region.value e,
    validate_location-is d patch.country.value none e,
  )

  pub apply_location_rules-is_not :
      (stored : Profile) (patch : ProfilePatch) (e : Error)
      → apply_location_rules d stored patch ≡ err e
      → is profile_not_found e ≡ false
  unfolding apply_location_rules
  apply_location_rules-is_not stored patch e h = ground (
    arith,
    validate_location-is_not d (effective_country stored patch) patch.region.value e,
    validate_location-is_not d patch.country.value none e,
  )

  accepted-eq :
      (stored : Profile) (patch ruled : ProfilePatch)
      → apply_location_rules d stored patch ≡ ok ruled
      → ruled ≡ drop_region stored patch
  unfolding apply_location_rules
  accepted-eq stored patch ruled h = returning-eq (drop_region stored patch) _ ruled h

  -- What an accepted patch makes of the location: the country is the patch's where it sets one and
  -- else the stored one; the region is the patch's where it sets one, else the stored one if the
  -- country stays the same, and else none. All other fields are as the patch alone makes them.
  pub apply_location_rules_effect :
      (stored : Profile) (patch ruled : ProfilePatch)
      → apply_location_rules d stored patch ≡ ok ruled
      → let p = merge ruled stored in
        (p.country ≡ effective_country stored patch)
        × (p.region ≡ (
            if patch.region.set
            then patch.region.value
            else if same_value stored.country (effective_country stored patch)
            then stored.region
            else none))
        × (record p { region = none } ≡ record (merge patch stored) { region = none })
  unfolding merge
  apply_location_rules_effect stored patch ruled h = rw (accepted-eq stored patch ruled h) (
    ground arith,
    ground (arith, same_value_self stored.country),
    drop_region_others stored patch,
  )
