-- ===== src/Domain/Profile/Location/Validity.antt =====
-- ValidateLocation against an independent description of a valid location.
use Prim.Native.String.{len}
use courtknights.Common.{String, ◌≡◌, ◌≢◌, ◌↔◌, ap, true, false, Option, none, some, arith, eq_iff}
use courtknights.Action.{ok, err}
use courtknights.Errors.{Error, is, invalid_location, profile_not_found}
use courtknights.Domain.Profile.Location.{
  Dataset, check_country, check_region, check_region?, validate_location, IsCountry, IsRegionOf,
  IsLocation,
}

ne_empty : (c : String) → len c ≡ 2 → c ≢ ""
ne_empty c h e = omega (arith, ap len e)

module _ (d : Dataset) where
  check_country_sound : (c : String) → check_country d c ≡ none → IsCountry d c
  unfolding check_country
  check_country_sound c h =
      ground (arith, eq_iff c (d.to_upper c), eq_iff (d.alpha2 (d.by_name c)) c)

  check_country_complete : (c : String) → IsCountry d c → check_country d c ≡ none
  unfolding check_country
  check_country_complete c v = ground (
    arith,
    ne_empty c v.two_bytes,
    eq_iff c "",
    eq_iff c (d.to_upper c),
    eq_iff (d.alpha2 (d.by_name c)) c,
  )

  check_region_sound : (c r : String) → check_region d c r ≡ none → IsRegionOf d c r
  unfolding check_region
  check_region_sound c r h = ground (arith, eq_iff r "")

  check_region_complete : (c r : String) → IsRegionOf d c r → check_region d c r ≡ none
  unfolding check_region
  check_region_complete c r v = ground (arith, eq_iff r "")

  -- ValidateLocation accepts exactly the pairs that are valid: neither code, or a country that the
  -- dataset knows by this uppercase two-byte code, alone or with a nonempty region that the
  -- dataset lists for it.
  pub validate_location_iff :
      (country region : Option String)
      → (validate_location d country region ≡ ok tt) ↔ IsLocation d country region
  unfolding validate_location check_region?
  validate_location_iff none none = ground arith
  validate_location_iff none (some r) = ground arith
  validate_location_iff (some c) none =
      ground (arith, check_country_sound c, check_country_complete c)
  validate_location_iff (some c) (some r) = ground (
    arith,
    check_country_sound c,
    check_country_complete c,
    check_region_sound c r,
    check_region_complete c r,
  )

  -- Every error of ValidateLocation wraps ErrInvalidLocation.
  pub validate_location-is :
      (country region : Option String) (e : Error)
      → validate_location d country region ≡ err e
      → is invalid_location e ≡ true
  unfolding validate_location is
  validate_location-is country region e h = ground arith

  pub validate_location-is_not :
      (country region : Option String) (e : Error)
      → validate_location d country region ≡ err e
      → is profile_not_found e ≡ false
  unfolding validate_location is
  validate_location-is_not country region e h = ground arith
