-- ===== src/Domain/Profile/Location.antt =====
-- api/internal/domain/profile/validate.go. The dataset of github.com/biter777/countries and the
-- Unicode tables of `strings.ToUpper` are parameters.
pub mod Validity
use Prim.Native.String.{len}
use courtknights.Common.{
  ℕ, String, ◌≡◌, Bool, true, not, ◌||◌, Option, none, some, ◌==◌, ◌⧺◌, quote, ◌≢◌, eqb,
  if◌then◌else◌,
}
use courtknights.Action.{Result, ok, err}
use courtknights.Errors.{Error, opaque, sentinel, join, invalid_location}

-- A CountryCode is a number and a SubdivisionCode a text.
pub record Dataset : Type 0 where
  pub to_upper : String → String
  pub by_name : String → ℕ
  pub is_valid : ℕ → Bool
  pub alpha2 : ℕ → String
  pub subdivision_is_valid : String → Bool
  pub subdivision_country : String → ℕ

module _ (d : Dataset) where
  abbrev unrecognised : String → Error
  unrecognised c =
      opaque ("invalid country code " ⧺ quote c ⧺ ": not a recognised ISO 3166-1 alpha-2 code")

  -- The checks on the country of `validateLocation`.
  check_country : String → Option Error
  check_country c =
      if c == ""
      then some (opaque "country code must not be empty")
      else if not (eqb (len c) 2) || not (c == d.to_upper c)
      then some (
          opaque
            ("invalid country code " ⧺ quote c ⧺ ": must be an uppercase ISO 3166-1 alpha-2 code"))
      else if not (d.is_valid (d.by_name c))
      then some (unrecognised c)
      else if not (d.alpha2 (d.by_name c) == c)
      then some (unrecognised c)
      else none

  -- Those on the region, for a country that has passed.
  check_region : String → String → Option Error
  check_region c r =
      if r == ""
      then some (opaque "region code must not be empty")
      else if not (d.subdivision_is_valid r)
      then some (opaque ("invalid region code " ⧺ quote r ⧺ ": not a recognised ISO 3166-2 code"))
      else if not (eqb (d.subdivision_country r) (d.by_name c))
      then some (opaque ("region code " ⧺ quote r ⧺ " does not belong to country " ⧺ quote c))
      else none

  check_region? : String → Option String → Option Error
  unfolding check_region
  check_region? c none = none
  check_region? c (some r) = check_region c r

  abbrev or_else : Option Error → Option Error → Option Error
  or_else none next = next
  or_else (some e) next = some e

  -- `validateLocation`; `none` is nil.
  check_location : Option String → Option String → Option Error
  unfolding check_country check_region?
  check_location none none = none
  check_location none (some r) = some (opaque "region requires country to be provided")
  check_location (some c) region = or_else (check_country c) (check_region? c region)

  unfoldable pub validate_location : Option String → Option String → Result (Unit {0})
  unfolding check_location
  validate_location country region = elim (check_location country region) [
    | none ↦ ok tt
    | some e ↦ err (join "" (sentinel invalid_location) e)
  ]

  -- A country that the dataset knows by this very code, and a region that the dataset lists for it.
  pub record IsCountry (c : String) : Type 0 where
    pub two_bytes : len c ≡ 2
    pub upper : d.to_upper c ≡ c
    pub known : d.is_valid (d.by_name c) ≡ true
    pub exact : d.alpha2 (d.by_name c) ≡ c

  pub record IsRegionOf (c r : String) : Type 0 where
    pub nonempty : r ≢ ""
    pub known : d.subdivision_is_valid r ≡ true
    pub belongs : d.subdivision_country r ≡ d.by_name c

  abbrev pub IsLocation : Option String → Option String → Type 0
  IsLocation none none = Unit
  IsLocation none (some r) = ⊥
  IsLocation (some c) none = IsCountry c
  IsLocation (some c) (some r) = IsCountry c × IsRegionOf c r
