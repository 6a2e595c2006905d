-- ===== src/Infrastructure/Postgres/Profiles/Consistent.antt =====
-- The CHECK of db/migrations/005 against the validation of domain/profile/validate.go.
use courtknights.Common.{
  ℕ, String, ◌≡◌, refl, ap, ◌∙◌, true, false, Option, none, some, List, ◌∷◌, ◌++◌, codes, All,
  arith,
}
use courtknights.Action.{Result, ok, err}
use courtknights.Errors.{Error, is, profile_conflict}
use courtknights.Domain.User.{Uuid, Time}
use courtknights.Domain.Profile.{Profile, ProfilePatch}
use courtknights.Domain.Profile.Merge.{merge}
use courtknights.Domain.Profile.Location.{Dataset, IsLocation, IsCountry, IsRegionOf}
use courtknights.Application.Profile.{apply_location_rules}
use courtknights.Application.Profile.Location.{
  HasValidLocation, apply_location_rules-HasValidLocation,
}
use courtknights.Infrastructure.Postgres.{Database}
use courtknights.Infrastructure.Postgres.Profiles.{update}
use courtknights.Infrastructure.Postgres.Profiles.Like.{IsPlainChar, like_prefix}
use courtknights.Infrastructure.Postgres.Profiles.Table.{passes_region_check}
use courtknights.Infrastructure.Postgres.Profiles.Store.{stored_profile}
use courtknights.Infrastructure.Postgres.Profiles.Branches.{
  Ran, absent, unwritten, violating, refused_value, written, update-Ran,
}

-- What ISO 3166 says of the codes: an alpha-2 code has no wildcard of LIKE, and the code of a
-- subdivision is the alpha-2 code of its country, a hyphen and more.
pub record IsIso (d : Dataset) : Type 0 where
  pub alpha2_plain : (n : ℕ) → All IsPlainChar (codes (d.alpha2 n))
  pub prefixed :
      (r : String)
      → d.subdivision_is_valid r ≡ true
      → (rest : List ℕ) × (codes r ≡ codes (d.alpha2 (d.subdivision_country r)) ++ (45 ∷ rest))

module _ (d : Dataset) (iso : IsIso d) where
  region_passes :
      (c r : String)
      → IsCountry d c
      → IsRegionOf d c r
      → passes_region_check (some r) (some c) ≡ true
  region_passes c r country region =
      let (rest, eq) = iso.prefixed r region.known in
      let code : d.alpha2 (d.subdivision_country r) ≡ c =
        ap d.alpha2 region.belongs ∙ country.exact in
      rw (eq, code)
        (like_prefix (codes c) rest (rw (country.exact) at (iso.alpha2_plain (d.by_name c))))

  -- The CHECK constraint refuses no location that the domain's validation accepts.
  pub passes_region_check-IsLocation :
      (country region : Option String)
      → IsLocation d country region
      → passes_region_check region country ≡ true
  passes_region_check-IsLocation none none v = refl
  passes_region_check-IsLocation none (some r) v = absurd v
  passes_region_check-IsLocation (some c) none v = refl
  passes_region_check-IsLocation (some c) (some r) (country, region) =
      region_passes c r country region

  Ran-no_conflict :
      (u : Uuid) (patch : ProfilePatch) (t : Time) (db db' : Database) (p : Profile) (e : Error)
      (r : Result Profile × Database)
      → stored_profile u db ≡ some p
      → HasValidLocation d (merge patch p)
      → Ran u patch t db r
      → r ≡ (err e, db')
      → is profile_conflict e ≡ false
  Ran-no_conflict u patch t db db' p e r there v (absent f nothing _ _) h = absurd (cc nothing)
  Ran-no_conflict u patch t db db' p e r there v (unwritten q _ _ eq) h = absurd cc
  Ran-no_conflict u patch t db db' p e r there v (violating q f held _ eq _ _ outside) h =
      let same : q ≡ p = cc in
      let inside =
        passes_region_check-IsLocation (merge patch p).country (merge patch p).region v in
      absurd (ground (arith, inside, rw same at outside))
  Ran-no_conflict u patch t db db' p e r there v (refused_value q f _ _ eq other _ _) h =
      let same : f ≡ e = cc in rw (← same) other
  Ran-no_conflict u patch t db db' p e r there v (written q db1 _ _ _ _ eq _ _) h = absurd cc

  -- Where the codes are those of ISO 3166 and the stored location is valid, the repository's Update
  -- of a patch that the location rules made for the stored profile never fails with
  -- ErrProfileConflict: that error shows that another write came between.
  pub update_ruled-no_conflict :
      (now : Database → Time) (u : Uuid) (patch ruled : ProfilePatch) (db db' : Database)
      (p : Profile) (e : Error)
      → stored_profile u db ≡ some p
      → HasValidLocation d p
      → apply_location_rules d p patch ≡ ok ruled
      → update now u ruled db ≡ (err e, db')
      → is profile_conflict e ≡ false
  update_ruled-no_conflict now u patch ruled db db' p e there v rules =
      Ran-no_conflict u ruled (now db) db db' p e (update now u ruled db) there
        (apply_location_rules-HasValidLocation d p patch ruled v rules) (update-Ran now u ruled db)
