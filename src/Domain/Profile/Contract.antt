-- ===== src/Domain/Profile/Contract.antt =====
-- The contract of domain/profile/repository.go, over a view `get` of the stored profiles.
use courtknights.Common.{◌≡◌, ◌≢◌, ◌⊎◌, true, Option, none, some}
use courtknights.Action.{ok, err}
use courtknights.Errors.{Error, is, profile_not_found}
use courtknights.Domain.User.{Uuid, Time}
use courtknights.Domain.Profile.{Profile, ProfilePatch, ProfileRepository}
use courtknights.Domain.Profile.Merge.{merge}

module _ {S : Type 0} (repo : ProfileRepository S) (get : Uuid → S → Option Profile) where
  -- Update fails and changes nothing, or merges the patch into the stored profile, with a new time
  -- of the update, and leaves the profiles of the other users alone.
  abbrev pub Updates : Uuid → ProfilePatch → S → Type 0
  Updates u patch s =
      ((e : Error) × (repo.update u patch s ≡ (err e, s)))
      ⊎ ((p : Profile) × (t : Time) × (s' : S) × (get u s ≡ some p)
          × (repo.update u patch s ≡ (ok (record (merge patch p) { updated_at = t }), s'))
          × (get u s' ≡ some (record (merge patch p) { updated_at = t }))
          × ((v : Uuid) → v ≢ u → get v s' ≡ get v s))

  pub record IsProfileStore : Type 0 where
    pub found :
        (u : Uuid) (s : S) (p : Profile) → get u s ≡ some p → repo.find_by_user_id u s ≡ (ok p, s)
    pub missing :
        (u : Uuid) (s : S)
        → get u s ≡ none
        → (e : Error) × (repo.find_by_user_id u s ≡ (err e, s)) × (is profile_not_found e ≡ true)
    pub updates : (u : Uuid) (patch : ProfilePatch) (s : S) → Updates u patch s
