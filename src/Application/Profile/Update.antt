-- ===== src/Application/Profile/Update.antt =====
-- What Update of the ProfileManager does over a repository that keeps its contract.
use courtknights.Common.{
  ◌≡◌, ◌≢◌, refl, sym, ◌∙◌, subst, true, false, Option, none, some, Bool-cases, Option-cases, inl,
  inr,
}
use courtknights.Action.{Result, ok, err, rewrap}
use courtknights.Errors.{Error, is, wrap, invalid_location, profile_not_found}
use courtknights.Domain.User.{Uuid, Time}
use courtknights.Domain.Profile.{Profile, ProfilePatch, is_empty, ProfileRepository}
use courtknights.Domain.Profile.Merge.{merge}
use courtknights.Domain.Profile.Location.{Dataset}
use courtknights.Domain.Profile.Contract.{IsProfileStore}
use courtknights.Application.Profile.{apply_location_rules, update}
use courtknights.Application.Profile.Location.{
  HasValidLocation, apply_location_rules-HasValidLocation, apply_location_rules-is,
}
use native.Mathlib.Decide.{ℕ_discrete}

module _ (d : Dataset) {S : Type 0} (repo : ProfileRepository S) (get : Uuid → S → Option Profile)
    (contract : IsProfileStore repo get) where
  -- Every stored profile has a valid location.
  abbrev pub AllValid : S → Type 0
  AllValid s = (u : Uuid) (p : Profile) → get u s ≡ some p → HasValidLocation d p

  -- The user of the request has no profile: Update fails with ErrProfileNotFound.
  pub update_missing :
      (u : Uuid) (patch : ProfilePatch) (s : S)
      → get u s ≡ none
      → (e : Error) × (update d repo u patch s ≡ (err e, s)) × (is profile_not_found e ≡ true)
  unfolding update is
  update_missing u patch s absent =
      let (e, failed, missing) = contract.missing u s absent in
      (wrap "profile manager: Update" e, rw failed, missing)

  pub update_empty :
      (u : Uuid) (patch : ProfilePatch) (s : S) (p : Profile)
      → get u s ≡ some p
      → is_empty patch ≡ true
      → update d repo u patch s ≡ (ok p, s)
  unfolding update
  update_empty u patch s p present empty = rw (contract.found u s p present, empty)

  pub update_rejected :
      (u : Uuid) (patch : ProfilePatch) (s : S) (p : Profile) (e : Error)
      → get u s ≡ some p
      → is_empty patch ≡ false
      → apply_location_rules d p patch ≡ err e
      → update d repo u patch s ≡ (err e, s)
  unfolding update
  update_rejected u patch s p e present full bad = rw (contract.found u s p present, full, bad)

  pub update_accepted :
      (u : Uuid) (patch ruled : ProfilePatch) (s : S) (p : Profile)
      → get u s ≡ some p
      → is_empty patch ≡ false
      → apply_location_rules d p patch ≡ ok ruled
      → update d repo u patch s ≡ rewrap (wrap "profile manager: Update") (repo.update u ruled s)
  unfolding update
  update_accepted u patch ruled s p present full good =
      rw (contract.found u s p present, full, good)

  -- What Update may do with a request, in the store `s`.
  pub data Outcome (u : Uuid) (patch : ProfilePatch) (s : S) (r : Result Profile × S) : Type 0 where
    missing :
        (e : Error)
        → get u s ≡ none
        → r ≡ (err e, s)
        → is profile_not_found e ≡ true
        → Outcome u patch s r
    unwritten :
        (p : Profile)
        → get u s ≡ some p
        → is_empty patch ≡ true
        → r ≡ (ok p, s)
        → Outcome u patch s r
    rejected :
        (p : Profile) (e : Error)
        → get u s ≡ some p
        → is_empty patch ≡ false
        → apply_location_rules d p patch ≡ err e
        → r ≡ (err e, s)
        → is invalid_location e ≡ true
        → Outcome u patch s r
    failed :
        (p : Profile) (ruled : ProfilePatch) (e : Error)
        → get u s ≡ some p
        → is_empty patch ≡ false
        → apply_location_rules d p patch ≡ ok ruled
        → repo.update u ruled s ≡ (err e, s)
        → r ≡ (err (wrap "profile manager: Update" e), s)
        → Outcome u patch s r
    written :
        (p : Profile) (ruled : ProfilePatch) (t : Time) (s' : S)
        → get u s ≡ some p
        → is_empty patch ≡ false
        → apply_location_rules d p patch ≡ ok ruled
        → r ≡ (ok (record (merge ruled p) { updated_at = t }), s')
        → get u s' ≡ some (record (merge ruled p) { updated_at = t })
        → ((v : Uuid) → v ≢ u → get v s' ≡ get v s)
        → Outcome u patch s r

  update_accepted-Outcome :
      (u : Uuid) (patch ruled : ProfilePatch) (s : S) (p : Profile)
      → get u s ≡ some p
      → is_empty patch ≡ false
      → apply_location_rules d p patch ≡ ok ruled
      → Outcome u patch s (update d repo u patch s)
  update_accepted-Outcome u patch ruled s p present full good = elim (contract.updates u ruled s) [
    | inl (e, bad) ↦
        failed p ruled e present full good bad
          (update_accepted u patch ruled s p present full good ∙ rw bad)
    | inr (q, t, s', there, done, now, others) ↦
        let same : q ≡ p = cc in
        written p ruled t s' present full good
          (update_accepted u patch ruled s p present full good ∙ rw (done, same)) (rw (← same) now)
          others
  ]

  update_present-Outcome :
      (u : Uuid) (patch : ProfilePatch) (s : S) (p : Profile) (r : Result ProfilePatch)
      → get u s ≡ some p
      → is_empty patch ≡ false
      → apply_location_rules d p patch ≡ r
      → Outcome u patch s (update d repo u patch s)
  update_present-Outcome u patch s p (ok ruled) present full good =
      update_accepted-Outcome u patch ruled s p present full good
  update_present-Outcome u patch s p (err e) present full bad =
      rejected p e present full bad (update_rejected u patch s p e present full bad)
        (apply_location_rules-is d p patch e bad)

  -- Update fails with ErrProfileNotFound where the user has no profile, returns the stored profile
  -- of an empty patch, passes an invalid location on without a prefix, and otherwise returns what
  -- the repository makes of the patch after the location rules. On every branch but the last one
  -- that succeeds the store stays as it was, and that one changes no other user's profile.
  pub update-Outcome :
      (u : Uuid) (patch : ProfilePatch) (s : S) → Outcome u patch s (update d repo u patch s)
  update-Outcome u patch s = elim (Option-cases (get u s)) [
    | inl absent ↦
        let (e, failing, not_found) = update_missing u patch s absent in
        missing e absent failing not_found
    | inr (p, present) ↦ elim (Bool-cases (is_empty patch)) [
      | inl empty ↦ unwritten p present empty (update_empty u patch s p present empty)
      | inr full ↦
          update_present-Outcome u patch s p (apply_location_rules d p patch) present full refl
    ]
  ]

  Outcome-AllValid :
      (u : Uuid) (patch : ProfilePatch) (s : S) (r : Result Profile × S)
      → AllValid s
      → Outcome u patch s r
      → AllValid r.1
  Outcome-AllValid u patch s r valid (missing e _ eq _) = rw eq valid
  Outcome-AllValid u patch s r valid (unwritten p _ _ eq) = rw eq valid
  Outcome-AllValid u patch s r valid (rejected p e _ _ _ eq _) = rw eq valid
  Outcome-AllValid u patch s r valid (failed p ruled e _ _ _ _ eq) = rw eq valid
  Outcome-AllValid u patch s r valid (written p ruled t s' present _ good eq now others) =
      rw eq λ v q held. elim (ℕ_discrete v u) [
        | yes same ↦
            let new : record (merge ruled p) { updated_at = t } ≡ q = cc in
            subst (HasValidLocation d) new
              (apply_location_rules-HasValidLocation d p patch ruled (valid u p present) good)
        | no other ↦ valid v q (sym (others v other) ∙ held)
      ]

  -- Over a repository that keeps its contract, if every stored profile has a valid location, every
  -- one has after any Update, whether it succeeds or fails.
  pub update-AllValid :
      (u : Uuid) (patch : ProfilePatch) (s : S)
      → AllValid s
      → (v : Uuid) (p : Profile) → get v (update d repo u patch s).1 ≡ some p
      → HasValidLocation d p
  update-AllValid u patch s valid =
      Outcome-AllValid u patch s (update d repo u patch s) valid (update-Outcome u patch s)
