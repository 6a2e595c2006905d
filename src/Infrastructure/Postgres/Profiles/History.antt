-- ===== src/Infrastructure/Postgres/Profiles/History.antt =====
-- The tables over any calls of UserRepository.Upsert and of EnsureExists and Update of the
-- ProfileManager, as logins and the requests of users make them.
use courtknights.Common.{
  String, ◌≡◌, refl, ap, subst, sym, ◌∙◌, true, false, some, List, [], ◌∷◌, find, is_some,
  Bool-cases, Option-cases, inl, inr,
}
use courtknights.Action.{Result, ok, err}
use courtknights.Errors.{wrap}
use courtknights.Domain.User.{Uuid, Time, NewUser}
use courtknights.Domain.Profile.{Profile, ProfilePatch, ProfileRepository, is_empty}
use courtknights.Domain.Profile.Location.{Dataset}
use native.Mathlib.Decide.{ℕ_discrete}
use courtknights.Domain.Profile.Contract.{IsProfileStore}
use courtknights.Infrastructure.Postgres.Profiles.Branches.{update-users}
use courtknights.Application.Profile.{ensure_exists, update, apply_location_rules}
use courtknights.Application.Profile.Location.{HasValidLocation}
use courtknights.Application.Profile.Update.{
  Outcome, missing, unwritten, rejected, failed, written, update-Outcome, update-AllValid,
  update_missing, update_empty, update_rejected, update_accepted,
}
use courtknights.Infrastructure.Postgres.{Database}
use courtknights.Infrastructure.Postgres.Users.{has_id, upsert}
use courtknights.Infrastructure.Postgres.Profiles.{
  ensure_exists as repository_ensure_exists, update as repository_update, Ordering,
  new_profile_repository,
}
use courtknights.Infrastructure.Postgres.Profiles.Store.{stored_profile}
use courtknights.Infrastructure.Postgres.Profiles.Contract.{new_profile_repository-IsProfileStore}
use courtknights.Infrastructure.Postgres.Profiles.Effects.{
  Saves, upsert-Saves, rewrap-state, Ensured, as_before, new_row, ensure_exists-Ensured,
  stored_profile-cases,
}

pub data Call : Type 0 where
  save_user : NewUser → Call
  ensure_profile : Uuid → String → Call
  update_profile : Uuid → ProfilePatch → Call

module _ (d : Dataset) (now : Database → Time) (order : Ordering) where
  unfoldable pub step : Call → Database → Database
  step (save_user n) db = (upsert n db).1
  step (ensure_profile u name) db = (ensure_exists d (new_profile_repository now order) u name db).1
  step (update_profile u patch) db = (update d (new_profile_repository now order) u patch db).1

  unfoldable pub run : List Call → Database → Database
  run [] db = db
  run (c ∷ cs) db = run cs (step c db)

  -- Every profile has a valid location, and its user has a row.
  pub record IsSound (db : Database) : Type 0 where
    pub valid : (u : Uuid) (p : Profile) → stored_profile u db ≡ some p → HasValidLocation d p
    pub owned :
        (u : Uuid) (p : Profile)
        → stored_profile u db ≡ some p
        → is_some (find (has_id u) db.users) ≡ true

  Saves-IsSound : (db t : Database) → Saves db t → IsSound db → IsSound t
  Saves-IsSound db t saves h = record {
    valid = λ u p held. h.valid u p (rw saves.profiles_same at held);
    owned = λ u p held. saves.users_kept u (h.owned u p (rw saves.profiles_same at held));
  }

  Ensured-IsSound :
      (u : Uuid) (name : String) (db t : Database) → Ensured u name db t → IsSound db → IsSound t
  Ensured-IsSound u name db t (as_before e) h = rw e h
  Ensured-IsSound u name db t (new_row known e) h = rw e (record {
    valid = λ v p held. elim (stored_profile-cases u v name db p held) [
      | inl old ↦ h.valid v p old
      | inr (_, new) ↦ subst (HasValidLocation d) new tt
    ];
    owned = λ v p held. elim (stored_profile-cases u v name db p held) [
      | inl old ↦ h.owned v p old
      | inr (same, _) ↦ subst (λ w. is_some (find (has_id w) db.users) ≡ true) same known
    ];
  })

  abbrev repo : ProfileRepository Database
  repo = new_profile_repository now order

  abbrev contract : IsProfileStore repo stored_profile
  contract = new_profile_repository-IsProfileStore now order

  ruled_update-users :
      (u : Uuid) (patch : ProfilePatch) (db : Database) (p : Profile) (r : Result ProfilePatch)
      → stored_profile u db ≡ some p
      → is_empty patch ≡ false
      → apply_location_rules d p patch ≡ r
      → (update d repo u patch db).1.users ≡ db.users
  ruled_update-users u patch db p (ok ruled) there full good =
      ap (λ q. q.1.users)
        (update_accepted d repo stored_profile contract u patch ruled db p there full good)
      ∙ ap (λ t. t.users)
          (rewrap-state (wrap "profile manager: Update") (repository_update now u ruled db))
      ∙ update-users now u ruled db
  ruled_update-users u patch db p (err e) there full bad =
      ap (λ q. q.1.users)
        (update_rejected d repo stored_profile contract u patch db p e there full bad)

  manager_update-users :
      (u : Uuid) (patch : ProfilePatch) (db : Database)
      → (update d repo u patch db).1.users ≡ db.users
  manager_update-users u patch db = elim (Option-cases (stored_profile u db)) [
    | inl absent ↦
        let (e, failing, _) = update_missing d repo stored_profile contract u patch db absent in
        ap (λ q. q.1.users) failing
    | inr (p, there) ↦ elim (Bool-cases (is_empty patch)) [
      | inl empty ↦
          ap (λ q. q.1.users) (update_empty d repo stored_profile contract u patch db p there empty)
      | inr full ↦ ruled_update-users u patch db p (apply_location_rules d p patch) there full refl
    ]
  ]

  -- Update makes no profile.
  Outcome-held :
      (u v : Uuid) (patch : ProfilePatch) (db : Database) (r : Result Profile × Database)
      (q : Profile)
      → Outcome d repo stored_profile contract u patch db r
      → stored_profile v r.1 ≡ some q
      → (p : Profile) × (stored_profile v db ≡ some p)
  Outcome-held u v patch db r q (missing e _ eq _) held = (q, rw eq at held)
  Outcome-held u v patch db r q (unwritten p _ _ eq) held = (q, rw eq at held)
  Outcome-held u v patch db r q (rejected p e _ _ _ eq _) held = (q, rw eq at held)
  Outcome-held u v patch db r q (failed p ruled e _ _ _ _ eq) held = (q, rw eq at held)
  Outcome-held u v patch db r q (written p ruled t s' there _ _ eq _ others) held =
      elim (ℕ_discrete v u) [
        | yes same ↦ (p, rw same there)
        | no other ↦ (q, sym (others v other) ∙ rw eq at held)
      ]

  update-IsSound :
      (u : Uuid) (patch : ProfilePatch) (db : Database)
      → IsSound db
      → IsSound (update d repo u patch db).1
  update-IsSound u patch db h = record {
    valid = λ v p held. update-AllValid d repo stored_profile contract u patch db h.valid v p held;
    owned = λ v p held.
        let (q, there) =
          Outcome-held u v patch db (update d repo u patch db) p
            (update-Outcome d repo stored_profile contract u patch db) held in
        rw (manager_update-users u patch db) (h.owned v q there);
  }

  step-IsSound : (c : Call) (db : Database) → IsSound db → IsSound (step c db)
  unfolding step ensure_exists
  step-IsSound (save_user n) db h = Saves-IsSound db (upsert n db).1 (upsert-Saves n db) h
  step-IsSound (ensure_profile u name) db h =
      rw (rewrap-state (wrap "profile manager: EnsureExists") (repository_ensure_exists u name db))
        (Ensured-IsSound u name db _ (ensure_exists-Ensured u name db) h)
  step-IsSound (update_profile u patch) db h = update-IsSound u patch db h

  -- From tables where every profile has a valid location and a user, any calls of Upsert, EnsureExists
  -- and Update, whether they succeed or fail, leave such tables.
  pub run-IsSound : (calls : List Call) (db : Database) → IsSound db → IsSound (run calls db)
  unfolding run
  run-IsSound [] db h = h
  run-IsSound (c ∷ cs) db h = run-IsSound cs (step c db) (step-IsSound c db h)
