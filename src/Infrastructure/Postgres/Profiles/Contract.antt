-- ===== src/Infrastructure/Postgres/Profiles/Contract.antt =====
-- The repository of profiles keeps the contract of api/internal/domain/profile/repository.go.
use courtknights.Common.{◌≡◌, refl, sym, subst, Option, none, some, find, inl, inr}
use courtknights.Action.{ok}
use courtknights.Domain.User.{Uuid, Time}
use courtknights.Domain.Profile.{Profile, ProfilePatch}
use courtknights.Domain.Profile.Merge.{merge, merge_of_is_empty}
use courtknights.Domain.Profile.Contract.{Updates, IsProfileStore}
use courtknights.Infrastructure.Postgres.{Database, ProfileRow}
use courtknights.Infrastructure.Postgres.Profiles.{
  scan_profile, find_by_user_id, update, Ordering, new_profile_repository,
}
use courtknights.Infrastructure.Postgres.Profiles.Table.{of_user}
use courtknights.Infrastructure.Postgres.Profiles.Store.{stored_profile, scan?}
use courtknights.Infrastructure.Postgres.Profiles.Branches.{
  Ran, absent, unwritten, violating, refused_value, written, update-Ran, find_by_user_id_absent,
}

pub scan?-some :
    (o : Option ProfileRow) (p : Profile)
    → scan? o ≡ some p
    → (q : ProfileRow) × (o ≡ some q) × (scan_profile q ≡ p)
scan?-some none p h = absurd (cc h)
scan?-some (some q) p h = (q, refl, cc)

scan?-none : (o : Option ProfileRow) → scan? o ≡ none → o ≡ none
scan?-none none h = refl
scan?-none (some q) h = absurd (cc h)

module _ (now : Database → Time) (order : Ordering) where
  Ran-Updates :
      (u : Uuid) (patch : ProfilePatch) (db : Database) (t : Time)
      → Ran u patch t db (update now u patch db)
      → Updates (new_profile_repository now order) stored_profile u patch db
  unfolding merge
  Ran-Updates u patch db t (absent e _ eq _) = inl (e, eq)
  Ran-Updates u patch db t (unwritten p there empty eq) =
      let same : p ≡ record (merge patch p) { updated_at = p.updated_at } =
        sym (merge_of_is_empty patch p empty) in
      inr (
        p,
        p.updated_at,
        db,
        there,
        subst (λ q. update now u patch db ≡ (ok q, db)) same eq,
        subst (λ q. stored_profile u db ≡ some q) same there,
        λ v n. refl,
      )
  Ran-Updates u patch db t (violating p e _ _ eq _ _ _) = inl (e, eq)
  Ran-Updates u patch db t (refused_value p e _ _ eq _ _ _) = inl (e, eq)
  Ran-Updates u patch db t (written p db' there _ _ _ eq after others) =
      inr (p, t, db', there, eq, after, others)

  found_profile :
      (u : Uuid) (db : Database) (p : Profile)
      → stored_profile u db ≡ some p
      → find_by_user_id u db ≡ (ok p, db)
  unfolding find_by_user_id
  found_profile u db p h =
      let (q, there, eq) = scan?-some (find (of_user u) db.profiles) p h in rw (there, eq) refl

  -- The repository keeps the contract that the managers rely on, whatever the clock and the
  -- collation are: it finds exactly the stored profiles, and Update fails and changes nothing or
  -- merges the patch into the stored profile and leaves the others alone.
  pub new_profile_repository-IsProfileStore :
      IsProfileStore (new_profile_repository now order) stored_profile
  new_profile_repository-IsProfileStore = record {
    found = λ u db p h. found_profile u db p h;
    missing = λ u db h. find_by_user_id_absent u db (scan?-none (find (of_user u) db.profiles) h);
    updates = λ u patch db. Ran-Updates u patch db (now db) (update-Ran now u patch db);
  }
