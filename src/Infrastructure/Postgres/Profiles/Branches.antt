-- ===== src/Infrastructure/Postgres/Profiles/Branches.antt =====
-- What Update of api/internal/infrastructure/postgres/profile_repository.go does on every branch.
use courtknights.Common.{
  ◌≡◌, ◌≢◌, ◌⊎◌, refl, ap, subst, ◌∙◌, Bool, true, false, ◌&&◌, Option, none, some, find,
  Bool-cases, Option-cases, inl, inr,
}
use courtknights.Action.{Result, ok, err}
use courtknights.Errors.{Error, sentinel, wrap, is, profile_not_found, profile_conflict}
use courtknights.Domain.User.{Uuid, Time}
use courtknights.Domain.Profile.{Profile, ProfilePatch, is_empty, genders, categories}
use courtknights.Domain.Profile.Merge.{merge}
use courtknights.Infrastructure.Postgres.{Database, ProfileRow}
use courtknights.Infrastructure.Postgres.Profiles.{
  scan_profile, find_by_user_id, update, update_error, updated,
}
use courtknights.Infrastructure.Postgres.Profiles.Table.{
  is_one_of, of_user, passes_region_check, violated, first_violated, violation, checked, put_row,
  Failure, no_rows,
}
use courtknights.Infrastructure.Postgres.Profiles.Update.{merged_row}
use courtknights.Infrastructure.Postgres.Profiles.Store.{
  stored_profile, scan?, run, run_missing, run_found, find-of_user, find-put_row,
  find-put_row_other, scan_profile-merged_row,
}

-- The merged category and gender pass the CHECKs on their values.
abbrev pub values_fit : ProfilePatch → Profile → Bool
values_fit patch p =
    is_one_of categories (merge patch p).category && is_one_of genders (merge patch p).gender

-- What Update may return and leave behind; no two of these hold at once.
pub data Ran (u : Uuid) (patch : ProfilePatch) (t : Time) (db : Database)
    (r : Result Profile × Database) : Type 0 where
  absent :
      (e : Error)
      → stored_profile u db ≡ none
      → r ≡ (err e, db)
      → is profile_not_found e ≡ true
      → Ran u patch t db r
  unwritten :
      (p : Profile)
      → stored_profile u db ≡ some p
      → is_empty patch ≡ true
      → r ≡ (ok p, db)
      → Ran u patch t db r
  violating :
      (p : Profile) (e : Error)
      → stored_profile u db ≡ some p
      → is_empty patch ≡ false
      → r ≡ (err e, db)
      → is profile_conflict e ≡ true
      → values_fit patch p ≡ true
      → passes_region_check (merge patch p).region (merge patch p).country ≡ false
      → Ran u patch t db r
  refused_value :
      (p : Profile) (e : Error)
      → stored_profile u db ≡ some p
      → is_empty patch ≡ false
      → r ≡ (err e, db)
      → is profile_conflict e ≡ false
      → is profile_not_found e ≡ false
      → values_fit patch p ≡ false
      → Ran u patch t db r
  written :
      (p : Profile) (db' : Database)
      → stored_profile u db ≡ some p
      → is_empty patch ≡ false
      → values_fit patch p ≡ true
      → passes_region_check (merge patch p).region (merge patch p).country ≡ true
      → r ≡ (ok (record (merge patch p) { updated_at = t }), db')
      → stored_profile u db' ≡ some (record (merge patch p) { updated_at = t })
      → ((v : Uuid) → v ≢ u → stored_profile v db' ≡ stored_profile v db)
      → Ran u patch t db r

pub find_by_user_id_absent :
    (u : Uuid) (db : Database)
    → find (of_user u) db.profiles ≡ none
    → (e : Error) × (find_by_user_id u db ≡ (err e, db)) × (is profile_not_found e ≡ true)
unfolding find_by_user_id is
find_by_user_id_absent u db h =
    (wrap "postgres: FindByUserID profile" (sentinel profile_not_found), rw h refl, refl)

-- Only the constraint on the region gives ErrProfileConflict.
violation-cases :
    (category_fits gender_fits region_fits : Bool) (f : Failure)
    → first_violated category_fits gender_fits region_fits ≡ some f
    → ((is profile_conflict (update_error f) ≡ true)
        × (category_fits && gender_fits ≡ true)
        × (region_fits ≡ false))
      ⊎ ((is profile_conflict (update_error f) ≡ false)
          × (is profile_not_found (update_error f) ≡ false)
          × (category_fits && gender_fits ≡ false))
unfolding update_error is
violation-cases false _ _ f h =
    let e : violation "23514" "user_profiles_category_check" ≡ f = cc in
    inr (
      subst (λ g. is profile_conflict (update_error g) ≡ false) e refl,
      subst (λ g. is profile_not_found (update_error g) ≡ false) e refl,
      refl,
    )
violation-cases true false _ f h =
    let e : violation "23514" "user_profiles_gender_check" ≡ f = cc in
    inr (
      subst (λ g. is profile_conflict (update_error g) ≡ false) e refl,
      subst (λ g. is profile_not_found (update_error g) ≡ false) e refl,
      refl,
    )
violation-cases true true false f h =
    let e : violation "23514" "user_profiles_region_country_check" ≡ f = cc in
    inl (subst (λ g. is profile_conflict (update_error g) ≡ true) e refl, refl, refl)
violation-cases true true true f h = absurd (cc h)

first_violated-none :
    (category_fits gender_fits region_fits : Bool)
    → first_violated category_fits gender_fits region_fits ≡ none
    → (category_fits && gender_fits ≡ true) × (region_fits ≡ true)
first_violated-none false _ _ h = absurd (cc h)
first_violated-none true false _ h = absurd (cc h)
first_violated-none true true false h = absurd (cc h)
first_violated-none true true true h = (refl, refl)

module _ (now : Database → Time) (u : Uuid) (patch : ProfilePatch) (db : Database) where
  update_full : is_empty patch ≡ false → update now u patch db ≡ updated (run u patch (now db) db)
  unfolding update
  update_full full = rw full refl

  update_absent :
      find (of_user u) db.profiles ≡ none
      → (e : Error) × (update now u patch db ≡ (err e, db)) × (is profile_not_found e ≡ true)
  unfolding update is update_error
  update_absent h = elim (Bool-cases (is_empty patch)) [
    | inl empty ↦
        let (e, failing, not_found) = find_by_user_id_absent u db h in
        (e, rw (update, empty) failing, not_found)
    | inr full ↦ (
      update_error no_rows,
      update_full full ∙ ap updated (run_missing u patch (now db) db h),
      refl,
    )
  ]

  checked-users :
      (p : ProfileRow) (f : Option Failure) → (updated (checked p f db)).1.users ≡ db.users
  checked-users p none = refl
  checked-users p (some f) = refl

  update_present :
      (old : ProfileRow)
      → find (of_user u) db.profiles ≡ some old
      → is_empty patch ≡ false
      → let p = merged_row patch (now db) old in
        update now u patch db ≡ updated (checked p (violated p) db)
  update_present old h full = update_full full ∙ ap updated (run_found u patch (now db) db old h)

  -- Update writes no user.
  pub update-users : (update now u patch db).1.users ≡ db.users
  unfolding update find_by_user_id
  update-users = elim (Bool-cases (is_empty patch)) [
    | inl empty ↦ rw empty refl
    | inr full ↦ elim (Option-cases (find (of_user u) db.profiles)) [
      | inl none_there ↦
          ap (λ r. r.1.users)
            (update_full full ∙ ap updated (run_missing u patch (now db) db none_there))
      | inr (old, there) ↦
          ap (λ r. r.1.users) (update_present old there full)
          ∙ checked-users (merged_row patch (now db) old) (violated (merged_row patch (now db) old))
    ]
  ]

  update_violating-Ran :
      (old : ProfileRow) (f : Failure)
      → find (of_user u) db.profiles ≡ some old
      → is_empty patch ≡ false
      → violated (merged_row patch (now db) old) ≡ some f
      → Ran u patch (now db) db (update now u patch db)
  unfolding merge
  update_violating-Ran old f h full bad =
      let failing : update now u patch db ≡ (err (update_error f), db) =
        update_present old h full ∙ rw bad refl in
      elim (violation-cases _ _ _ f bad) [
        | inl (conflict, fit, outside) ↦
            violating (scan_profile old) (update_error f) (ap scan? h) full failing conflict fit
              outside
        | inr (other, present, unfit) ↦
            refused_value (scan_profile old) (update_error f) (ap scan? h) full failing other
              present unfit
      ]

  update_passing-Ran :
      (old : ProfileRow)
      → find (of_user u) db.profiles ≡ some old
      → is_empty patch ≡ false
      → violated (merged_row patch (now db) old) ≡ none
      → Ran u patch (now db) db (update now u patch db)
  unfolding merge
  update_passing-Ran old h full good =
      let (fit, inside) = first_violated-none _ _ _ good in
      let p = merged_row patch (now db) old in
      let same = find-of_user u db.profiles old h in
      let scans = scan_profile-merged_row patch (now db) old in
      written (scan_profile old) (record db { profiles = put_row p db.profiles }) (ap scan? h) full
        fit inside (update_present old h full ∙ rw (good, scans) refl)
        (ap scan? (find-put_row u p old db.profiles same h) ∙ ap some scans)
        (λ v n. ap scan? (find-put_row_other u v p db.profiles same n))

  update_found-Ran :
      (old : ProfileRow)
      → find (of_user u) db.profiles ≡ some old
      → Ran u patch (now db) db (update now u patch db)
  unfolding update find_by_user_id
  update_found-Ran old h = elim (Bool-cases (is_empty patch)) [
    | inl empty ↦ unwritten (scan_profile old) (ap scan? h) empty (rw (empty, h) refl)
    | inr full ↦ elim (Option-cases (violated (merged_row patch (now db) old))) [
      | inl good ↦ update_passing-Ran old h full good
      | inr (f, bad) ↦ update_violating-Ran old f h full bad
    ]
  ]

  -- Update fails with ErrProfileNotFound where the user has no row; it returns the stored profile of
  -- an empty patch; it fails with ErrProfileConflict where the merged region is not in the merged
  -- country, while the merged category and gender are allowed, and with an error that is neither of
  -- the two where the merged category or gender is not; and otherwise it returns and stores the
  -- merge of the patch, with the time of the update. It changes no row on any other branch, and no
  -- other user's on that one. Each error comes only where its condition holds.
  pub update-Ran : Ran u patch (now db) db (update now u patch db)
  update-Ran = elim (Option-cases (find (of_user u) db.profiles)) [
    | inl none_there ↦
        let (e, failing, not_found) = update_absent none_there in
        absent e (ap scan? none_there) failing not_found
    | inr (old, there) ↦ update_found-Ran old there
  ]
