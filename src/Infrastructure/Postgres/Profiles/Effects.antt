-- ===== src/Infrastructure/Postgres/Profiles/Effects.antt =====
-- What Upsert and EnsureExists do to the tables of users and profiles.
use courtknights.Common.{
  String, ◌≡◌, ◌⊎◌, refl, ap, ◌∙◌, Bool, true, some, List, [], ◌∷◌, ◌++◌, find, is_some, arith,
  Bool-cases, inl, inr,
}
use courtknights.Action.{Result, ok, err, rewrap, Result-cases}
use courtknights.Errors.{Error}
use courtknights.Domain.User.{Uuid, User, NewUser}
use courtknights.Domain.Profile.{Profile}
use courtknights.Infrastructure.Postgres.{Database}
use courtknights.Infrastructure.Postgres.Users.{
  has_id, upsert, set_row, inserted as User_inserted, updated as User_updated,
}
use courtknights.Infrastructure.Postgres.Users.Upsert.{
  Upserted, created, renewed, upsert-Upserted, upsert_failed_keeps,
}
use courtknights.Infrastructure.Postgres.Profiles.{
  ensure_exists as repository_ensure_exists, inserted, scan_profile,
}
use courtknights.Infrastructure.Postgres.Profiles.Table.{of_user}
use courtknights.Infrastructure.Postgres.Profiles.Store.{stored_profile, scan?, find-of_user}
use courtknights.Infrastructure.Postgres.Profiles.Contract.{scan?-some}

find-append :
    {A : Type 0} (test : A → Bool) (xs ys : List A)
    → is_some (find test xs) ≡ true
    → is_some (find test (xs ++ ys)) ≡ true
find-append test [] ys h = absurd (cc h)
find-append test (x ∷ xs) ys h = ground (arith, find-append test xs ys)

find-set_row :
    (u : Uuid) (v : User) (users : List User)
    → is_some (find (has_id u) users) ≡ true
    → is_some (find (has_id u) (set_row v users)) ≡ true
find-set_row u v [] h = h
find-set_row u v (w ∷ users) h = ground (arith, find-set_row u v users)

pub rewrap-state : {A S : Type 0} (f : Error → Error) (r : Result A × S) → (rewrap f r).1 ≡ r.1
rewrap-state f (ok a, s) = refl
rewrap-state f (err e, s) = refl

-- Upsert leaves the profiles alone and loses no row of users.
pub record Saves (db t : Database) : Type 0 where
  pub profiles_same : t.profiles ≡ db.profiles
  pub users_kept :
      (u : Uuid)
      → is_some (find (has_id u) db.users) ≡ true
      → is_some (find (has_id u) t.users) ≡ true

Upserted-Saves : (n : NewUser) (db t : Database) (v : User) → Upserted n db v t → Saves db t
Upserted-Saves n db t v (created _ _ after) = rw after (record {
  profiles_same = refl;
  users_kept = λ u h. find-append (has_id u) db.users (User_inserted n db ∷ []) h;
})
Upserted-Saves n db t v (renewed w _ _ after) = rw after (record {
  profiles_same = refl;
  users_kept = λ u h. find-set_row u (User_updated n w db) db.users h;
})

pub upsert-Saves : (n : NewUser) (db : Database) → Saves db (upsert n db).1
upsert-Saves n db = elim (Result-cases (upsert n db)) [
  | inl (v, t, e) ↦ rw e (Upserted-Saves n db t v (upsert-Upserted n db v t e))
  | inr (f, t, e) ↦
      rw (e, upsert_failed_keeps n db t f e)
        (record { profiles_same = refl; users_kept = λ u h. h })
]

find-append_cases :
    {A : Type 0} (test : A → Bool) (xs : List A) (x y : A)
    → find test (xs ++ (x ∷ [])) ≡ some y
    → (find test xs ≡ some y) ⊎ (x ≡ y)
find-append_cases test [] x y h = ground arith
find-append_cases test (z ∷ xs) x y h = ground (arith, find-append_cases test xs x y)

-- What EnsureExists may do to the tables: nothing, or a new row for a user who has none.
pub data Ensured (u : Uuid) (name : String) (db t : Database) : Type 0 where
  as_before : t ≡ db → Ensured u name db t
  new_row :
      is_some (find (has_id u) db.users) ≡ true
      → t ≡ record db { profiles = db.profiles ++ (inserted u name db ∷ []) }
      → Ensured u name db t

pub ensure_exists-Ensured :
    (u : Uuid) (name : String) (db : Database)
    → Ensured u name db (repository_ensure_exists u name db).1
unfolding repository_ensure_exists
ensure_exists-Ensured u name db = elim (Bool-cases (is_some (find (of_user u) db.profiles))) [
  | inl e ↦ as_before (rw e refl)
  | inr e ↦ elim (Bool-cases (is_some (find (has_id u) db.users))) [
    | inl k ↦ new_row k (rw (e, k) refl)
    | inr k ↦ as_before (rw (e, k) refl)
  ]
]

-- A profile of the table with a new row is an old one or that of the row.
pub stored_profile-cases :
    (u v : Uuid) (name : String) (db : Database) (p : Profile)
    → stored_profile v (record db { profiles = db.profiles ++ (inserted u name db ∷ []) }) ≡ some p
    → (stored_profile v db ≡ some p) ⊎ ((u ≡ v) × (scan_profile (inserted u name db) ≡ p))
stored_profile-cases u v name db p held =
    let rows = db.profiles ++ (inserted u name db ∷ []) in
    let (q, there, eq) = scan?-some (find (of_user v) rows) p held in
    elim (find-append_cases (of_user v) db.profiles (inserted u name db) q there) [
      | inl old ↦ inl (ap scan? old ∙ ap some eq)
      | inr new ↦
          inr (ap (λ r. r.user_id) new ∙ find-of_user v rows q there, ap scan_profile new ∙ eq)
    ]
