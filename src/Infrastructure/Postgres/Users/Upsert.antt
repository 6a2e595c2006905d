-- ===== src/Infrastructure/Postgres/Users/Upsert.antt =====
-- What Upsert of api/internal/infrastructure/postgres/user_repository.go makes of the rows.
use courtknights.Common.{
  suc, ◌≡◌, refl, sym, Option, none, some, [], ◌∷◌, ◌++◌, find, is_some, Bool-cases, inl, inr,
  arith,
}
use courtknights.Action.{ok, err}
use courtknights.Errors.{Error}
use courtknights.Domain.User.{User, NewUser}
use courtknights.Infrastructure.Postgres.{Database}
use courtknights.Infrastructure.Postgres.Users.{
  upsert, upsert_row, inserted, updated, set_row, has_provider, has_email, has_id, taken_by_other,
  passes_checks,
}

-- What a call of Upsert that returns `u` has done: a new row, or new data in the row that had the
-- provider and its id.
pub data Upserted (n : NewUser) (db : Database) (u : User) (t : Database) : Type 0 where
  created :
      find (has_provider n.provider n.provider_id) db.users ≡ none
      → u ≡ inserted n db
      → t ≡ record db { users = db.users ++ (inserted n db ∷ []); drawn = suc db.drawn }
      → Upserted n db u t
  renewed :
      (v : User)
      → find (has_provider n.provider n.provider_id) db.users ≡ some v
      → u ≡ updated n v db
      → t ≡ record db { users = set_row (updated n v db) db.users }
      → Upserted n db u t

module _ (n : NewUser) (db : Database) (u : User) (t : Database) where
  upsert_row-Upserted :
      (o : Option User)
      → find (has_provider n.provider n.provider_id) db.users ≡ o
      → upsert_row n o db ≡ (ok u, t)
      → Upserted n db u t
  unfolding upsert_row
  upsert_row-Upserted none f h = elim (Bool-cases (is_some (find (has_email n.email) db.users))) [
    | inl e ↦ absurd (cc (rw e at h))
    | inr e ↦ elim (Bool-cases (is_some (find (has_id (db.uuids db.drawn)) db.users))) [
      | inl d ↦ absurd (cc (rw (e, d) at h))
      | inr d ↦ created f (sym (cc (rw (e, d) at h))) (sym (cc (rw (e, d) at h)))
    ]
  ]
  upsert_row-Upserted (some v) f h = elim (Bool-cases (taken_by_other v.id n.email db.users)) [
    | inl e ↦ absurd (cc (rw e at h))
    | inr e ↦ renewed v f (sym (cc (rw e at h))) (sym (cc (rw e at h)))
  ]

  pub upsert-Upserted : upsert n db ≡ (ok u, t) → Upserted n db u t
  unfolding upsert
  upsert-Upserted h = elim (Bool-cases (passes_checks n)) [
    | inl e ↦
        upsert_row-Upserted (find (has_provider n.provider n.provider_id) db.users) refl (rw e at h)
    | inr e ↦ absurd (cc (rw e at h))
  ]

module _ (n : NewUser) (db t : Database) where
  upsert_row_failed : (e : Error) (o : Option User) → upsert_row n o db ≡ (err e, t) → t ≡ db
  unfolding upsert_row
  upsert_row_failed e none h = ground arith
  upsert_row_failed e (some v) h = ground arith

  -- A call that fails changes nothing.
  pub upsert_failed_keeps : (e : Error) → upsert n db ≡ (err e, t) → t ≡ db
  unfolding upsert
  upsert_failed_keeps e h = elim (Bool-cases (passes_checks n)) [
    | inl c ↦
        upsert_row_failed e (find (has_provider n.provider n.provider_id) db.users) (rw c at h)
    | inr c ↦ sym (cc (rw c at h))
  ]
