-- ===== src/Application/Auth/Users/Bootstrap.antt =====
-- BootstrapAdmin of api/internal/application/auth/user_manager.go, over the tables.
use courtknights.Common.{
  ◌<◌, String, ◌≡◌, ◌∙◌, refl, sym, ap, subst, Bool, true, Option, none, some, List, [], ◌∷◌, arith,
  Bool-cases, inl, inr, find, length, length-append, length-map, ltb,
}
use courtknights.Action.{ok, Result-cases}
use courtknights.Domain.User.{User, NewUser}
use courtknights.Infrastructure.Postgres.{Database}
use courtknights.Infrastructure.Postgres.Users.{new_user_repository, upsert, inserted, count_all}
use courtknights.Infrastructure.Postgres.Users.Upsert.{Upserted, created, renewed, upsert-Upserted}
use courtknights.Infrastructure.Postgres.Pats.{new_pat_repository, save}
use courtknights.Application.Auth.Users.{
  Environment, hash_key, bootstrap_admin, bootstrap_first, generate_salt,
}
use courtknights.Application.Auth.Users.RoundTrip.{save-Saved}

length-pos-find :
    {A : Type 0} (test : A → Bool) (xs : List A) (x : A) → find test xs ≡ some x → 0 < length xs
length-pos-find test [] x h = absurd (cc h)
length-pos-find test (y ∷ xs) x h = omega arith

Upserted-pos :
    (n : NewUser) (db : Database) (u : User) (t : Database) → Upserted n db u t → 0 < length t.users
Upserted-pos n db u t (created f e g) =
    rw (ap (λ x. x.users) g) (omega (arith, length-append db.users (inserted n db ∷ [])))
Upserted-pos n db u t (renewed v f e g) =
    rw (ap (λ x. x.users) g) (rw length-map (length-pos-find _ db.users v f))

users_eq : (s t : Database) → s ≡ t → s.users ≡ t.users
users_eq s t e = ap (λ x. x.users) e

pos_eq : (s t : Database) → s ≡ t → ltb 0 (length s.users) ≡ true → ltb 0 (length t.users) ≡ true
pos_eq s t e h = subst (λ x. ltb 0 (length x.users) ≡ true) e h

module _ (env : Environment Database) where
  bootstrap_first_pos :
      (email name raw : String) (s : Database) (made : Option User × String) (t : Database)
      → bootstrap_first env new_user_repository new_pat_repository email name raw s ≡ (ok made, t)
      → 0 < length t.users
  unfolding bootstrap_first generate_salt
  bootstrap_first_pos email name raw s made t h = elim (Result-cases (env.random_hex 16 s)) [
    | inl (salt, s1, a) ↦ elim (Result-cases (env.new_uuid s1)) [
      | inl (id, s2, b) ↦
          elim (Result-cases (
            upsert
              (record {
                email = email;
                name = name;
                role = "admin";
                provider = "pat";
                provider_id = id;
              })
              s2)) [
                | inl (u, s3, c) ↦
                    elim (Result-cases (
                      save
                        (record {
                          user_id = u.id;
                          key_hash = hash_key env raw salt;
                          salt = salt;
                          expires_at = none;
                        })
                        s3)) [
                          | inl (p, s4, d) ↦
                              subst (λ x. 0 < length x)
                                (sym (save-Saved _ s3 p s4 d).users_after
                                  ∙ users_eq s4 t (cc (rw (a, b, c, d) at h)))
                                (Upserted-pos _ s2 u s3 (upsert-Upserted _ s2 u s3 c))
                          | inr (e, s4, d) ↦ absurd (cc (rw (a, b, c, d) at h))
                        ]
                | inr (e, s3, c) ↦ absurd (cc (rw (a, b, c) at h))
              ]
      | inr (e, s2, b) ↦ absurd (cc (rw (a, b) at h))
    ]
    | inr (e, s1, a) ↦ absurd (cc (rw a at h))
  ]

  pub bootstrap_admin_skipped :
      (email name raw : String) (s : Database)
      → ltb 0 (length s.users) ≡ true
      → bootstrap_admin env new_user_repository new_pat_repository email name raw s
        ≡ (ok (none, ""), s)
  unfolding bootstrap_admin count_all
  bootstrap_admin_skipped email name raw s e = rw e refl

  -- A call that returns leaves a user in the table.
  pub bootstrap_admin_users :
      (email name raw : String) (s : Database) (made : Option User × String) (t : Database)
      → bootstrap_admin env new_user_repository new_pat_repository email name raw s ≡ (ok made, t)
      → ltb 0 (length t.users) ≡ true
  unfolding bootstrap_admin count_all
  bootstrap_admin_users email name raw s made t h = elim (Bool-cases (ltb 0 (length s.users))) [
    | inl e ↦ pos_eq s t (cc (rw e at h)) e
    | inr e ↦ ground (arith, bootstrap_first_pos email name raw s made t (rw e at h))
  ]

  -- Once BootstrapAdmin has returned, the table has a user, and a second call makes none.
  pub bootstrap_admin_once :
      (email name raw : String) (s : Database) (made : Option User × String) (t : Database)
      → bootstrap_admin env new_user_repository new_pat_repository email name raw s ≡ (ok made, t)
      → (email' name' raw' : String)
      → bootstrap_admin env new_user_repository new_pat_repository email' name' raw' t
        ≡ (ok (none, ""), t)
  bootstrap_admin_once email name raw s made t h email' name' raw' =
      bootstrap_admin_skipped email' name' raw' t (bootstrap_admin_users email name raw s made t h)
