-- ===== src/Application/Auth/Users/RoundTrip.antt =====
-- CreatePAT and then ResolveByPAT of api/internal/application/auth/user_manager.go, over the tables.
use courtknights.Common.{
  ℕ, suc, ◌≤◌, String, ◌≡◌, ◌≢◌, ◌∙◌, refl, sym, ap, subst, false, Option, none, some, List, [],
  ◌∷◌, ◌++◌, arith, Bool-cases, Option-cases, inl, inr, All, find, is_some,
}
use courtknights.Action.{Result, ok, Result-cases}
use courtknights.Domain.User.{Uuid, Time, User}
use courtknights.Domain.Pat.{Pat, NewPat, is_expired}
use courtknights.Infrastructure.Postgres.{Database}
use courtknights.Infrastructure.Postgres.Users.{
  new_user_repository, has_id, find_by_id, find_by_id_found,
}
use courtknights.Infrastructure.Postgres.Pats.{new_pat_repository, save, find_all, inserted, is_pat}
use courtknights.Application.Auth.Users.{
  Environment, hash_key, create_pat, resolve_by_pat, generate_raw_key, generate_salt,
}
use courtknights.Application.Auth.Users.Tokens.{First, here, there, resolve_by_pat_iff}

-- Two states have the same rows in both tables.
pub record SameTables (s t : Database) : Type 0 where
  pub users_eq : t.users ≡ s.users
  pub pats_eq : t.pats ≡ s.pats

abbrev pub IsLive : Option Time → Time → Type 0
IsLive none now = Unit
IsLive (some t) now = now ≤ t

is_expired-IsLive :
    (p : Pat) (expires_at : Option Time) (now : Time)
    → p.expires_at ≡ expires_at
    → IsLive expires_at now
    → is_expired p now ≡ false
unfolding is_expired
is_expired-IsLive p none now e h = rw e refl
is_expired-IsLive p (some t) now e h = rw e (ground (arith, h))

module _ (env : Environment Database) (raw : String) where
  -- A token behind others that are not of the raw text is the first that is.
  First-append :
      (p : Pat) (all : List Pat)
      → All (λ q. hash_key env raw q.salt ≢ q.key_hash) all
      → hash_key env raw p.salt ≡ p.key_hash
      → First env raw p (all ++ (p ∷ []))
  First-append p [] _ h = here h
  First-append p (q ∷ all) (n, rest) h = there n (First-append p all rest h)

-- What a call of Save that returns has done.
pub record Saved (n : NewPat) (s : Database) (p : Pat) (t : Database) : Type 0 where
  p_eq : p ≡ inserted n s
  pats_after : t.pats ≡ s.pats ++ (inserted n s ∷ [])
  pub users_after : t.users ≡ s.users

Saved-of :
    (n : NewPat) (s : Database) (p : Pat) (t : Database)
    → p ≡ inserted n s
    → t ≡ record s { pats = s.pats ++ (inserted n s ∷ []); drawn = suc s.drawn }
    → Saved n s p t
Saved-of n s p t e f = record {
  p_eq = e;
  pats_after = ap (λ x. x.pats) f;
  users_after = ap (λ x. x.users) f;
}

pub save-Saved :
    (n : NewPat) (s : Database) (p : Pat) (t : Database) → save n s ≡ (ok p, t) → Saved n s p t
unfolding save
save-Saved n s p t h = elim (Bool-cases (is_some (find (is_pat (s.uuids s.drawn)) s.pats))) [
  | inl e ↦ absurd (cc (rw e at h))
  | inr e ↦ elim (Bool-cases (is_some (find (has_id n.user_id) s.users))) [
    | inl d ↦ Saved-of n s p t (sym (cc (rw (e, d) at h))) (sym (cc (rw (e, d) at h)))
    | inr d ↦ absurd (cc (rw (e, d) at h))
  ]
]

-- What a call of CreatePAT that returns `raw` has done.
record Created (env : Environment Database) (user_id : Uuid) (expires_at : Option Time)
    (s : Database) (raw : String) (t : Database) : Type 0 where
  u : User
  p : Pat
  owner_eq : find (has_id user_id) s.users ≡ some u
  user_id_eq : p.user_id ≡ user_id
  hash_eq : hash_key env raw p.salt ≡ p.key_hash
  expires_eq : p.expires_at ≡ expires_at
  pats_after : t.pats ≡ s.pats ++ (p ∷ [])
  pub users_after : t.users ≡ s.users

module _ (env : Environment Database)
    (tables : (n : ℕ) (s : Database) → SameTables s (env.random_hex n s).1) (user_id : Uuid)
    (expires_at : Option Time) (s : Database) (raw : String) (t : Database) where
  same_after :
      (n : ℕ) (s1 s2 : Database) (r : Result String)
      → env.random_hex n s1 ≡ (r, s2)
      → SameTables s1 s2
  same_after n s1 s2 r e = subst (SameTables s1) (ap (λ x. x.1) e) (tables n s1)

  abbrev saved_pat : String → String → NewPat
  saved_pat key salt = record {
    user_id = user_id;
    key_hash = hash_key env key salt;
    salt = salt;
    expires_at = expires_at;
  }

  Created-of :
      (u : User) (salt : String) (s1 s2 : Database) (p : Pat)
      → find (has_id user_id) s.users ≡ some u
      → SameTables s s1
      → SameTables s1 s2
      → Saved (saved_pat raw salt) s2 p t
      → Created env user_id expires_at s raw t
  Created-of u salt s1 s2 p f a b saved = record {
    u = u;
    p = p;
    owner_eq = f;
    user_id_eq = ap (λ x. x.user_id) saved.p_eq;
    hash_eq = ap (λ x. hash_key env raw x.salt) saved.p_eq ∙ sym (ap (λ x. x.key_hash) saved.p_eq);
    expires_eq = ap (λ x. x.expires_at) saved.p_eq;
    pats_after = cc (saved.p_eq, saved.pats_after, a.pats_eq, b.pats_eq);
    users_after = cc (saved.users_after, a.users_eq, b.users_eq);
  }

  create_pat-Created :
      create_pat env new_user_repository new_pat_repository user_id expires_at s ≡ (ok raw, t)
      → Created env user_id expires_at s raw t
  unfolding create_pat find_by_id generate_raw_key generate_salt
  create_pat-Created h = elim (Option-cases (find (has_id user_id) s.users)) [
    | inl f ↦ absurd (cc (rw f at h))
    | inr (u, f) ↦ elim (Result-cases (env.random_hex 32 s)) [
      | inl (key, s1, a) ↦ elim (Result-cases (env.random_hex 16 s1)) [
        | inl (salt, s2, b) ↦ elim (Result-cases (save (saved_pat key salt) s2)) [
          | inl (p, t', g) ↦
              Created-of u salt s1 s2 p f (same_after 32 s s1 (ok key) a)
                (same_after 16 s1 s2 (ok salt) b)
                (save-Saved (saved_pat raw salt) s2 p t (cc (g, rw (f, a, b, g) at h)))
          | inr (e, t', g) ↦ absurd (cc (rw (f, a, b, g) at h))
        ]
        | inr (e, s2, b) ↦ absurd (cc (rw (f, a, b) at h))
      ]
      | inr (e, s1, a) ↦ absurd (cc (rw (f, a) at h))
    ]
  ]

  -- The text that CreatePAT returns is that of its user's token: until the token expires, and if no
  -- older token has the same hash, ResolveByPAT finds the user with it.
  pub create_pat-resolve_by_pat :
      create_pat env new_user_repository new_pat_repository user_id expires_at s ≡ (ok raw, t)
      → All (λ q. hash_key env raw q.salt ≢ q.key_hash) s.pats
      → (now : Time) (r : Database) → env.now t ≡ (ok now, r)
      → SameTables t r
      → IsLive expires_at now
      → (u : User) × (find (has_id user_id) s.users ≡ some u)
        × (resolve_by_pat env new_user_repository new_pat_repository raw t ≡ (ok u, r))
  unfolding find_by_id find_all
  create_pat-resolve_by_pat h fresh now r n same live =
      let c = create_pat-Created h in
      (
        c.u,
        c.owner_eq,
        (resolve_by_pat_iff env new_user_repository new_pat_repository raw t c.u r).1 (record {
          all = t.pats;
          listed = t;
          find_all_eq = refl;
          p = c.p;
          found =
              subst (First env raw c.p) (sym c.pats_after)
                (First-append env raw c.p s.pats fresh c.hash_eq);
          time = now;
          read = r;
          now_eq = n;
          live = is_expired-IsLive c.p expires_at now c.expires_eq live;
          owner_eq =
              find_by_id_found c.p.user_id c.u r
                (cc (c.user_id_eq, same.users_eq, c.users_after, c.owner_eq));
        }),
      )
