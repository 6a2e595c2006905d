-- ===== src/Application/Auth/Users/Tokens.antt =====
-- ResolveByPAT and CreatePAT of api/internal/application/auth/user_manager.go.
use courtknights.Common.{
  String, ◌≡◌, ◌≢◌, ◌↔◌, refl, subst, false, some, List, [], ◌∷◌, eq_iff, ne_of_test, ◌==◌,
  Bool-cases, Option-cases, inl, inr,
}
use courtknights.Action.{ok, Result-cases}
use courtknights.Domain.User.{Time, User, UserRepository}
use courtknights.Domain.Pat.{Pat, PatRepository, is_expired}
use courtknights.Application.Auth.Users.{Environment, hash_key, match_pat, resolve_by_pat, owner_of}

-- The first token of a list that was made of a raw text.
pub data First {S : Type 0} (env : Environment S) (raw : String) (p : Pat) : List Pat → Type 0 where
  here : {rest : List Pat} → hash_key env raw p.salt ≡ p.key_hash → First env raw p (p ∷ rest)
  there :
      {q : Pat} {rest : List Pat}
      → hash_key env raw q.salt ≢ q.key_hash
      → First env raw p rest
      → First env raw p (q ∷ rest)

module _ {S : Type 0} (env : Environment S) (raw : String) where
  pub match_pat_sound :
      (all : List Pat) (p : Pat) → match_pat env raw all ≡ some p → First env raw p all
  unfolding match_pat
  match_pat_sound [] p h = absurd (cc h)
  match_pat_sound (q ∷ rest) p h = elim (Bool-cases (hash_key env raw q.salt == q.key_hash)) [
    | inl e ↦
        subst (λ x. First env raw x (q ∷ rest)) (cc (rw e at h))
          (here ((eq_iff (hash_key env raw q.salt) q.key_hash).0 e))
    | inr e ↦
        there (ne_of_test (hash_key env raw q.salt) q.key_hash e)
          (match_pat_sound rest p (rw e at h))
  ]

  pub match_pat_complete :
      (p : Pat) (all : List Pat) → First env raw p all → match_pat env raw all ≡ some p
  unfolding match_pat
  match_pat_complete p _ (here {rest} e) =
      rw ((eq_iff (hash_key env raw p.salt) p.key_hash).1 e) refl
  match_pat_complete p _ (there {q} {rest} n f) =
      elim (Bool-cases (hash_key env raw q.salt == q.key_hash)) [
        | inl e ↦ absurd (n ((eq_iff (hash_key env raw q.salt) q.key_hash).0 e))
        | inr e ↦ rw e (match_pat_complete p rest f)
      ]

-- Why ResolveByPAT returns the user `u`: the first stored token that was made of the raw text has
-- not expired, and `u` is the user with its user id.
pub record Owned {S : Type 0} (env : Environment S) (users : UserRepository S)
    (pats : PatRepository S) (raw : String) (s : S) (u : User) (t : S) : Type 0 where
  pub all : List Pat
  pub listed : S
  pub find_all_eq : pats.find_all s ≡ (ok all, listed)
  pub p : Pat
  pub found : First env raw p all
  pub time : Time
  pub read : S
  pub now_eq : env.now listed ≡ (ok time, read)
  pub live : is_expired p time ≡ false
  pub owner_eq : users.find_by_id p.user_id read ≡ (ok u, t)

module _ {S : Type 0} (env : Environment S) (users : UserRepository S) (pats : PatRepository S)
    (raw : String) (s : S) (u : User) (t : S) where
  owner-Owned :
      (all : List Pat) (listed : S)
      → pats.find_all s ≡ (ok all, listed)
      → (p : Pat) → match_pat env raw all ≡ some p
      → owner_of env users pats (some p) listed ≡ (ok u, t)
      → Owned env users pats raw s u t
  unfolding owner_of
  owner-Owned all listed a p f h = elim (Result-cases (env.now listed)) [
    | inl (time, read, n) ↦ elim (Bool-cases (is_expired p time)) [
      | inl e ↦ absurd (cc (rw (n, e) at h))
      | inr e ↦ elim (Result-cases (users.find_by_id p.user_id read)) [
        | inl (v, t', o) ↦ record {
          all = all;
          listed = listed;
          find_all_eq = a;
          p = p;
          found = match_pat_sound env raw all p f;
          time = time;
          read = read;
          now_eq = n;
          live = e;
          owner_eq = cc (o, rw (n, e, o) at h);
        }
        | inr (v, t', o) ↦ absurd (cc (rw (n, e, o) at h))
      ]
    ]
    | inr (e, read, n) ↦ absurd (cc (rw n at h))
  ]

  resolve_by_pat_sound :
      resolve_by_pat env users pats raw s ≡ (ok u, t) → Owned env users pats raw s u t
  unfolding resolve_by_pat
  resolve_by_pat_sound h = elim (Result-cases (pats.find_all s)) [
    | inl (all, listed, a) ↦ elim (Option-cases (match_pat env raw all)) [
      | inl f ↦ absurd (cc (rw (a, f) at h))
      | inr (p, f) ↦ owner-Owned all listed a p f (rw (a, f) at h)
    ]
    | inr (e, listed, a) ↦ absurd (cc (rw a at h))
  ]

  resolve_by_pat_complete :
      Owned env users pats raw s u t → resolve_by_pat env users pats raw s ≡ (ok u, t)
  unfolding resolve_by_pat owner_of
  resolve_by_pat_complete o =
      rw (o.find_all_eq, match_pat_complete env raw o.p o.all o.found, o.now_eq, o.live, o.owner_eq)
        refl

  -- ResolveByPAT returns a user exactly for the text of a stored token that has not expired, and
  -- then it is the owner of the first such token.
  pub resolve_by_pat_iff :
      (resolve_by_pat env users pats raw s ≡ (ok u, t)) ↔ Owned env users pats raw s u t
  resolve_by_pat_iff = (resolve_by_pat_sound, resolve_by_pat_complete)
