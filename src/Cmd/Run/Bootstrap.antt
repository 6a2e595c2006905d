-- ===== src/Cmd/Run/Bootstrap.antt =====
-- runBootstrap of api/cmd/server/server.go over several starts of the server.
use courtknights.Common.{
  ◌≡◌, ◌≢◌, refl, ap, ◌∙◌, sym, String, true, false, ◌||◌, Option, none, some, ◌==◌, arith, length,
  ltb, subst, test_of_ne, Bool-cases, inl, inr,
}
use courtknights.Action.{Result, ok, err, within, rewrap, continue, pure, bind_ok, rewrap_ok}
use courtknights.Errors.{Error}
use courtknights.Domain.User.{Uuid, User}
use courtknights.Infrastructure.Jwt.{Adapter}
use courtknights.Infrastructure.Postgres.{Database}
use courtknights.Infrastructure.Postgres.Profiles.{ensure_exists}
use courtknights.Application.Auth.{bootstrap_admin, bootstrap_profile}
use courtknights.Application.Auth.Users.Bootstrap.{bootstrap_admin_skipped, bootstrap_admin_users}
use courtknights.Cmd.Config.{Config, BootstrapConfig}
use courtknights.Cmd.Run.{World, auth_manager, run_bootstrap}

-- A database with a user is left as it is.
pub run_bootstrap_skipped :
    (w : World) (cfg : Config) (adapter : Adapter) (b : BootstrapConfig) (s : Database)
    → ltb 0 (length s.users) ≡ true
    → run_bootstrap b (auth_manager w cfg adapter) s ≡ (ok tt, s)
unfolding run_bootstrap bootstrap_admin
run_bootstrap_skipped w cfg adapter b s h =
    elim (Bool-cases (b.email == "" || (b.name == "" || b.pat == ""))) [
      | inl e ↦ rw e refl
      | inr e ↦ rw (e, bootstrap_admin_skipped w.env b.email b.name b.pat s h) refl
    ]

-- EnsureExists writes no user.
ensure_exists_users :
    (id : Uuid) (name : String) (s : Database) → (ensure_exists id name s).1.users ≡ s.users
unfolding ensure_exists
ensure_exists_users id name s = ground arith

-- An action that ends in a value leaves the state of the one before it, whatever it wraps.
wrapped_state :
    {A B : Type 0} (f g : Error → Error) (r : Result A × Database) (b c : B) (t : Database)
    → continue (λ _. pure b) (rewrap f (rewrap g r)) ≡ (ok c, t)
    → r.1 ≡ t
wrapped_state f g (ok a, s) b c t h = ap (λ q. q.1) h
wrapped_state f g (err e, s) b c t h = absurd (cc h)

module _ (w : World) (cfg : Config) (adapter : Adapter) where
  bootstrap_profile_users :
      (made : Option User × String) (token : String) (s t : Database)
      → bootstrap_profile (auth_manager w cfg adapter) made s ≡ (ok token, t)
      → s.users ≡ t.users
  unfolding bootstrap_profile courtknights.Application.Profile.ensure_exists
  bootstrap_profile_users (none, raw) token s t h = ap (λ q. q.1.users) h
  bootstrap_profile_users (some u, raw) token s t h =
      sym (ensure_exists_users u.id u.name s)
      ∙ ap (λ q. q.users) (wrapped_state _ _ (ensure_exists u.id u.name s) raw token t h)

  bootstrap_admin_leaves_user :
      (email name raw token : String) (s t : Database)
      → bootstrap_admin (auth_manager w cfg adapter) email name raw s ≡ (ok token, t)
      → ltb 0 (length t.users) ≡ true
  unfolding bootstrap_admin
  bootstrap_admin_leaves_user email name raw token s t h =
      let m = auth_manager w cfg adapter in
      let ask = m.user.bootstrap_admin email name raw in
      let (made, s1, done, h1) =
        bind_ok (within "auth manager: BootstrapAdmin" ask) (bootstrap_profile m) s t token h in
      let there =
        bootstrap_admin_users w.env email name raw s made s1 (rewrap_ok _ (ask s) made s1 done) in
      subst (λ x. ltb 0 (length x) ≡ true) (bootstrap_profile_users made token s1 t h1) there

  run_bootstrap_leaves_user :
      (b : BootstrapConfig) (s t : Database)
      → b.email ≢ ""
      → b.name ≢ ""
      → b.pat ≢ ""
      → run_bootstrap b (auth_manager w cfg adapter) s ≡ (ok tt, t)
      → ltb 0 (length t.users) ≡ true
  unfolding run_bootstrap
  run_bootstrap_leaves_user b s t e n p h =
      let m = auth_manager w cfg adapter in
      let ask = bootstrap_admin m b.email b.name b.pat in
      let filled : (b.email == "" || (b.name == "" || b.pat == "")) ≡ false =
        rw (test_of_ne b.email "" e, test_of_ne b.name "" n, test_of_ne b.pat "" p) refl in
      let (token, s1, done, h1) =
        bind_ok (within "BootstrapAdmin" ask) (λ _. pure tt) s t tt (rw filled at h) in
      let there =
        bootstrap_admin_leaves_user b.email b.name b.pat token s s1
          (rewrap_ok _ (ask s) token s1 done) in
      subst (λ x. ltb 0 (length x.users) ≡ true) (ap (λ q. q.1) h1) there

-- Once a start of the server has made its bootstrap with an email, a name and a token, the bootstrap
-- of any later start, with any settings and any token, succeeds and leaves the database as it is.
pub run_bootstrap_once :
    (w : World) (cfg cfg' : Config) (adapter adapter' : Adapter) (b b' : BootstrapConfig)
    (s t : Database)
    → b.email ≢ ""
    → b.name ≢ ""
    → b.pat ≢ ""
    → run_bootstrap b (auth_manager w cfg adapter) s ≡ (ok tt, t)
    → run_bootstrap b' (auth_manager w cfg' adapter') t ≡ (ok tt, t)
run_bootstrap_once w cfg cfg' adapter adapter' b b' s t e n p h =
    run_bootstrap_skipped w cfg' adapter' b' t
      (run_bootstrap_leaves_user w cfg adapter b s t e n p h)
