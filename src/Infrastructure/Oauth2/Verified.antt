-- ===== src/Infrastructure/Oauth2/Verified.antt =====
-- google.go and github.go of api/internal/infrastructure/oauth2: an address is used only where the
-- provider has verified it.
use courtknights.Common.{
  String, ◌≡◌, ◌≢◌, ◌↔◌, refl, sym, ◌∙◌, Bool, true, some, arith, inl, inr, List, [], ◌∷◌, eq_iff,
  ne_of_test, ◌==◌, ◌&&◌, Bool-cases, find,
}
use courtknights.Action.{ok}
use courtknights.Infrastructure.Oauth2.{
  UserInfo, GoogleInfo, GithubInfo, GithubEmail, google_user, github_user, primary_email,
}

module _ (info : GoogleInfo) (u : UserInfo) where
  google_user_sound :
      google_user info ≡ ok u
      → (info.email_verified ≡ true)
        × (info.email ≢ "")
        × (u ≡ record { provider_id = info.sub; email = info.email; name = info.name })
  unfolding google_user
  google_user_sound h = elim (Bool-cases (info.email == "")) [
    | inl e ↦ absurd (cc (rw e at h))
    | inr e ↦ elim (Bool-cases info.email_verified) [
      | inl v ↦ (v, (ne_of_test info.email "" e), sym (cc (rw (e, v) at h)))
      | inr v ↦ absurd (cc (rw (e, v) at h))
    ]
  ]

  google_user_complete :
      (info.email_verified ≡ true)
        × (info.email ≢ "")
        × (u ≡ record { provider_id = info.sub; email = info.email; name = info.name })
      → google_user info ≡ ok u
  unfolding google_user
  google_user_complete (v, n, e) = elim (Bool-cases (info.email == "")) [
    | inl q ↦ absurd (n ((eq_iff info.email "").0 q))
    | inr q ↦ rw (q, v) (cc e)
  ]

  -- Google's adapter returns a user exactly when the answer has an address that Google verified,
  -- and then it is that address.
  pub google_user_iff : (google_user info ≡ ok u) ↔ (
      (info.email_verified ≡ true)
      × (info.email ≢ "")
      × (u ≡ record { provider_id = info.sub; email = info.email; name = info.name }))
  google_user_iff = (google_user_sound, google_user_complete)

abbrev pub is_usable : GithubEmail → Bool
is_usable e = e.primary && e.verified

primary_email-find :
    (emails : List GithubEmail)
    → primary_email emails ≢ ""
    → (e : GithubEmail) × (find is_usable emails ≡ some e)
      × (e.primary ≡ true)
      × (e.verified ≡ true)
      × (e.email ≡ primary_email emails)
unfolding primary_email
primary_email-find [] n = absurd (n refl)
primary_email-find (e ∷ emails) n = elim (Bool-cases (e.primary && e.verified)) [
  | inl p ↦ (e, rw p refl, ground (arith, p), ground (arith, p), rw p refl)
  | inr p ↦ rw p (primary_email-find emails (rw p at n))
]

email_of : (email : String) (v u : UserInfo) → v.email ≡ email → ok v ≡ ok u → email ≡ u.email
email_of email v u e h = cc

id_of : (v u : UserInfo) → ok v ≡ ok u → v.provider_id ≡ u.provider_id
id_of v u h = cc

-- GitHub's adapter returns a user only with the first address that is primary and verified.
pub github_user_verified :
    (info : GithubInfo) (emails : List GithubEmail) (u : UserInfo)
    → github_user info emails ≡ ok u
    → (e : GithubEmail) × (find is_usable emails ≡ some e)
      × (e.primary ≡ true)
      × (e.verified ≡ true)
      × (e.email ≡ u.email)
      × (u.email ≢ "")
      × (u.provider_id ≡ info.id)
unfolding github_user
github_user_verified info emails u h = elim (Bool-cases (primary_email emails == "")) [
  | inl q ↦ absurd (cc (rw q at h))
  | inr q ↦
      let n = ne_of_test (primary_email emails) "" q in
      let (e, f, p, v, m) = primary_email-find emails n in
      let g = email_of (primary_email emails) _ u refl (rw q at h) in
      (e, f, p, v, m ∙ g, (λ k. n (g ∙ k)), sym (id_of _ u (rw q at h)))
]
