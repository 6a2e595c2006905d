-- ===== src/Infrastructure/Oauth2/Fetched.antt =====
-- fetchUserInfo of google.go and github.go, from the request to the user that it returns.
use courtknights.Common.{
  ℕ, String, ◌⧺◌, ◌≡◌, ◌≢◌, ap, ◌∙◌, true, not, none, some, List, [], ◌∷◌, eqb, arith, inl, inr,
  Bool-cases, Option-cases, find, if◌then◌else◌,
}
use courtknights.Action.{
  Result, ok, err, lift, within, ◌>>=◌, Result-cases, bind_ok, lift_ok, rewrap_ok,
}
use courtknights.Errors.{Error}
use courtknights.Infrastructure.Oauth2.{
  UserInfo, GoogleInfo, GithubInfo, GithubEmail, google_user, github_user, google_fetch_user_info,
  github_fetch_user_info,
}
use courtknights.Infrastructure.Oauth2.Config.{Adapter}
use courtknights.Infrastructure.Oauth2.Requests.{
  Request, Response, Library, get_request, do_request, sent, prefixed, google_info, get_json,
  emails_url, endpoints,
}
use courtknights.Infrastructure.Oauth2.Verified.{google_user_iff, github_user_verified, is_usable}

prefixed_ok :
    {A : Type 0} (prefix : String) (r : Result A) (a : A) → prefixed prefix r ≡ ok a → r ≡ ok a
prefixed_ok prefix (ok a) b h = h
prefixed_ok prefix (err e) b h = absurd (cc h)

module _ {S : Type 0} (lib : Library S) where
  do_request_ok :
      (f g : Error → Error) (r : Request) (s s' : S) (resp : Response)
      → do_request lib f g r s ≡ (ok resp, s')
      → (lib.request_error r.url ≡ none) × (lib.send r s ≡ (ok resp, s'))
  do_request_ok f g r s s' resp h = elim (Option-cases (lib.request_error r.url)) [
    | inl good ↦ elim (Result-cases (lib.send r s)) [
      | inl (q, t, e) ↦ (good, e ∙ rw (good, e) at h)
      | inr (q, t, e) ↦ absurd (cc (rw (good, e) at h))
    ]
    | inr (e, bad) ↦ absurd (cc (rw bad at h))
  ]

  -- The request was answered with the status 200 and a body that decodes to `a`.
  pub record Got {A : Type 0} (decode : String → Result A) (r : Request) (s : S) (a : A) (t : S)
      : Type 0 where
    pub response : Response
    pub body : String
    pub accepted : lib.request_error r.url ≡ none
    pub answered : lib.send r s ≡ (ok response, t)
    pub status_ok : response.status ≡ 200
    pub was_read : response.body ≡ ok body
    pub decoded : decode body ≡ ok a

  decoded_ok :
      {A : Type 0} (prefix : String) (refused : Error) (decode : String → Result A) (status : ℕ)
      (body : String) (a : A)
      → (if not (eqb status 200) then err refused else prefixed prefix (decode body)) ≡ ok a
      → (status ≡ 200) × (decode body ≡ ok a)
  decoded_ok prefix refused decode status body a h = elim (Bool-cases (eqb status 200)) [
    | inl e ↦ (ground arith, prefixed_ok prefix (decode body) a (rw e at h))
    | inr e ↦ absurd (cc (rw e at h))
  ]

  -- The steps of both requests: the request, the body, and the decoder with its prefixes.
  request_ok :
      {A : Type 0} (f g : Error → Error) (read parse : String) (refused : ℕ → String → Error)
      (decode : String → Result A) (r : Request) (s t : S) (a : A)
      → (do_request lib f g r >>= λ resp. lift (prefixed read resp.body) >>= λ body. lift (
            if not (eqb resp.status 200)
            then err (refused resp.status body)
            else prefixed parse (decode body)))
          s
        ≡ (ok a, t)
      → Got decode r s a t
  request_ok f g read parse refused decode r s t a h =
      let (resp, s1, sent, h1) = bind_ok (do_request lib f g r) _ s t a h in
      let (body, s2, was_read, h2) = bind_ok (lift (prefixed read resp.body)) _ s1 t a h1 in
      let (asked, answer) = do_request_ok f g r s s1 resp sent in
      let (the_body, same1) = lift_ok (prefixed read resp.body) s1 s2 body was_read in
      let (all_good, same2) = lift_ok _ s2 t a h2 in
      let (good, decodes) =
        decoded_ok parse (refused resp.status body) decode resp.status body a all_good in
      record {
        response = resp;
        body = body;
        accepted = asked;
        answered = answer ∙ ap (λ q. (ok resp, q)) (same1 ∙ same2);
        status_ok = good;
        was_read = prefixed_ok read resp.body body the_body;
        decoded = decodes;
      }

  abbrev pub google_request : Adapter → String → Request
  google_request a access_token =
      get_request a.user_info_url (("Authorization", "Bearer " ⧺ access_token) ∷ [])

  google_info_ok :
      (a : Adapter) (access_token : String) (s t : S) (info : GoogleInfo)
      → google_info lib a access_token s ≡ (ok info, t)
      → Got lib.google_of_json (google_request a access_token) s info t
  unfolding google_info
  google_info_ok a access_token s t info h =
      request_ok _ _ _ "google: parse userinfo" _ lib.google_of_json (google_request a access_token)
        s t info h

  -- Where Google's adapter returns a user, it has asked the endpoint for the user of the access
  -- token, and the answer had the status 200 and a body with an address that Google verified.
  pub google_fetched :
      (a : Adapter) (access_token : String) (s t : S) (u : UserInfo)
      → google_fetch_user_info (endpoints lib a) access_token s ≡ (ok u, t)
      → (info : GoogleInfo) × Got lib.google_of_json (google_request a access_token) s info t
        × (info.email_verified ≡ true)
        × (info.email ≢ "")
        × (u ≡ record { provider_id = info.sub; email = info.email; name = info.name })
  unfolding google_fetch_user_info
  google_fetched a access_token s t u h =
      let (info, s1, got, h1) = bind_ok (google_info lib a access_token) _ s t u h in
      let (user, same) = lift_ok (google_user info) s1 t u h1 in
      let (verified, nonempty, it) = (google_user_iff info u).0 user in
      (
        info,
        google_info_ok a access_token s t info (got ∙ ap (λ q. (ok info, q)) same),
        verified,
        nonempty,
        it,
      )

  abbrev pub github_request : String → String → Request
  github_request url access_token =
      get_request url (
        ("Authorization", "Bearer " ⧺ access_token)
        ∷ ("Accept", "application/vnd.github+json")
        ∷ [])

  get_json_ok :
      {A : Type 0} (decode : String → Result A) (url access_token : String) (s t : S) (a : A)
      → get_json lib decode url access_token s ≡ (ok a, t)
      → Got decode (github_request url access_token) s a t
  unfolding get_json
  get_json_ok decode url access_token s t a h =
      request_ok _ _ _ "parse" _ decode (github_request url access_token) s t a h

  -- What GitHub answered before its adapter returned the user `u`.
  pub record GithubFetched (a : Adapter) (access_token : String) (s : S) (u : UserInfo) (t : S)
      : Type 0 where
    pub info : GithubInfo
    pub emails : List GithubEmail
    pub address : GithubEmail
    pub between : S
    pub got_user :
        Got lib.github_of_json (github_request a.user_info_url access_token) s info between
    pub got_emails :
        Got lib.emails_of_json (github_request (emails_url a) access_token) between emails t
    pub chosen : find is_usable emails ≡ some address
    pub primary : address.primary ≡ true
    pub verified : address.verified ≡ true
    pub used : address.email ≡ u.email
    pub nonempty : u.email ≢ ""
    pub same_id : u.provider_id ≡ info.id

  -- Where GitHub's adapter returns a user, it has asked for the user and then for the addresses, both
  -- with the access token, both answers had the status 200, the id is that of the user, and the
  -- address is the first one that is primary and verified.
  pub github_fetched :
      (a : Adapter) (access_token : String) (s t : S) (u : UserInfo)
      → github_fetch_user_info (endpoints lib a) access_token s ≡ (ok u, t)
      → GithubFetched a access_token s u t
  unfolding github_fetch_user_info
  github_fetched a access_token s t u h =
      let ask1 = get_json lib lib.github_of_json a.user_info_url access_token in
      let ask2 = get_json lib lib.emails_of_json (emails_url a) access_token in
      let (info, s1, got1, h1) = bind_ok (within "github: userinfo" ask1) _ s t u h in
      let (emails, s2, got2, h2) = bind_ok (within "github: emails" ask2) _ s1 t u h1 in
      let (user, same) = lift_ok (github_user info emails) s2 t u h2 in
      let (e, chosen, primary, verified, used, nonempty, same_id) =
        github_user_verified info emails u user in
      record {
        info = info;
        emails = emails;
        address = e;
        between = s1;
        got_user =
            get_json_ok lib.github_of_json a.user_info_url access_token s s1 info
              (rewrap_ok _ (ask1 s) info s1 got1);
        got_emails =
            get_json_ok lib.emails_of_json (emails_url a) access_token s1 t emails
              (rewrap_ok _ (ask2 s1) emails s2 got2 ∙ ap (λ q. (ok emails, q)) same);
        chosen = chosen;
        primary = primary;
        verified = verified;
        used = used;
        nonempty = nonempty;
        same_id = same_id;
      }
