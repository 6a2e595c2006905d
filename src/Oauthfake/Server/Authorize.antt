-- ===== src/Oauthfake/Server/Authorize.antt =====
-- The login of tools/oauthfake/server.go: `authorizeForm` and `authorizeSubmit`. A query and a form
-- are maps with one value for a name; `net/url` is a parameter.
use courtknights.Common.{
  ℕ, String, not, ◌&&◌, ◌||◌, Option, none, some, List, [], ◌∷◌, ◌==◌, if◌then◌else◌,
}
use courtknights.Common.Dict.{Dict}
use courtknights.Oauthfake.Identity.{Identity, no_identity, new_identity, with_email_verified}
use courtknights.Oauthfake.Store.{Store, issue_code}
use courtknights.Oauthfake.Server.{Answer, http_error, redirect, login_page, get}

-- A parsed URL, with the rest of it in a type of its own.
pub record Url (U : Type 0) : Type 0 where
  pub scheme : String
  pub host : String
  pub rest : U

-- `net/url`: Parse, String, and a URL with these parameters set in its query.
pub record Urls (U : Type 0) : Type 0 where
  pub parse : String → Option (Url U)
  pub to_string : Url U → String
  pub with_query : Url U → Dict String → Url U

module _ {U : Type 0} (urls : Urls U) where
  abbrev absolute : Option (Url U) → Option (Url U)
  absolute none = none
  absolute (some u) =
      if not (u.scheme == "http") && not (u.scheme == "https") || u.host == "" then none else some u

  unfoldable pub valid_redirect : String → Option (Url U)
  valid_redirect raw = absolute (urls.parse raw)

  abbrev with_state : String → Dict String → Dict String
  with_state state query = if state == "" then query else ("state", state) ∷ query

  unfoldable pub redirect_with_code :
      String → Url U → String → Identity → ℕ → List ℕ → Store → Answer × Store
  unfolding issue_code
  redirect_with_code provider uri state id now bytes s =
      let (code, t) = issue_code provider (urls.to_string uri) id now bytes s in
      (redirect (urls.to_string (urls.with_query uri (with_state state (("code", code) ∷ [])))), t)

  abbrev scripted_login :
      String → Dict String → Url U → Option Identity → ℕ → List ℕ → Store → Answer × Store
  scripted_login provider q uri none now bytes s =
      redirect_with_code provider uri (get q "state")
        (with_email_verified no_identity (get q "fake_email_verified")) now bytes s
  scripted_login provider q uri (some id) now bytes s =
      redirect_with_code provider uri (get q "state")
        (with_email_verified id (get q "fake_email_verified")) now bytes s

  abbrev invalid_authorization : Answer
  invalid_authorization =
      http_error 400
        "invalid authorization request: client_id, redirect_uri and response_type=code are required"

  abbrev form_request : String → Dict String → Option (Url U) → ℕ → List ℕ → Store → Answer × Store
  form_request provider q none now bytes s = (invalid_authorization, s)
  form_request provider q (some uri) now bytes s =
      if not (get q "response_type" == "code") || get q "client_id" == ""
      then (invalid_authorization, s)
      else if get q "fake_user" == ""
      then (login_page provider (urls.to_string uri), s)
      else scripted_login provider q uri
          (new_identity (get q "fake_user") (get q "fake_email") (get q "fake_name")) now bytes s

  -- `authorizeForm`; the result of `newIdentity` is used even where it reports a blank login.
  unfoldable pub authorize_form : String → Dict String → ℕ → List ℕ → Store → Answer × Store
  unfolding get valid_redirect redirect_with_code new_identity with_email_verified
  authorize_form provider q now bytes s =
      form_request provider q (valid_redirect (get q "redirect_uri")) now bytes s

  abbrev submitted :
      String → Dict String → Url U → Option Identity → ℕ → List ℕ → Store → Answer × Store
  submitted provider form uri none now bytes s = (http_error 400 "login is required", s)
  submitted provider form uri (some id) now bytes s =
      redirect_with_code provider uri (get form "state")
        (record id { email_verified = get form "email_unverified" == "" }) now bytes s

  abbrev submit_to : String → Dict String → Option (Url U) → ℕ → List ℕ → Store → Answer × Store
  submit_to provider form none now bytes s = (http_error 400 "invalid redirect_uri", s)
  submit_to provider form (some uri) now bytes s =
      if get form "action" == "deny"
      then (
        redirect (
            urls.to_string (
              urls.with_query uri
                (with_state (get form "state") (("error", "access_denied") ∷ [])))),
        s,
      )
      else submitted provider form uri
          (new_identity (get form "login") (get form "email") (get form "name")) now bytes s

  unfoldable pub authorize_submit :
      String → Option (Dict String) → ℕ → List ℕ → Store → Answer × Store
  unfolding get valid_redirect redirect_with_code new_identity
  authorize_submit provider none now bytes s = (http_error 400 "invalid form", s)
  authorize_submit provider (some form) now bytes s =
      submit_to provider form (valid_redirect (get form "redirect_uri")) now bytes s
