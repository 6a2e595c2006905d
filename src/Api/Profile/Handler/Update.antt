-- ===== src/Api/Profile/Handler/Update.antt =====
-- A PATCH of a profile from the request to the store: `updateMyProfile` over the ProfileManager.
use courtknights.Common.{
  String, ◌≡◌, inl, inr, refl, sym, subst, ◌∙◌, some, Option, ◌==◌, eq_iff, ne_of_test, Bool-cases,
  Option-cases,
}
use courtknights.Common.Dict.{Dict}
use courtknights.Action.{Result, ok, err}
use courtknights.Errors.{message}
use courtknights.Domain.User.{Uuid}
use courtknights.Domain.Profile.{Profile, ProfilePatch, ProfileRepository}
use courtknights.Domain.Profile.Location.{Dataset}
use courtknights.Domain.Profile.Contract.{IsProfileStore}
use courtknights.Application.Profile as Application
use courtknights.Application.Profile.{apply_location_rules}
use courtknights.Application.Profile.Location.{apply_location_rules-is_not}
use courtknights.Application.Profile.Update.{
  Outcome, missing, unwritten, rejected, failed, written, update-Outcome,
}
use courtknights.Api.Response.{answer}
use courtknights.Api.Common.{Context}
use courtknights.Api.Profile.Patch.{Member, parse_profile_patch}
use courtknights.Api.Profile.Patch.Members.{parse_profile_patch_iff}
use courtknights.Api.Profile.Handler.{
  ProfileManager, PatchRequest, Formats, Body, malformed, trailing, no_object, single_object,
  is_accepted, decode_body, decode_merge_patch, decoded, update_my_profile, update_decoded, shown,
  update_failure,
}
use courtknights.Api.Profile.Handler.Answers.{
  update_failure-Told, Answered, not_found, unchanged, bad_location, refused_write, merged, IsUser,
  IsPatchType, Handled, unidentified, unsupported, meaningless, patched, is_accepted_iff,
}

-- `NewProfileManager`
abbrev pub new_profile_manager : {S : Type 0} → Dataset → ProfileRepository S → ProfileManager S
new_profile_manager d repo = record {
  ensure_exists = Application.ensure_exists d repo;
  get_by_user_id = Application.get_by_user_id d repo;
  update = Application.update d repo;
  list = Application.list d repo;
}

module _ {S : Type 0} (f : Formats) (d : Dataset) (repo : ProfileRepository S)
    (get : Uuid → S → Option Profile) where
  abbrev manager : ProfileManager S
  manager = new_profile_manager d repo

  module _ (contract : IsProfileStore repo get) where
    Outcome-Answered :
        (u : Uuid) (patch : ProfilePatch) (s : S) (x : Result Profile × S)
        → Outcome d repo get contract u patch s x
        → Answered f d repo get u patch s (answer (shown f) update_failure x)
    Outcome-Answered u patch s x (missing e absent eq nf) = not_found absent (rw (eq, nf) refl)
    Outcome-Answered u patch s x (unwritten p there empty eq) = unchanged p there empty (rw eq refl)
    Outcome-Answered u patch s x (rejected p e there full bad eq invalid) =
        bad_location p e there full bad
          (rw (eq, apply_location_rules-is_not d p patch e bad, invalid) refl)
    Outcome-Answered u patch s x (failed p ruled e there full good failing eq) =
        refused_write p ruled e there full good failing (rw eq (update_failure-Told e)) (rw eq refl)
    Outcome-Answered u patch s x (written p ruled t s' there full good eq after others) =
        merged p ruled t s' there full good (rw eq refl) after others

    module _ (r : PatchRequest) (c : Context) (s : S) (u : Uuid)
        (user : IsUser f d repo get c u) where
      members-Handled :
          (t : String) (members : Dict Member) (q : Result ProfilePatch)
          → r.media_type ≡ some t
          → IsPatchType f d repo get t
          → r.body ≡ single_object members
          → parse_profile_patch f.parse_date members ≡ q
          → Handled f d repo get r c s (update_decoded f manager u (decoded members) s)
      members-Handled t members (ok patch) typed is_type body e =
          patched u t patch user typed is_type
            (record {
              members = members;
              body_eq = body;
              reads = (parse_profile_patch_iff f.parse_date members patch).0 e;
            })
            (rw e (
              Outcome-Answered u patch s (Application.update d repo u patch s)
                (update-Outcome d repo get contract u patch s)))
      members-Handled t members (err failure) typed is_type body e =
          meaningless u t (message failure) user typed is_type
            (λ patch p. absurd (
              cc (
                (parse_profile_patch_iff f.parse_date p.members patch).1 p.reads,
                p.body_eq,
                body,
                e,
              )))
            (rw e refl)

      body-Handled :
          (t : String) (body : Body)
          → r.media_type ≡ some t
          → IsPatchType f d repo get t
          → r.body ≡ body
          → Handled f d repo get r c s (update_decoded f manager u (decode_body body) s)
      body-Handled t malformed typed is_type e =
          meaningless u t _ user typed is_type (λ patch p. absurd (cc (p.body_eq, e))) refl
      body-Handled t trailing typed is_type e =
          meaningless u t _ user typed is_type (λ patch p. absurd (cc (p.body_eq, e))) refl
      body-Handled t no_object typed is_type e =
          meaningless u t _ user typed is_type (λ patch p. absurd (cc (p.body_eq, e))) refl
      body-Handled t (single_object members) typed is_type e =
          members-Handled t members (parse_profile_patch f.parse_date members) typed is_type e refl

      user-Handled :
          Handled f d repo get r c s (update_decoded f manager u (decode_merge_patch r) s)
      unfolding decode_merge_patch
      user-Handled = elim (Option-cases r.media_type) [
        | inl e ↦ rw e (unsupported u user (λ t h _. absurd (cc (h, e))) refl)
        | inr (t, e) ↦ elim (Bool-cases (is_accepted (some t))) [
          | inl a ↦
              let decodes : update_decoded f manager u (decode_merge_patch r) s
                  ≡ update_decoded f manager u (decode_body r.body) s =
                rw (e, a) refl in
              subst (Handled f d repo get r c s) (sym decodes)
                (body-Handled t r.body e ((is_accepted_iff f d repo get t).0 a) refl)
          | inr a ↦
              rw (e, a)
                (unsupported u user
                  (λ q h k.
                    let same : q ≡ t = cc (h, e) in
                    absurd (cc ((is_accepted_iff f d repo get q).1 k, same, a)))
                  refl)
        ]
      ]

    -- What any request to change one's profile comes to, over a repository that keeps its contract.
    -- Without a sub claim that is an id it is answered with 400, with another media type with 415,
    -- and with 400 where the body is no object that means a patch, and nothing is written. Else the
    -- user gets 404 without a profile; the stored profile where the patch is empty; 400 where the
    -- location rules refuse it; 404, 400, 409 or 500 for an error of the repository, by the
    -- sentinel that it wraps; and else the merge of the ruled patch, which then is stored, while
    -- every other profile stays. On no other branch is anything written.
    pub update_my_profile-Handled :
        (r : PatchRequest) (c : Context) (s : S)
        → Handled f d repo get r c s (update_my_profile f manager r c s)
    unfolding update_my_profile
    update_my_profile-Handled r c s = elim (Option-cases c.sub) [
      | inl e ↦ rw e (unidentified _ (λ u user. absurd (cc (user.set_eq, e))) refl)
      | inr (sub, e) ↦ elim (Bool-cases (sub == "")) [
        | inl empty ↦
            rw (e, empty)
              (unidentified _
                (λ u user.
                  let same : user.sub ≡ sub = cc (user.set_eq, e) in
                  user.nonempty (same ∙ (eq_iff sub "").0 empty))
                refl)
        | inr full ↦ elim (Option-cases (f.parse_uuid sub)) [
          | inl bad ↦
              rw (e, full, bad)
                (unidentified _
                  (λ u user.
                    let same : user.sub ≡ sub = cc (user.set_eq, e) in
                    absurd (cc (user.parsed, same, bad)))
                  refl)
          | inr (u, id) ↦
              let identified : update_my_profile f manager r c s
                  ≡ update_decoded f manager u (decode_merge_patch r) s =
                rw (e, full, id) refl in
              subst (Handled f d repo get r c s) (sym identified) (
                user-Handled r c s u (record {
                  sub = sub;
                  set_eq = e;
                  nonempty = ne_of_test sub "" full;
                  parsed = id;
                }))
        ]
      ]
    ]
