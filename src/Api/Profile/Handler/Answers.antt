-- ===== src/Api/Profile/Handler/Answers.antt =====
-- What `updateMyProfile` of api/internal/api/profile/handler.go may answer.
use courtknights.Common.{
  String, ◌≡◌, ◌≢◌, ◌⊎◌, ◌↔◌, inl, inr, refl, some, none, Option, true, false, arith, eq_iff,
  Bool-cases,
}
use courtknights.Common.Dict.{Dict}
use courtknights.Action.{ok, err}
use courtknights.Errors.{
  Error, is, message, wrap, profile_not_found, invalid_location, profile_conflict,
}
use courtknights.Domain.User.{Uuid, Time}
use courtknights.Domain.Profile.{Profile, ProfilePatch, is_empty, ProfileRepository}
use courtknights.Domain.Profile.Merge.{merge}
use courtknights.Domain.Profile.Location.{Dataset}
use courtknights.Application.Profile.{apply_location_rules}
use courtknights.Api.Response.{Response, json, http_error}
use courtknights.Api.Common.{Context}
use courtknights.Api.Profile.Patch.{Member}
use courtknights.Api.Profile.Patch.Members.{Reads}
use courtknights.Api.Profile.Handler.{
  PatchRequest, ProfileResponse, Formats, single_object, is_accepted, to_profile_response,
  update_failure,
}

-- The answer to an error `e` of the repository: the first of the three sentinels that it wraps
-- decides.
pub data Told (e : Error) (r : Response ProfileResponse) : Type 0 where
  told_missing : is profile_not_found e ≡ true → r ≡ http_error 404 "profile not found" → Told e r
  told_invalid :
      is profile_not_found e ≡ false
      → is invalid_location e ≡ true
      → r ≡ http_error 400 (message (wrap "profile manager: Update" e))
      → Told e r
  told_conflict :
      is profile_not_found e ≡ false
      → is invalid_location e ≡ false
      → is profile_conflict e ≡ true
      → r ≡ http_error 409 "profile changed concurrently, retry the request"
      → Told e r
  told_failure :
      is profile_not_found e ≡ false
      → is invalid_location e ≡ false
      → is profile_conflict e ≡ false
      → r ≡ http_error 500 "failed to update profile"
      → Told e r

pub update_failure-Told : (e : Error) → Told e (update_failure (wrap "profile manager: Update" e))
unfolding is
update_failure-Told e = elim (Bool-cases (is profile_not_found e)) [
  | inl m ↦ told_missing m (rw m refl)
  | inr m ↦ elim (Bool-cases (is invalid_location e)) [
    | inl i ↦ told_invalid m i (rw (m, i) refl)
    | inr i ↦ elim (Bool-cases (is profile_conflict e)) [
      | inl c ↦ told_conflict m i c (rw (m, i, c) refl)
      | inr c ↦ told_failure m i c (rw (m, i, c) refl)
    ]
  ]
]

module _ {S : Type 0} (f : Formats) (d : Dataset) (repo : ProfileRepository S)
    (get : Uuid → S → Option Profile) where
  -- What the user `u` is answered to a patch in the store `s`, and the store that is left.
  pub data Answered (u : Uuid) (patch : ProfilePatch) (s : S) (r : Response ProfileResponse × S)
      : Type 0 where
    not_found : get u s ≡ none → r ≡ (http_error 404 "profile not found", s) → Answered u patch s r
    unchanged :
        (p : Profile)
        → get u s ≡ some p
        → is_empty patch ≡ true
        → r ≡ (json 200 (to_profile_response f p), s)
        → Answered u patch s r
    bad_location :
        (p : Profile) (e : Error)
        → get u s ≡ some p
        → is_empty patch ≡ false
        → apply_location_rules d p patch ≡ err e
        → r ≡ (http_error 400 (message e), s)
        → Answered u patch s r
    refused_write :
        (p : Profile) (ruled : ProfilePatch) (e : Error)
        → get u s ≡ some p
        → is_empty patch ≡ false
        → apply_location_rules d p patch ≡ ok ruled
        → repo.update u ruled s ≡ (err e, s)
        → Told e r.0
        → r.1 ≡ s
        → Answered u patch s r
    merged :
        (p : Profile) (ruled : ProfilePatch) (t : Time) (s' : S)
        → get u s ≡ some p
        → is_empty patch ≡ false
        → apply_location_rules d p patch ≡ ok ruled
        → r ≡ (json 200 (to_profile_response f (record (merge ruled p) { updated_at = t })), s')
        → get u s' ≡ some (record (merge ruled p) { updated_at = t })
        → ((v : Uuid) → v ≢ u → get v s' ≡ get v s)
        → Answered u patch s r

  -- The middleware has set a sub claim that is the id `u`.
  pub record IsUser (c : Context) (u : Uuid) : Type 0 where
    pub sub : String
    pub set_eq : c.sub ≡ some sub
    pub nonempty : sub ≢ ""
    pub parsed : f.parse_uuid sub ≡ some u

  abbrev pub IsPatchType : String → Type 0
  IsPatchType t = (t ≡ "application/merge-patch+json") ⊎ (t ≡ "application/json")

  -- The request has an accepted media type, and is one object that means the patch.
  pub record IsPatch (r : PatchRequest) (patch : ProfilePatch) : Type 0 where
    pub members : Dict Member
    pub body_eq : r.body ≡ single_object members
    pub reads : Reads f.parse_date members patch

  -- What a request to change one's profile comes to.
  pub data Handled (r : PatchRequest) (c : Context) (s : S) (x : Response ProfileResponse × S)
      : Type 0 where
    unidentified :
        (m : String) → ((u : Uuid) → IsUser c u → ⊥) → x ≡ (http_error 400 m, s) → Handled r c s x
    unsupported :
        (u : Uuid)
        → IsUser c u
        → ((t : String) → r.media_type ≡ some t → IsPatchType t → ⊥)
        → x ≡ (
          http_error 415 "content type must be application/merge-patch+json or application/json",
          s,
        )
        → Handled r c s x
    meaningless :
        (u : Uuid) (t m : String)
        → IsUser c u
        → r.media_type ≡ some t
        → IsPatchType t
        → ((patch : ProfilePatch) → IsPatch r patch → ⊥)
        → x ≡ (http_error 400 m, s)
        → Handled r c s x
    patched :
        (u : Uuid) (t : String) (patch : ProfilePatch)
        → IsUser c u
        → r.media_type ≡ some t
        → IsPatchType t
        → IsPatch r patch
        → Answered u patch s x
        → Handled r c s x

  pub is_accepted_iff : (t : String) → (is_accepted (some t) ≡ true) ↔ IsPatchType t
  is_accepted_iff t =
      ground (arith, eq_iff t "application/merge-patch+json", eq_iff t "application/json")
