-- ===== src/Api/Profile/Handler.antt =====
-- api/internal/api/profile/handler.go, but for `listUsers`, and api/internal/api/common/mergepatch.go.
-- The parsers of media types, UUIDs and dates, and the formats of times are parameters.
pub mod Answers
pub mod Update
use courtknights.Common.{
  ℕ, String, Bool, Option, none, some, List, false, ◌||◌, ◌==◌, if◌then◌else◌,
}
use courtknights.Common.Dict.{Dict}
use courtknights.Action.{Action, Result, ok, err}
use courtknights.Errors.{Error, is, message, profile_not_found, invalid_location, profile_conflict}
use courtknights.Domain.User.{Uuid, Time}
use courtknights.Domain.Profile.{Profile, ProfilePatch, ListParams, ProfileListItem}
use courtknights.Api.Response.{Response, json, http_error, answer}
use courtknights.Api.Common.{Context}
use courtknights.Api.Profile.Patch.{Member, parse_profile_patch}

-- The interface ProfileManager.
pub record ProfileManager (S : Type 0) : Type 0 where
  pub ensure_exists : Uuid → String → Action S (Unit {0})
  pub get_by_user_id : Uuid → Action S Profile
  pub update : Uuid → ProfilePatch → Action S Profile
  pub list : ListParams → Action S (List ProfileListItem × ℕ)

-- A request body: no JSON value, one that more text follows, a value that is no object, or an object.
pub data Body : Type 0 where
  malformed trailing no_object : Body
  single_object : Dict Member → Body

-- The media type is `none` where `mime.ParseMediaType` fails.
pub record PatchRequest : Type 0 where
  pub media_type : Option String
  pub body : Body

pub record PreferencesResponse : Type 0 where
  pub court_side : Option String
  pub handedness : Option String

pub record ProfileResponse : Type 0 where
  pub user_id : String
  pub display_name : String
  pub city : Option String
  pub region : Option String
  pub country : Option String
  pub gender : Option String
  pub date_of_birth : Option String
  pub category : Option String
  pub preferences : PreferencesResponse
  pub updated_at : String

pub record Formats : Type 0 where
  pub parse_uuid : String → Option Uuid
  pub uuid_string : Uuid → String
  pub parse_date : String → Option Time
  pub date_string : Time → String
  pub time_string : Time → String

-- An error is the status and the message of the HTTPError.
pub data Decoded {ℓ} (A : Type ℓ) : Type ℓ where
  decoded : A → Decoded A
  refused : ℕ → String → Decoded A

abbrev pub is_accepted : Option String → Bool
is_accepted none = false
is_accepted (some t) = t == "application/merge-patch+json" || t == "application/json"

abbrev pub decode_body : Body → Decoded (Dict Member)
decode_body malformed = refused 400 "request body must be a JSON object"
decode_body trailing = refused 400 "request body must contain a single JSON object"
decode_body no_object = refused 400 "request body must be a JSON object"
decode_body (single_object m) = decoded m

unfoldable pub decode_merge_patch : PatchRequest → Decoded (Dict Member)
decode_merge_patch r =
    if is_accepted r.media_type
    then decode_body r.body
    else refused 415 "content type must be application/merge-patch+json or application/json"

abbrev dated : (Time → String) → Option Time → Option String
dated format none = none
dated format (some t) = some (format t)

abbrev get_failure : Error → Response ProfileResponse
get_failure e =
    if is profile_not_found e
    then http_error 404 "profile not found"
    else http_error 500 "failed to get profile"

abbrev pub update_failure : Error → Response ProfileResponse
update_failure e =
    if is profile_not_found e
    then http_error 404 "profile not found"
    else if is invalid_location e
    then http_error 400 (message e)
    else if is profile_conflict e
    then http_error 409 "profile changed concurrently, retry the request"
    else http_error 500 "failed to update profile"

module _ (f : Formats) where
  unfoldable pub to_profile_response : Profile → ProfileResponse
  to_profile_response p = record {
    user_id = f.uuid_string p.user_id;
    display_name = p.display_name;
    city = p.city;
    region = p.region;
    country = p.country;
    gender = p.gender;
    date_of_birth = dated f.date_string p.date_of_birth;
    category = p.category;
    preferences = record {
      court_side = p.preferences.court_side;
      handedness = p.preferences.handedness;
    };
    updated_at = f.time_string p.updated_at;
  }

  abbrev pub shown : Profile → Response ProfileResponse
  shown p = json 200 (to_profile_response p)

  module _ {S : Type 0} (m : ProfileManager S) where
    abbrev get_parsed : String → Option Uuid → S → Response ProfileResponse × S
    get_parsed complaint none s = (http_error 400 complaint, s)
    get_parsed complaint (some id) s = answer shown get_failure (m.get_by_user_id id s)

    -- What a handler does with the sub claim that the middleware has set.
    abbrev with_sub :
        (Uuid → S → Response ProfileResponse × S) → Option String → S → Response ProfileResponse × S
    with_sub run none s = (http_error 400 "missing sub claim", s)
    with_sub run (some sub) s =
        if sub == "" then (http_error 400 "missing sub claim", s) else elim (f.parse_uuid sub) [
          | none ↦ (http_error 400 "invalid sub claim", s)
          | some id ↦ run id s
        ]

    unfoldable pub get_my_profile : Context → S → Response ProfileResponse × S
    unfolding to_profile_response
    get_my_profile c s = with_sub (λ id t. answer shown get_failure (m.get_by_user_id id t)) c.sub s

    unfoldable pub get_user_profile : String → S → Response ProfileResponse × S
    unfolding to_profile_response
    get_user_profile id s = get_parsed "invalid user id" (f.parse_uuid id) s

    abbrev update_patched : Uuid → Result ProfilePatch → S → Response ProfileResponse × S
    update_patched id (err e) s = (http_error 400 (message e), s)
    update_patched id (ok patch) s = answer shown update_failure (m.update id patch s)

    abbrev pub update_decoded : Uuid → Decoded (Dict Member) → S → Response ProfileResponse × S
    update_decoded id (refused status complaint) s = (http_error status complaint, s)
    update_decoded id (decoded members) s =
        update_patched id (parse_profile_patch f.parse_date members) s

    unfoldable pub update_my_profile : PatchRequest → Context → S → Response ProfileResponse × S
    unfolding to_profile_response decode_merge_patch parse_profile_patch
    update_my_profile r c s = with_sub (λ id t. update_decoded id (decode_merge_patch r) t) c.sub s
