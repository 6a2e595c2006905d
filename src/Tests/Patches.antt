-- ===== src/Tests/Patches.antt =====
-- Requests to the profile handlers.
use courtknights.Common.{
  ◌≡◌, ◌↔◌, refl, none, some, [], ◌∷◌, if◌then◌else◌, ◌==◌, trim_space, is_blank,
}
use courtknights.Common.Dict.{Dict}
use courtknights.Action.{ok}
use courtknights.Api.Response.{http_error}
use courtknights.Api.Common.{Context}
use courtknights.Api.Profile.Patch.{Member, scalar, text, parse_profile_patch}
use courtknights.Api.Profile.Patch.Members.{Reads, parse_profile_patch_iff}
use courtknights.Api.Profile.Handler.{Formats, PatchRequest, single_object, update_my_profile}
use courtknights.Api.Profile.Handler.Update.{new_profile_manager, update_my_profile-Handled}
use courtknights.Api.Profile.Handler.Answers.{Handled}
use courtknights.Api.Profile.Listing.{list_users, positive, fields_of}
use courtknights.Api.Profile.Listing.Params.{Asked, list_users-Asked}
use courtknights.Api.Profile.Handler.{decoded}
use courtknights.Tests.Profiles.{countries, to_france, memory, look, memory_contract, start}

abbrev formats : Formats
formats = record {
  parse_uuid = λ s. if s == "7" then some 7 else none;
  uuid_string = λ _. "7";
  parse_date = λ s. if s == "2000-02-03" then some 12 else none;
  date_string = λ _. "2000-02-03";
  time_string = λ _. "2000-02-03T00:00:00Z";
}

abbrev france_members : Dict Member
france_members = ("country", scalar (text "FR")) ∷ []

abbrev player_context : Context
player_context = record { sub = some "7"; email = some "ana@example.com"; role = some "user" }

abbrev request : PatchRequest
request = record {
  media_type = some "application/merge-patch+json";
  body = single_object france_members;
}

reads_france : parse_profile_patch formats.parse_date france_members ≡ ok to_france
unfolding parse_profile_patch is_blank
reads_france = refl

parse_profile_patch_iff_example :
    (parse_profile_patch formats.parse_date france_members ≡ ok to_france)
    ↔ Reads formats.parse_date france_members to_france
parse_profile_patch_iff_example =
    parse_profile_patch_iff formats.parse_date france_members to_france

update_my_profile-Handled_example :
    Handled formats countries memory look request player_context start (
      update_my_profile formats (new_profile_manager countries memory) request player_context start)
update_my_profile-Handled_example =
    update_my_profile-Handled formats countries memory look memory_contract request player_context
      start

list_users-Asked_example :
    Asked
      (λ _. "7")
      (new_profile_manager countries memory)
      start
      (list_users (λ _. "7") (new_profile_manager countries memory) "2" "101" "id, city" start)
list_users-Asked_example =
    list_users-Asked (λ _. "7") (new_profile_manager countries memory) "2" "101" "id, city" start

too_many :
    (list_users (λ _. "7") (new_profile_manager countries memory) "2" "101" "id" start).0
    ≡ http_error 400 "page_size must not exceed 100"
unfolding list_users
too_many = refl

read_params :
    (positive "+20" ≡ some 20)
    × (positive "-2" ≡ none)
    × (positive "2a" ≡ none)
    × (fields_of "id, city" ≡ decoded ("id" ∷ "city" ∷ []))
unfolding positive fields_of trim_space
read_params = (refl, refl, refl, refl)
