-- ===== src/Api/Profile/Listing.antt =====
-- `listUsers` of api/internal/api/profile/handler.go, on the texts of its query parameters.
pub mod Params
use Prim.Native.Char.{code}
use Prim.Native.String
use courtknights.Common.{
  ℕ, ◌+◌, ◌-◌, ◌*◌, ◌^◌, String, ◌⧺◌, Bool, true, false, not, ◌&&◌, ◌||◌, Option, none, some, List,
  [], ◌∷◌, map, contains, codes, trim_space, quote, eqb, leb, ltb, if◌then◌else◌, ◌==◌,
}
use courtknights.Action.{Result, ok, err}
use courtknights.Errors.{Error}
use courtknights.Domain.User.{Uuid}
use courtknights.Domain.Profile.{ListParams, ProfileListItem}
use courtknights.Api.Response.{Response, json, http_error, answer}
use courtknights.Api.Profile.Handler.{ProfileManager, Decoded, decoded, refused}

abbrev pub allowed_list_fields : List String
allowed_list_fields =
    "id" ∷ "display_name" ∷ "city" ∷ "region" ∷ "country" ∷ "gender" ∷ "category" ∷ []

-- The digits of `strconv.Atoi`, read on from `n`; no digit is an error.
digits : ℕ → List ℕ → Option ℕ
digits n [] = some n
digits n (c ∷ s) =
    let rest = digits (n * 10 + (c - 48)) s in if leb 48 c && leb c 57 then rest else none

unsigned : List ℕ → Option ℕ
unfolding digits
unsigned [] = none
unsigned (c ∷ s) = digits 0 (c ∷ s)

without_plus : List ℕ → Option ℕ
unfolding unsigned
without_plus [] = none
without_plus (c ∷ s) = if eqb c 43 then unsigned s else unsigned (c ∷ s)

abbrev from_one : Option ℕ → Option ℕ
from_one none = none
from_one (some n) = if leb 1 n && ltb n (2 ^ 63) then some n else none

-- `n, err := strconv.Atoi(v)`, where the caller refuses an error and any n below 1: a text with a
-- minus sign is the one or the other.
unfoldable pub positive : String → Option ℕ
unfolding without_plus
positive v = from_one (without_plus (codes v))

abbrev page_read : Option ℕ → Decoded ℕ
page_read none = refused 400 "page must be a positive integer"
page_read (some n) = decoded n

unfoldable pub page_of : String → Decoded ℕ
unfolding positive
page_of v = if v == "" then decoded 1 else page_read (positive v)

abbrev page_size_read : Option ℕ → Decoded ℕ
page_size_read none = refused 400 "page_size must be a positive integer"
page_size_read (some n) =
    if ltb 100 n then refused 400 "page_size must not exceed 100" else decoded n

unfoldable pub page_size_of : String → Decoded ℕ
unfolding positive
page_size_of v = if v == "" then decoded 20 else page_size_read (positive v)

abbrev to_first : String → List String → List String
to_first c [] = c ∷ []
to_first c (s ∷ parts) = (c ⧺ s) ∷ parts

-- `strings.Split(v, ",")`
split : String → List String
split String.[] = "" ∷ []
split (String.◌∷◌ c s) =
    let parts = split s in
    if eqb (code c) 44 then "" ∷ parts else to_first (String.◌∷◌ c String.[]) parts

abbrev prepended : String → Decoded (List String) → Decoded (List String)
prepended f (decoded fields) = decoded (f ∷ fields)
prepended f (refused status complaint) = refused status complaint

-- The loop over the names; the first that is not allowed ends it.
read_fields : List String → Decoded (List String)
unfolding trim_space quote
read_fields [] = decoded []
read_fields (part ∷ parts) =
    let rest = read_fields parts in
    if contains allowed_list_fields (trim_space part)
    then prepended (trim_space part) rest
    else refused 400 ("unknown field: " ⧺ quote (trim_space part))

unfoldable pub fields_of : String → Decoded (List String)
unfolding split read_fields
fields_of v = if v == "" then decoded [] else read_fields (split v)

pub record ListItemResponse : Type 0 where
  pub id : Option String
  pub display_name : Option String
  pub city : Option String
  pub region : Option String
  pub country : Option String
  pub gender : Option String
  pub category : Option String

pub record ListUsersResponse : Type 0 where
  pub data_items : List ListItemResponse
  pub total : ℕ
  pub page : ℕ
  pub page_size : ℕ

-- The value of a field where all fields are wanted, or this one is.
abbrev wanted : List String → String → Option String → Option String
wanted [] name v = v
wanted (f ∷ fields) name v = if contains (f ∷ fields) name then v else none

abbrev shown_id : (Uuid → String) → Option Uuid → Option String
shown_id uuid_string none = none
shown_id uuid_string (some id) = some (uuid_string id)

module _ (uuid_string : Uuid → String) where
  unfoldable pub to_list_item_response : List String → ProfileListItem → ListItemResponse
  to_list_item_response fields item = record {
    id = wanted fields "id" (shown_id uuid_string item.id);
    display_name = wanted fields "display_name" item.display_name;
    city = wanted fields "city" item.city;
    region = wanted fields "region" item.region;
    country = wanted fields "country" item.country;
    gender = wanted fields "gender" item.gender;
    category = wanted fields "category" item.category;
  }

  abbrev pub listed : ListParams → List ProfileListItem × ℕ → Response ListUsersResponse
  listed params (items, total) = json 200 (record {
    data_items = map (to_list_item_response params.fields) items;
    total = total;
    page = params.page;
    page_size = params.page_size;
  })

  module _ {S : Type 0} (m : ProfileManager S) where
    abbrev pub ask : ListParams → S → Response ListUsersResponse × S
    ask params s =
        answer (listed params) (λ e. http_error 500 "failed to list users") (m.list params s)

    abbrev with_fields : ℕ → ℕ → Decoded (List String) → S → Response ListUsersResponse × S
    with_fields page page_size (refused status complaint) s = (http_error status complaint, s)
    with_fields page page_size (decoded fields) s =
        ask (record { page = page; page_size = page_size; fields = fields }) s

    abbrev with_page_size : ℕ → Decoded ℕ → String → S → Response ListUsersResponse × S
    with_page_size page (refused status complaint) fields s = (http_error status complaint, s)
    with_page_size page (decoded page_size) fields s =
        with_fields page page_size (fields_of fields) s

    abbrev with_page : Decoded ℕ → String → String → S → Response ListUsersResponse × S
    with_page (refused status complaint) page_size fields s = (http_error status complaint, s)
    with_page (decoded page) page_size fields s =
        with_page_size page (page_size_of page_size) fields s

    unfoldable pub list_users : String → String → String → S → Response ListUsersResponse × S
    unfolding page_of page_size_of fields_of to_list_item_response
    list_users page page_size fields s = with_page (page_of page) page_size fields s
