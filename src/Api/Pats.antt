-- ===== src/Api/Pats.antt =====
-- api/internal/api/pats/handler.go. `uuid.Parse`, `UUID.String` and the parser of RFC 3339 times are
-- parameters.
use courtknights.Common.{String, Option, none, some, List, map, not, ◌==◌, if◌then◌else◌}
use courtknights.Errors.{Error, is, user_not_found, pat_not_found}
use courtknights.Domain.User.{Uuid, Time}
use courtknights.Domain.Pat.{Pat}
use courtknights.Application.Auth.{AuthManager, create_pat, list_pats, revoke_pat}
use courtknights.Api.Response.{Response, json, no_content, http_error, answer}
use courtknights.Api.Common.{Context, is_admin}

pub record Formats : Type 0 where
  pub parse_uuid : String → Option Uuid
  pub uuid_string : Uuid → String
  pub parse_time : String → Option Time

pub record CreateRequest : Type 0 where
  pub user_id : String
  pub expires_at : Option String

pub record PatResponse : Type 0 where
  pub id : String
  pub user_id : String
  pub created_at : Time
  pub expires_at : Option Time

pub data Body : Type 0 where
  token : String → Body
  pats : List PatResponse → Body

abbrev pub admin_required : Response Body
admin_required = http_error 403 "admin role required"

module _ {S : Type 0} (f : Formats) (m : AuthManager S) where
  abbrev create_failure : Error → Response Body
  create_failure e =
      if is user_not_found e
      then http_error 404 "user not found"
      else http_error 500 "failed to create PAT"

  create_for : Uuid → Option Time → S → Response Body × S
  create_for user_id expires_at s =
      answer (λ raw. json 201 (token raw)) create_failure (create_pat m user_id expires_at s)

  abbrev create_until : Uuid → Option Time → S → Response Body × S
  create_until user_id none s = (http_error 400 "invalid expires_at format, use RFC3339", s)
  create_until user_id (some t) s = create_for user_id (some t) s

  create_parsed : Option Uuid → Option String → S → Response Body × S
  unfolding create_for
  create_parsed none expires_at s = (http_error 400 "invalid user_id", s)
  create_parsed (some user_id) none s = create_for user_id none s
  create_parsed (some user_id) (some text) s = create_until user_id (f.parse_time text) s

  create_bound : Option CreateRequest → S → Response Body × S
  unfolding create_parsed
  create_bound none s = (http_error 400 "user_id is required", s)
  create_bound (some req) s =
      if req.user_id == ""
      then (http_error 400 "user_id is required", s)
      else create_parsed (f.parse_uuid req.user_id) req.expires_at s

  unfoldable pub create_pat_handler : Option CreateRequest → Context → S → Response Body × S
  unfolding create_bound
  create_pat_handler bound c s =
      if not (is_admin c) then (admin_required, s) else create_bound bound s

  abbrev shown : Pat → PatResponse
  shown p = record {
    id = f.uuid_string p.id;
    user_id = f.uuid_string p.user_id;
    created_at = p.created_at;
    expires_at = p.expires_at;
  }

  unfoldable pub list_pats_handler : Context → S → Response Body × S
  list_pats_handler c s =
      if not (is_admin c)
      then (admin_required, s)
      else answer (λ all. json 200 (pats (map shown all)))
          (λ e. http_error 500 "failed to list PATs") (list_pats m s)

  abbrev revoke_failure : Error → Response Body
  revoke_failure e =
      if is pat_not_found e
      then http_error 404 "PAT not found"
      else http_error 500 "failed to revoke PAT"

  revoke_parsed : Option Uuid → S → Response Body × S
  revoke_parsed none s = (http_error 400 "invalid PAT id", s)
  revoke_parsed (some id) s = answer (λ _. no_content) revoke_failure (revoke_pat m id s)

  unfoldable pub revoke_pat_handler : String → Context → S → Response Body × S
  unfolding revoke_parsed
  revoke_pat_handler id c s =
      if not (is_admin c) then (admin_required, s) else revoke_parsed (f.parse_uuid id) s
