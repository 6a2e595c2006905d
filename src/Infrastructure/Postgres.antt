-- ===== src/Infrastructure/Postgres.antt =====
-- The tables users, personal_access_tokens and user_profiles of db/migrations, on which the repositories of
-- api/internal/infrastructure/postgres run their statements. The database answers every query;
-- the lengths of columns are not modelled.
pub mod Users
pub mod Pats
pub mod Profiles
use courtknights.Common.{ℕ, String, Option, List}
use courtknights.Common.Dict.{Dict}
use courtknights.Domain.User.{Uuid, Time, User}
use courtknights.Domain.Pat.{Pat}

-- A row of user_profiles. A DATE is the time of its midnight, and the JSONB of the preferences an
-- object whose members are texts, as the repository writes it.
pub record ProfileRow : Type 0 where
  pub user_id : Uuid
  pub display_name : String
  pub city : Option String
  pub region : Option String
  pub country : Option String
  pub gender : Option String
  pub date_of_birth : Option Time
  pub category : Option String
  pub preferences : Dict String
  pub created_at : Time
  pub updated_at : Time

-- `uuids` are the ids that `gen_random_uuid()` gives to the inserted rows, `drawn` of them so far,
-- and `now` is `NOW()`.
pub record Database : Type 0 where
  pub users : List User
  pub pats : List Pat
  pub profiles : List ProfileRow
  pub uuids : ℕ → Uuid
  pub drawn : ℕ
  pub now : Time
