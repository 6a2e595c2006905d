-- ===== src/Domain/User.antt =====
-- api/internal/domain/user: the User entity and the contract of its repository. A Role and a
-- Provider are texts, as in the source, and a UUID is its 128-bit number.
use courtknights.Common.{ℕ, String, Bool, ◌==◌}
use courtknights.Action.{Action}

abbrev pub Uuid : Type 0
Uuid = ℕ

abbrev pub Time : Type 0
Time = ℕ

abbrev pub Role : Type 0
Role = String

abbrev pub role_admin : Role
role_admin = "admin"

abbrev pub role_user : Role
role_user = "user"

abbrev pub Provider : Type 0
Provider = String

abbrev pub provider_google : Provider
provider_google = "google"

abbrev pub provider_github : Provider
provider_github = "github"

abbrev pub provider_pat : Provider
provider_pat = "pat"

pub record User : Type 0 where
  pub id : Uuid
  pub email : String
  pub name : String
  pub role : Role
  pub provider : Provider
  pub provider_id : String
  pub created_at : Time
  pub updated_at : Time

unfoldable pub is_admin : User → Bool
is_admin u = u.role == role_admin

-- What a caller of Upsert fills in; the rest of the User it passes is zero.
pub record NewUser : Type 0 where
  pub email : String
  pub name : String
  pub role : Role
  pub provider : Provider
  pub provider_id : String

-- The store behind the repository has states `S`.
pub record UserRepository (S : Type 0) : Type 0 where
  pub find_by_id : Uuid → Action S User
  pub find_by_provider : Provider → String → Action S User
  pub find_by_email : String → Action S User
  pub upsert : NewUser → Action S User
  pub update_role : Uuid → Role → Action S (Unit {0})
  pub count_all : Action S ℕ
