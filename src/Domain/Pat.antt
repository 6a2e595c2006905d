-- ===== src/Domain/Pat.antt =====
-- api/internal/domain/pat: personal access tokens and the contract of their repository.
use courtknights.Common.{String, Bool, false, Option, none, some, List, ltb}
use courtknights.Action.{Action}
use courtknights.Domain.User.{Uuid, Time}

pub record Pat : Type 0 where
  pub id : Uuid
  pub user_id : Uuid
  pub key_hash : String
  pub salt : String
  pub expires_at : Option Time
  pub created_at : Time

-- The clock is an argument: `now` is what `time.Now()` returns.
unfoldable pub is_expired : Pat → Time → Bool
is_expired p now = elim p.expires_at [ none ↦ false | some t ↦ ltb t now ]

-- What a caller of Save fills in.
pub record NewPat : Type 0 where
  pub user_id : Uuid
  pub key_hash : String
  pub salt : String
  pub expires_at : Option Time

pub record PatRepository (S : Type 0) : Type 0 where
  pub find_all : Action S (List Pat)
  pub find_by_id : Uuid → Action S Pat
  pub save : NewPat → Action S Pat
  pub delete : Uuid → Action S (Unit {0})
