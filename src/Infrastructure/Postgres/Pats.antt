-- ===== src/Infrastructure/Postgres/Pats.antt =====
-- api/internal/infrastructure/postgres/pat_repository.go, over db/migrations/002 and 004.
use courtknights.Common.{
  suc, String, Bool, not, Option, none, some, List, [], ◌∷◌, ◌++◌, find, reject, is_some, eqb,
  if◌then◌else◌,
}
use courtknights.Action.{Action, Result, ok, err}
use courtknights.Errors.{opaque, sentinel, wrap, pat_not_found}
use courtknights.Domain.User.{Uuid}
use courtknights.Domain.Pat.{Pat, NewPat, PatRepository}
use courtknights.Infrastructure.Postgres.{Database}
use courtknights.Infrastructure.Postgres.Users.{has_id}

abbrev pub is_pat : Uuid → Pat → Bool
is_pat id p = eqb p.id id

-- Without an order, as the rows were inserted.
unfoldable pub find_all : Action Database (List Pat)
find_all db = (ok db.pats, db)

abbrev scanned : Option Pat → Result Pat
scanned none = err (wrap "postgres: FindByID PAT" (sentinel pat_not_found))
scanned (some p) = ok p

unfoldable pub find_by_id : Uuid → Action Database Pat
find_by_id id db = (scanned (find (is_pat id) db.pats), db)

abbrev pub inserted : NewPat → Database → Pat
inserted n db = record {
  id = db.uuids db.drawn;
  user_id = n.user_id;
  key_hash = n.key_hash;
  salt = n.salt;
  expires_at = n.expires_at;
  created_at = db.now;
}

abbrev save_failed : String → Database → Result Pat × Database
save_failed violation db = (err (wrap "postgres: Save PAT" (opaque violation)), db)

-- The user of the token has a row, and the new id is not in use.
unfoldable pub save : NewPat → Action Database Pat
save n db =
    if is_some (find (is_pat (db.uuids db.drawn)) db.pats)
    then save_failed "duplicate key value violates unique constraint" db
    else if not (is_some (find (has_id n.user_id) db.users))
    then save_failed "violates foreign key constraint" db
    else (
      ok (inserted n db),
      record db { pats = db.pats ++ (inserted n db ∷ []); drawn = suc db.drawn },
    )

unfoldable pub delete : Uuid → Action Database (Unit {0})
delete id db =
    if is_some (find (is_pat id) db.pats)
    then (ok tt, record db { pats = reject (is_pat id) db.pats })
    else (err (wrap "postgres: Delete PAT" (sentinel pat_not_found)), db)

-- `NewPATRepository`
abbrev pub new_pat_repository : PatRepository Database
new_pat_repository = record {
  find_all = find_all;
  find_by_id = find_by_id;
  save = save;
  delete = delete;
}
