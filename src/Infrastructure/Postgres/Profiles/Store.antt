-- ===== src/Infrastructure/Postgres/Profiles/Store.antt =====
-- The repository keeps the contract of domain/profile.
use courtknights.Common.{
  ◌≡◌, ◌≢◌, refl, ap, ◌∙◌, String, Bool, true, false, Option, none, some, List, [], ◌∷◌, find,
  arith, if◌then◌else◌, Bool-cases, inl, inr,
}
use courtknights.Common.Dict.{Dict, store, delete, lookup, dict_laws}
use courtknights.Domain.User.{Uuid, Time}
use courtknights.Domain.Profile.{
  Profile, Preferences, PreferencesPatch, ProfilePatch, preferences_is_empty,
}
use courtknights.Domain.Profile.Merge.{merge, merge_preferences}
use courtknights.Infrastructure.Postgres.{Database, ProfileRow}
use courtknights.Infrastructure.Postgres.Profiles.{scan_profile, statement}
use courtknights.Infrastructure.Postgres.Profiles.Builder.{uuid, build, members, merge_preference}
use courtknights.Infrastructure.Postgres.Profiles.Table.{
  of_user, put_row, update_where, update_found, checked, violated, run_update, Answer, failed,
  no_rows, concatenated, removed,
}
use courtknights.Infrastructure.Postgres.Profiles.Placeholders.{argument_last}
use courtknights.Infrastructure.Postgres.Profiles.Update.{merged_json, merged_row, build-Writes}

lookup-written :
    (key : String) (clear : Bool) (j : Dict String)
    → lookup key (if clear then [] else j) ≡ (if clear then none else lookup key j)
unfolding lookup
lookup-written key true j = refl
lookup-written key false j = refl

-- The members of a preferences object, as scanProfile reads them.
abbrev scanned : Dict String → Preferences
scanned j = record { court_side = lookup "court_side" j; handedness = lookup "handedness" j }

scanned-members :
    (clear court_set hand_set : Bool) (court hand : Option String) (j : Dict String)
    → let m = members (record {
      clear = clear;
      court_side = record { set = court_set; value = court };
      handedness = record { set = hand_set; value = hand };
    }) in
      scanned (removed (concatenated j m.set) m.remove) ≡ record {
        court_side = if court_set then court else lookup "court_side" j;
        handedness = if hand_set then hand else lookup "handedness" j;
      }
unfolding members merge_preference removed concatenated lookup store delete
scanned-members clear false false court hand j = refl
scanned-members clear false true court none j = simp dict_laws refl
scanned-members clear false true court (some h) j = simp dict_laws refl
scanned-members clear true false none hand j = simp dict_laws refl
scanned-members clear true false (some c) hand j = simp dict_laws refl
scanned-members clear true true none none j = simp dict_laws refl
scanned-members clear true true none (some h) j = simp dict_laws refl
scanned-members clear true true (some c) none j = simp dict_laws refl
scanned-members clear true true (some c) (some h) j = simp dict_laws refl

scanned-merged_json :
    (p : PreferencesPatch) (j : Dict String)
    → scanned (merged_json p j) ≡ merge_preferences p (scanned j)
unfolding preferences_is_empty
scanned-merged_json p j = elim (Bool-cases (preferences_is_empty p)) [
  | inl empty ↦ ground arith
  | inr full ↦
      rw
        (
          full,
          scanned-members p.clear p.court_side.set p.handedness.set p.court_side.value
              p.handedness.value (if p.clear then [] else j),
          lookup-written "court_side" p.clear j,
          lookup-written "handedness" p.clear j,
        )
        refl
]

-- Reading the row that the UPDATE leaves gives the merged profile.
pub scan_profile-merged_row :
    (patch : ProfilePatch) (now : Time) (old : ProfileRow)
    → scan_profile (merged_row patch now old)
      ≡ record (merge patch (scan_profile old)) { updated_at = now }
unfolding merge
scan_profile-merged_row patch now old =
    ap (λ q. record (scan_profile (merged_row patch now old)) { preferences = q })
      (scanned-merged_json patch.preferences old.preferences)

abbrev pub scan? : Option ProfileRow → Option Profile
scan? none = none
scan? (some p) = some (scan_profile p)

-- The profile that the table holds of a user.
abbrev pub stored_profile : Uuid → Database → Option Profile
stored_profile user_id db = scan? (find (of_user user_id) db.profiles)

pub find-of_user :
    (u : Uuid) (rows : List ProfileRow) (p : ProfileRow)
    → find (of_user u) rows ≡ some p
    → p.user_id ≡ u
find-of_user u [] p h = absurd (cc h)
find-of_user u (q ∷ rows) p h = ground (arith, find-of_user u rows p)

pub find-put_row :
    (u : Uuid) (p old : ProfileRow) (rows : List ProfileRow)
    → p.user_id ≡ u
    → find (of_user u) rows ≡ some old
    → find (of_user u) (put_row p rows) ≡ some p
find-put_row u p old [] e h = absurd (cc h)
find-put_row u p old (q ∷ rows) e h = ground (arith, find-put_row u p old rows e)

pub find-put_row_other :
    (u v : Uuid) (p : ProfileRow) (rows : List ProfileRow)
    → p.user_id ≡ u
    → v ≢ u
    → find (of_user v) (put_row p rows) ≡ find (of_user v) rows
find-put_row_other u v p [] e n = refl
find-put_row_other u v p (q ∷ rows) e n = ground (arith, find-put_row_other u v p rows e n)

-- What the UPDATE of a patch does.
run_update-build :
    (u : Uuid) (patch : ProfilePatch) (now : Time) (db : Database)
    → let (q, b) = statement u (build patch now) in
      run_update q b.args db ≡ update_found q b.args (find (of_user u) db.profiles) db
unfolding run_update
run_update-build u patch now db =
    ap
      (λ v.
        update_where (statement u (build patch now)).0 (statement u (build patch now)).1.args v db)
      (argument_last (build patch now).args (uuid u))

abbrev pub run : Uuid → ProfilePatch → Time → Database → Answer ProfileRow × Database
run u patch now db = let (q, b) = statement u (build patch now) in run_update q b.args db

pub run_missing :
    (u : Uuid) (patch : ProfilePatch) (now : Time) (db : Database)
    → find (of_user u) db.profiles ≡ none
    → run u patch now db ≡ (failed no_rows, db)
run_missing u patch now db h = run_update-build u patch now db ∙ rw h refl

-- The clauses of the builder leave the merged row, which the constraints then pass or refuse.
pub run_found :
    (u : Uuid) (patch : ProfilePatch) (now : Time) (db : Database) (old : ProfileRow)
    → find (of_user u) db.profiles ≡ some old
    → run u patch now db
      ≡ checked (merged_row patch now old) (violated (merged_row patch now old)) db
run_found u patch now db old h =
    run_update-build u patch now db ∙ rw (h, build-Writes patch now old (uuid u ∷ [])) refl
