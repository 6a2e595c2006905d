-- ===== src/Infrastructure/Postgres/Profiles/Update.antt =====
-- Running the UPDATE that the builder makes of a patch is merging the patch.
use courtknights.Common.{
  ◌≡◌, refl, ap, ◌∙◌, subst, String, Bool, Option, none, some, List, [], ◌∷◌, ◌++◌, length, arith,
  if◌then◌else◌, Bool-cases, inl, inr,
}
use courtknights.Common.Dict.{Dict}
use courtknights.Domain.User.{Time}
use courtknights.Domain.Profile.{Field, PreferencesPatch, ProfilePatch, preferences_is_empty}
use courtknights.Domain.Profile.Merge.{merge_field, merge_name}
use courtknights.Infrastructure.Postgres.{ProfileRow}
use courtknights.Infrastructure.Postgres.Profiles.Builder.{
  Value, text, time, boolean, object, texts, assign, merge_json, UpdateBuilder, new_builder, set,
  set_field, value_or_null, set_name, merge_preferences, Members, add_merge, members, build_columns,
  build,
}
use courtknights.Infrastructure.Postgres.Profiles.Table.{
  and_then, assigned, merged, concatenated, removed, apply_clause, apply_clauses,
}
use courtknights.Infrastructure.Postgres.Profiles.Placeholders.{
  append_assoc, argument-arg, apply_clauses-append, argument-arg_arg, argument-arg_arg_arg,
}

-- Whatever arguments are added later, the clauses so far make `new` of the row `old`.
abbrev pub Writes : ProfileRow → UpdateBuilder → ProfileRow → Type 0
Writes old b new = (more : List Value) → apply_clauses (b.args ++ more) old b.clauses old ≡ some new

set-Writes :
    (old p q : ProfileRow) (b : UpdateBuilder) (column : String) (v : Value)
    → Writes old b p
    → assigned column v p ≡ some q
    → Writes old (set column v b) q
unfolding set apply_clause
set-Writes old p q b column v h e more =
    apply_clauses-append _ old old p b.clauses (assign column (length (b.args ++ (v ∷ []))))
      (rw (append_assoc b.args (v ∷ []) more) (h ((v ∷ []) ++ more)))
    ∙ rw (argument-arg b.args v more) e

set_field-Writes :
    {A : Type 0} (old p : ProfileRow) (b : UpdateBuilder) (value : A → Value) (column : String)
    (f : Field A) (put : Option A → ProfileRow) (stored : Option A)
    → Writes old b p
    → ((o : Option A) → assigned column (value_or_null value o) p ≡ some (put o))
    → put stored ≡ p
    → Writes old (set_field value column f b) (put (merge_field f stored))
unfolding set_field
set_field-Writes old p b value column f put stored h e same = elim (Bool-cases f.set) [
  | inl set ↦
      rw set (set-Writes old p (put f.value) b column (value_or_null value f.value) h (e f.value))
  | inr unset ↦ rw (unset, same) h
]

set_name-Writes :
    (old : ProfileRow) (b : UpdateBuilder) (name : Option String)
    → Writes old b old
    → Writes old (set_name name b) (record old { display_name = merge_name name old.display_name })
unfolding assigned
set_name-Writes old b none h = h
set_name-Writes old b (some name) h =
    set-Writes old old (record old { display_name = name }) b "display_name" (text name) h refl

-- What the clause of mergePreferences makes of the stored preferences.
abbrev pub written_json : PreferencesPatch → Dict String → Dict String
written_json p j =
    removed (concatenated (if p.clear then [] else j) (members p).set) (members p).remove

abbrev pub merged_json : PreferencesPatch → Dict String → Dict String
merged_json p j = if preferences_is_empty p then j else written_json p j

add_merge-Writes :
    (old p : ProfileRow) (b : UpdateBuilder) (clear : Bool) (m : Members) (j : Dict String)
    → Writes old b p
    → merged (boolean clear) (object m.set) (texts m.remove) old.preferences ≡ some j
    → Writes old (add_merge clear m b) (record p { preferences = j })
unfolding apply_clause
add_merge-Writes old p b clear m j h e more =
    let c = boolean clear in
    let s = object m.set in
    let r = texts m.remove in
    let args1 = b.args ++ (c ∷ []) in
    let args2 = args1 ++ (s ∷ []) in
    apply_clauses-append ((args2 ++ (r ∷ [])) ++ more) old old p b.clauses
      (merge_json (length args1) (length args2) (length (args2 ++ (r ∷ []))))
      (rw
        (
          append_assoc args2 (r ∷ []) more,
          append_assoc args1 (s ∷ []) (r ∷ more),
          append_assoc b.args (c ∷ []) (s ∷ r ∷ more),
        )
        (h (c ∷ s ∷ r ∷ more)))
    ∙ rw
        (
          argument-arg_arg_arg b.args c s r more,
          argument-arg_arg args1 s r more,
          argument-arg args2 r more,
        )
        (ap (and_then (λ k. some (record p { preferences = k }))) e)

merge_preferences-Writes :
    (old p : ProfileRow) (b : UpdateBuilder) (patch : PreferencesPatch)
    → Writes old b p
    → p.preferences ≡ old.preferences
    → Writes old
        (merge_preferences patch b)
        (record p { preferences = merged_json patch old.preferences })
unfolding merge_preferences merged
merge_preferences-Writes old p b patch h same = elim (Bool-cases (preferences_is_empty patch)) [
  | inl empty ↦
      let as_before : old.preferences ≡ merged_json patch old.preferences = rw empty refl in
      let it : Writes old (merge_preferences patch b) p = rw (merge_preferences, empty) h in
      subst (λ j. Writes old (merge_preferences patch b) (record p { preferences = j }))
        (same ∙ as_before) it
  | inr full ↦
      rw (merge_preferences, full)
        (add_merge-Writes old p b patch.clear (members patch) (written_json patch old.preferences) h
          refl)
]

-- The row that the UPDATE leaves.
abbrev pub merged_row : ProfilePatch → Time → ProfileRow → ProfileRow
merged_row patch now old = record old {
  display_name = merge_name patch.display_name old.display_name;
  city = merge_field patch.city old.city;
  region = merge_field patch.region old.region;
  country = merge_field patch.country old.country;
  gender = merge_field patch.gender old.gender;
  date_of_birth = merge_field patch.date_of_birth old.date_of_birth;
  category = merge_field patch.category old.category;
  preferences = merged_json patch.preferences old.preferences;
  updated_at = now;
}

new_builder-Writes : (old : ProfileRow) → Writes old new_builder old
unfolding apply_clauses
new_builder-Writes old more = refl

-- The clauses of the columns other than the preferences make the row with the patch merged in.
build_columns-Writes :
    (patch : ProfilePatch) (old : ProfileRow)
    → Writes old
        (build_columns patch)
        (record (merged_row patch old.updated_at old) { preferences = old.preferences })
unfolding build_columns assigned
build_columns-Writes patch old =
    let p1 = record old { display_name = merge_name patch.display_name old.display_name } in
    let p2 = record p1 { city = merge_field patch.city old.city } in
    let p3 = record p2 { region = merge_field patch.region old.region } in
    let p4 = record p3 { country = merge_field patch.country old.country } in
    let p5 = record p4 { gender = merge_field patch.gender old.gender } in
    let p6 = record p5 { date_of_birth = merge_field patch.date_of_birth old.date_of_birth } in
    set_field-Writes old p6 _ text "category" patch.category (λ o. record p6 { category = o })
      old.category
      (set_field-Writes old p5 _ time "date_of_birth" patch.date_of_birth
        (λ o. record p5 { date_of_birth = o }) old.date_of_birth
        (set_field-Writes old p4 _ text "gender" patch.gender (λ o. record p4 { gender = o })
          old.gender
          (set_field-Writes old p3 _ text "country" patch.country (λ o. record p3 { country = o })
            old.country
            (set_field-Writes old p2 _ text "region" patch.region (λ o. record p2 { region = o })
              old.region
              (set_field-Writes old p1 _ text "city" patch.city (λ o. record p1 { city = o })
                old.city
                (set_name-Writes old new_builder patch.display_name (new_builder-Writes old))
                (λ o. ground arith) refl)
              (λ o. ground arith) refl)
            (λ o. ground arith) refl)
          (λ o. ground arith) refl)
        (λ o. ground arith) refl)
      (λ o. ground arith) refl

pub build-Writes :
    (patch : ProfilePatch) (now : Time) (old : ProfileRow)
    → Writes old (build patch now) (merged_row patch now old)
unfolding build assigned
build-Writes patch now old =
    let p7 = record (merged_row patch old.updated_at old) { preferences = old.preferences } in
    set-Writes old (merged_row patch old.updated_at old) (merged_row patch now old)
      (merge_preferences patch.preferences (build_columns patch)) "updated_at" (time now)
      (merge_preferences-Writes old p7 (build_columns patch) patch.preferences
        (build_columns-Writes patch old) refl)
      refl
