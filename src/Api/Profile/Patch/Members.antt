-- ===== src/Api/Profile/Patch/Members.antt =====
-- The members of a patch together: what `parseProfilePatch` accepts, and as which patch.
use courtknights.Common.{
  String, ◌≡◌, ◌↔◌, refl, subst, true, false, Option, none, some, List, [], ◌∷◌, contains,
  Bool-cases, List-cases, inl, inr, All,
}
use courtknights.Common.Dict.{Dict, lookup}
use courtknights.Action.{Result, ok, err, Outcome-cases}
use courtknights.Domain.User.{Time}
use courtknights.Domain.Profile.{
  Field, ProfilePatch, PreferencesPatch, genders, categories, court_sides, hands,
}
use courtknights.Api.Profile.Patch.{
  ◌>>=◌, Scalar, null, text, other, Member, scalar, object, as_scalar, profile_patch_members,
  preferences_patch_members, reject_unknown, unknown, string_field, enum_field, name_field,
  date_field, preferences_object, preferences_field, no_preferences, parse_profile_patch,
}
use courtknights.Api.Profile.Patch.Reading.{
  ReadField, Itself, OneOf, string_field_sound, string_field_complete, enum_field_sound,
  enum_field_complete, date_field_sound, date_field_complete, IsDate, ReadName, name_field_sound,
  name_field_complete,
}

bind_ok :
    {A B : Type 0} (r : Result A) (f : A → Result B) (b : B)
    → (r >>= f) ≡ ok b
    → (a : A) × (r ≡ ok a) × (f a ≡ ok b)
bind_ok (ok a) f b h = (a, refl, h)
bind_ok (err e) f b h = absurd (cc h)

ok_injective : {A : Type 0} {a b : A} → ok a ≡ ok b → a ≡ b
ok_injective h = cc h

-- Every member has one of the names.
abbrev pub Known : {A : Type 0} → List String → Dict A → Type 0
Known allowed members = All (λ m. contains allowed m.0 ≡ true) members

module _ {A : Type 0} (allowed : List String) (prefix : String) where
  unknown_sound : (members : Dict A) → unknown allowed members ≡ [] → Known allowed members
  unfolding unknown
  unknown_sound [] h = tt
  unknown_sound ((name, v) ∷ members) h = elim (Bool-cases (contains allowed name)) [
    | inl c ↦ (c, unknown_sound members (rw c at h))
    | inr c ↦ absurd (cc (rw c at h))
  ]

  unknown_complete : (members : Dict A) → Known allowed members → unknown allowed members ≡ []
  unfolding unknown
  unknown_complete [] _ = refl
  unknown_complete ((name, v) ∷ members) (c, rest) = rw c (unknown_complete members rest)

  reject_unknown-Known :
      (members : Dict A) (u : Unit {0})
      → reject_unknown members allowed prefix ≡ ok u
      → Known allowed members
  unfolding reject_unknown
  reject_unknown-Known members u h = elim (List-cases (unknown allowed members)) [
    | inl e ↦ unknown_sound members e
    | inr (x, xs, e) ↦ absurd (cc (rw e at h))
  ]

  reject_unknown_complete :
      (members : Dict A) → Known allowed members → reject_unknown members allowed prefix ≡ ok tt
  unfolding reject_unknown
  reject_unknown_complete members k = rw (unknown_complete members k) refl

-- What `preferences` may hold, and what it means.
pub data ReadPreferences : Option Member → PreferencesPatch → Type 0 where
  omitted : ReadPreferences none (no_preferences false)
  nulled : ReadPreferences (some (scalar null)) (no_preferences true)
  given :
      (prefs : Dict Scalar) (court_side handedness : Field String)
      → Known preferences_patch_members prefs
      → ReadField (OneOf court_sides) (lookup "court_side" prefs) court_side
      → ReadField (OneOf hands) (lookup "handedness" prefs) handedness
      → ReadPreferences
          (some (object prefs))
          (record { clear = false; court_side = court_side; handedness = handedness })

preferences_object_sound :
    (prefs : Dict Scalar) (p : PreferencesPatch)
    → preferences_object prefs ≡ ok p
    → ReadPreferences (some (object prefs)) p
unfolding preferences_object
preferences_object_sound prefs p h =
    elim (Outcome-cases (reject_unknown prefs preferences_patch_members "preferences.")) [
      | inr (e, a) ↦ absurd (cc (rw a at h))
      | inl (u, a) ↦
          elim (Outcome-cases
            (enum_field "preferences.court_side" (lookup "court_side" prefs) court_sides)) [
              | inr (e, b) ↦ absurd (cc (rw (a, b) at h))
              | inl (c, b) ↦
                  elim (Outcome-cases
                    (enum_field "preferences.handedness" (lookup "handedness" prefs) hands)) [
                      | inr (e, d) ↦ absurd (cc (rw (a, b, d) at h))
                      | inl (f, d) ↦
                          subst (ReadPreferences (some (object prefs))) (cc (rw (a, b, d) at h)) (
                            given prefs c f
                              (reject_unknown-Known preferences_patch_members "preferences." prefs u
                                a)
                              (enum_field_sound "preferences.court_side" court_sides
                                (lookup "court_side" prefs) c b)
                              (enum_field_sound "preferences.handedness" hands
                                (lookup "handedness" prefs) f d))
                    ]
            ]
    ]

preferences_field_sound :
    (m : Option Member) (p : PreferencesPatch) → preferences_field m ≡ ok p → ReadPreferences m p
unfolding preferences_field
preferences_field_sound none p h = subst (ReadPreferences none) (cc h) omitted
preferences_field_sound (some (scalar null)) p h =
    subst (ReadPreferences (some (scalar null))) (cc h) nulled
preferences_field_sound (some (scalar (text s))) p h = absurd (cc h)
preferences_field_sound (some (scalar other)) p h = absurd (cc h)
preferences_field_sound (some (object prefs)) p h = preferences_object_sound prefs p h

preferences_field_complete :
    (m : Option Member) (p : PreferencesPatch) → ReadPreferences m p → preferences_field m ≡ ok p
unfolding preferences_field preferences_object
preferences_field_complete _ _ omitted = refl
preferences_field_complete _ _ nulled = refl
preferences_field_complete _ _ (given prefs c f k a b) =
    rw
      (
        reject_unknown_complete preferences_patch_members "preferences." prefs k,
        enum_field_complete "preferences.court_side" court_sides (lookup "court_side" prefs) c a,
        enum_field_complete "preferences.handedness" hands (lookup "handedness" prefs) f b,
      )
      refl

-- What a merge patch with these members means.
pub record Reads (parse_date : String → Option Time) (members : Dict Member) (p : ProfilePatch)
    : Type 0 where
  pub known : Known profile_patch_members members
  pub display_name : ReadName (as_scalar (lookup "display_name" members)) p.display_name
  pub city : ReadField Itself (as_scalar (lookup "city" members)) p.city
  pub region : ReadField Itself (as_scalar (lookup "region" members)) p.region
  pub country : ReadField Itself (as_scalar (lookup "country" members)) p.country
  pub gender : ReadField (OneOf genders) (as_scalar (lookup "gender" members)) p.gender
  pub date_of_birth :
      ReadField (IsDate parse_date) (as_scalar (lookup "date_of_birth" members)) p.date_of_birth
  pub category : ReadField (OneOf categories) (as_scalar (lookup "category" members)) p.category
  pub preferences : ReadPreferences (lookup "preferences" members) p.preferences

module _ (parse_date : String → Option Time) (members : Dict Member) (p : ProfilePatch) where
  parse_profile_patch_sound :
      parse_profile_patch parse_date members ≡ ok p → Reads parse_date members p
  unfolding parse_profile_patch
  parse_profile_patch_sound h =
      let (u, e0, h0) = bind_ok (reject_unknown members profile_patch_members "") _ p h in
      let (x0, e1, h1) = bind_ok (name_field (as_scalar (lookup "display_name" members))) _ p h0 in
      let (x1, e2, h2) = bind_ok (string_field "city" (as_scalar (lookup "city" members))) _ p h1 in
      let (x2, e3, h3) =
        bind_ok (string_field "region" (as_scalar (lookup "region" members))) _ p h2 in
      let (x3, e4, h4) =
        bind_ok (string_field "country" (as_scalar (lookup "country" members))) _ p h3 in
      let (x4, e5, h5) =
        bind_ok (enum_field "gender" (as_scalar (lookup "gender" members)) genders) _ p h4 in
      let (x5, e6, h6) =
        bind_ok (date_field parse_date "date_of_birth" (as_scalar (lookup "date_of_birth" members)))
          _ p h5 in
      let (x6, e7, h7) =
        bind_ok (enum_field "category" (as_scalar (lookup "category" members)) categories) _ p h6 in
      let (x7, e8, h8) = bind_ok (preferences_field (lookup "preferences" members)) _ p h7 in
      subst (Reads parse_date members) (ok_injective h8) (record {
        known = reject_unknown-Known profile_patch_members "" members u e0;
        display_name = name_field_sound (as_scalar (lookup "display_name" members)) x0 e1;
        city = string_field_sound "city" (as_scalar (lookup "city" members)) x1 e2;
        region = string_field_sound "region" (as_scalar (lookup "region" members)) x2 e3;
        country = string_field_sound "country" (as_scalar (lookup "country" members)) x3 e4;
        gender = enum_field_sound "gender" genders (as_scalar (lookup "gender" members)) x4 e5;
        date_of_birth =
            date_field_sound parse_date "date_of_birth" (as_scalar (lookup "date_of_birth" members))
              x5 e6;
        category =
            enum_field_sound "category" categories (as_scalar (lookup "category" members)) x6 e7;
        preferences = preferences_field_sound (lookup "preferences" members) x7 e8;
      })

  parse_profile_patch_complete :
      Reads parse_date members p → parse_profile_patch parse_date members ≡ ok p
  unfolding parse_profile_patch
  parse_profile_patch_complete r =
      rw
        (
          reject_unknown_complete profile_patch_members "" members r.known,
          name_field_complete (as_scalar (lookup "display_name" members)) p.display_name
              r.display_name,
          string_field_complete "city" (as_scalar (lookup "city" members)) p.city r.city,
          string_field_complete "region" (as_scalar (lookup "region" members)) p.region r.region,
          string_field_complete "country" (as_scalar (lookup "country" members)) p.country
              r.country,
          enum_field_complete "gender" genders (as_scalar (lookup "gender" members)) p.gender
              r.gender,
          date_field_complete parse_date "date_of_birth"
              (as_scalar (lookup "date_of_birth" members)) p.date_of_birth r.date_of_birth,
          enum_field_complete "category" categories (as_scalar (lookup "category" members))
              p.category r.category,
          preferences_field_complete (lookup "preferences" members) p.preferences r.preferences,
        )
        refl

  -- `parseProfilePatch` accepts exactly the objects with known members that each have a meaning, and
  -- returns the patch that they mean: left out keeps, null clears where that is allowed, and a
  -- string that is not blank sets, if it is one of the values of its field or a date.
  pub parse_profile_patch_iff :
      (parse_profile_patch parse_date members ≡ ok p) ↔ Reads parse_date members p
  parse_profile_patch_iff = (parse_profile_patch_sound, parse_profile_patch_complete)
