-- ===== src/Api/Profile/Patch/Reading.antt =====
-- How a JSON merge patch is to be read (RFC 7396, ADR-015), and that patch.go reads it so.
use courtknights.Common.{
  String, ◌≡◌, refl, subst, true, false, Option, none, some, List, contains, is_blank, Bool-cases,
  Option-cases, inl, inr,
}
use courtknights.Action.{ok}
use courtknights.Domain.User.{Time}
use courtknights.Domain.Profile.{Field, unchanged, cleared, set_to}
use courtknights.Api.Profile.Patch.{
  Scalar, null, text, other, parse_string, string_field, enum_field, name_field, date_field,
}

-- A member that is left out changes nothing, null clears, and a string that is not blank and has a
-- meaning sets what it means.
pub data ReadField {A : Type 0} (Means : String → A → Type 0)
    : Option Scalar → Field A → Type 0 where
  omitted : ReadField Means none unchanged
  nulled : ReadField Means (some null) cleared
  given :
      (s : String) (a : A)
      → is_blank s ≡ false
      → Means s a
      → ReadField Means (some (text s)) (set_to a)

abbrev pub Itself : String → String → Type 0
Itself s a = s ≡ a

-- One of a list of values.
abbrev pub OneOf : List String → String → String → Type 0
OneOf allowed s a = (contains allowed s ≡ true) × (s ≡ a)

pub string_field_sound :
    (name : String) (v : Option Scalar) (f : Field String)
    → string_field name v ≡ ok f
    → ReadField Itself v f
unfolding string_field parse_string
string_field_sound name none f h = subst (ReadField Itself none) (cc h) omitted
string_field_sound name (some null) f h = subst (ReadField Itself (some null)) (cc h) nulled
string_field_sound name (some (text s)) f h = elim (Bool-cases (is_blank s)) [
  | inl b ↦ absurd (cc (rw b at h))
  | inr b ↦ subst (ReadField Itself (some (text s))) (cc (rw b at h)) (given s s b refl)
]
string_field_sound name (some other) f h = absurd (cc h)

pub string_field_complete :
    (name : String) (v : Option Scalar) (f : Field String)
    → ReadField Itself v f
    → string_field name v ≡ ok f
unfolding string_field parse_string
string_field_complete name _ _ omitted = refl
string_field_complete name _ _ nulled = refl
string_field_complete name _ _ (given s a b e) = rw (b, e) refl

module _ (name : String) (allowed : List String) where
  pub enum_field_sound :
      (v : Option Scalar) (f : Field String)
      → enum_field name v allowed ≡ ok f
      → ReadField (OneOf allowed) v f
  unfolding enum_field string_field parse_string
  enum_field_sound none f h = subst (ReadField (OneOf allowed) none) (cc h) omitted
  enum_field_sound (some null) f h = subst (ReadField (OneOf allowed) (some null)) (cc h) nulled
  enum_field_sound (some (text s)) f h = elim (Bool-cases (is_blank s)) [
    | inl b ↦ absurd (cc (rw b at h))
    | inr b ↦ elim (Bool-cases (contains allowed s)) [
      | inl c ↦
          subst (ReadField (OneOf allowed) (some (text s))) (cc (rw (b, c) at h))
            (given s s b (c, refl))
      | inr c ↦ absurd (cc (rw (b, c) at h))
    ]
  ]
  enum_field_sound (some other) f h = absurd (cc h)

  pub enum_field_complete :
      (v : Option Scalar) (f : Field String)
      → ReadField (OneOf allowed) v f
      → enum_field name v allowed ≡ ok f
  unfolding enum_field string_field parse_string
  enum_field_complete _ _ omitted = refl
  enum_field_complete _ _ nulled = refl
  enum_field_complete _ _ (given s a b (c, e)) = rw (b, c, e) refl

-- The display name is set by a string that is not blank, and can not be cleared.
pub data ReadName : Option Scalar → Option String → Type 0 where
  kept : ReadName none none
  named : (s : String) → is_blank s ≡ false → ReadName (some (text s)) (some s)

pub name_field_sound : (v : Option Scalar) (n : Option String) → name_field v ≡ ok n → ReadName v n
unfolding name_field parse_string
name_field_sound none n h = subst (ReadName none) (cc h) kept
name_field_sound (some null) n h = absurd (cc h)
name_field_sound (some (text s)) n h = elim (Bool-cases (is_blank s)) [
  | inl b ↦ absurd (cc (rw b at h))
  | inr b ↦ subst (ReadName (some (text s))) (cc (rw b at h)) (named s b)
]
name_field_sound (some other) n h = absurd (cc h)

pub name_field_complete :
    (v : Option Scalar) (n : Option String) → ReadName v n → name_field v ≡ ok n
unfolding name_field parse_string
name_field_complete _ _ kept = refl
name_field_complete _ _ (named s b) = rw b refl

abbrev pub IsDate : (String → Option Time) → String → Time → Type 0
IsDate parse_date s t = parse_date s ≡ some t

module _ (parse_date : String → Option Time) (name : String) where
  pub date_field_sound :
      (v : Option Scalar) (f : Field Time)
      → date_field parse_date name v ≡ ok f
      → ReadField (IsDate parse_date) v f
  unfolding date_field string_field parse_string
  date_field_sound none f h = subst (ReadField (IsDate parse_date) none) (cc h) omitted
  date_field_sound (some null) f h = subst (ReadField (IsDate parse_date) (some null)) (cc h) nulled
  date_field_sound (some (text s)) f h = elim (Bool-cases (is_blank s)) [
    | inl b ↦ absurd (cc (rw b at h))
    | inr b ↦ elim (Option-cases (parse_date s)) [
      | inl d ↦ absurd (cc (rw (b, d) at h))
      | inr (t, d) ↦
          subst (ReadField (IsDate parse_date) (some (text s))) (cc (rw (b, d) at h))
            (given s t b d)
    ]
  ]
  date_field_sound (some other) f h = absurd (cc h)

  pub date_field_complete :
      (v : Option Scalar) (f : Field Time)
      → ReadField (IsDate parse_date) v f
      → date_field parse_date name v ≡ ok f
  unfolding date_field string_field parse_string
  date_field_complete _ _ omitted = refl
  date_field_complete _ _ nulled = refl
  date_field_complete _ _ (given s t b d) = rw (b, d) refl
