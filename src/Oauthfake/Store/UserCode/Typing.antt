-- ===== src/Oauthfake/Store/UserCode/Typing.antt =====
-- How typed user codes are read, and that the loop for a code draws a fresh one.
use courtknights.Common.{
  ℕ, suc, zero, ◌+◌, ◌%◌, ◌≡◌, ◌≤◌, ◌<◌, ◌⊎◌, inl, inr, refl, sym, ap, ◌∙◌, String, none, some,
  List, [], ◌∷◌, ◌++◌, map, arith, codes, of_codes, codes-of_codes, IsPlain, length, take, drop,
  All, eqb, Option-cases, Bool-cases,
}
use courtknights.Common.Dict.{Dict, lookup}
use courtknights.Oauthfake.Store.UserCode.{
  user_code_alphabet, char_at, block_codes, block_code, new_user_code, letters, with_dash,
  normalize_user_code,
}

abbrev IsUpper : ℕ → Type 0
IsUpper c = (65 ≤ c) × (c ≤ 90)

letters-IsUpper : (s : List ℕ) → All IsUpper (letters s)
unfolding letters
letters-IsUpper [] = tt
letters-IsUpper (r ∷ s) = ground (arith, letters-IsUpper s)

letters_of_IsUpper : (s : List ℕ) → All IsUpper s → letters s ≡ s
unfolding letters
letters_of_IsUpper [] h = refl
letters_of_IsUpper (r ∷ s) h = ground (arith, letters_of_IsUpper s h.1)

letters-append : (s t : List ℕ) → letters (s ++ t) ≡ letters s ++ letters t
unfolding letters
letters-append [] t = refl
letters-append (r ∷ s) t = ground (arith, letters-append s t)

take-All : (n : ℕ) (s : List ℕ) → All IsUpper s → All IsUpper (take n s)
take-All zero s h = tt
take-All (suc n) [] h = tt
take-All (suc n) (c ∷ s) (p, h) = (p, take-All n s h)

drop-All : (n : ℕ) (s : List ℕ) → All IsUpper s → All IsUpper (drop n s)
drop-All zero s h = h
drop-All (suc n) [] h = tt
drop-All (suc n) (c ∷ s) (p, h) = drop-All n s h

take-append-drop : (n : ℕ) (s : List ℕ) → take n s ++ drop n s ≡ s
take-append-drop zero s = refl
take-append-drop (suc n) [] = refl
take-append-drop (suc n) (c ∷ s) = ap (◌∷◌ c) (take-append-drop n s)

letters-dash : (s : List ℕ) → letters (45 ∷ s) ≡ letters s
unfolding letters
letters-dash s = refl

letters-with_dash : (s : List ℕ) → All IsUpper s → letters (with_dash s) ≡ s
letters-with_dash s h = elim (Bool-cases (eqb (length s) 8)) [
  | inl eight ↦
      rw
        (
          eight,
          letters-append (take 4 s),
          letters-dash (drop 4 s),
          letters_of_IsUpper (take 4 s) (take-All 4 s h),
          letters_of_IsUpper (drop 4 s) (drop-All 4 s h),
        )
        (take-append-drop 4 s)
  | inr other ↦ rw other (letters_of_IsUpper s h)
]

IsPlain-append : (s t : List ℕ) → All IsUpper s → IsPlain t → IsPlain (s ++ t)
IsPlain-append [] t h k = k
IsPlain-append (c ∷ s) t (p, h) k = (omega arith, IsPlain-append s t h k)

IsPlain-of_IsUpper : (s : List ℕ) → All IsUpper s → IsPlain s
IsPlain-of_IsUpper [] h = tt
IsPlain-of_IsUpper (c ∷ s) (p, h) = (omega arith, IsPlain-of_IsUpper s h)

with_dash-IsPlain : (s : List ℕ) → All IsUpper s → IsPlain (with_dash s)
with_dash-IsPlain s h = elim (Bool-cases (eqb (length s) 8)) [
  | inl eight ↦ rw eight (
      IsPlain-append (take 4 s) (45 ∷ drop 4 s) (take-All 4 s h)
        (omega arith, IsPlain-of_IsUpper (drop 4 s) (drop-All 4 s h)))
  | inr other ↦ rw other (IsPlain-of_IsUpper s h)
]

normalize-with_dash :
    (s : List ℕ)
    → All IsUpper s
    → normalize_user_code (of_codes (with_dash s)) ≡ of_codes (with_dash s)
unfolding normalize_user_code
normalize-with_dash s h =
    ap (λ t. of_codes (with_dash (letters t)))
      (codes-of_codes (with_dash s) (with_dash-IsPlain s h))
    ∙ ap (λ t. of_codes (with_dash t)) (letters-with_dash s h)

-- Reading a typed code a second time changes nothing, whatever was typed.
pub normalize_user_code_idempotent :
    (typed : String) → normalize_user_code (normalize_user_code typed) ≡ normalize_user_code typed
unfolding normalize_user_code
normalize_user_code_idempotent typed =
    normalize-with_dash (letters (codes typed)) (letters-IsUpper (codes typed))

-- The letter that one random byte stands for.
abbrev pub letter : ℕ → ℕ
letter v = char_at user_code_alphabet (v % 20)

char_at-All : (s : List ℕ) (i : ℕ) → All IsUpper s → i < length s → IsUpper (char_at s i)
char_at-All [] i h k = absurd (omega arith)
char_at-All (c ∷ s) zero h k = h.0
char_at-All (c ∷ s) (suc i) h k = char_at-All s i h.1 (omega arith)

alphabet-IsUpper : All IsUpper user_code_alphabet
alphabet-IsUpper = omega arith

letter-IsUpper : (v : ℕ) → IsUpper (letter v)
letter-IsUpper v = char_at-All user_code_alphabet (v % 20) alphabet-IsUpper (omega arith)

map-letter-IsUpper : (b : List ℕ) → All IsUpper (map letter b)
map-letter-IsUpper [] = tt
map-letter-IsUpper (v ∷ b) = (letter-IsUpper v, map-letter-IsUpper b)

-- Past the dash the loop writes the letters alone.
block_codes-tail : (i : ℕ) (b : List ℕ) → 4 < i → block_codes i b ≡ map letter b
unfolding block_codes
block_codes-tail i [] h = refl
block_codes-tail i (v ∷ b) h = ground (arith, block_codes-tail (i + 1) b)

block_codes-eq : (b : List ℕ) → length b ≡ 8 → block_codes 0 b ≡ with_dash (map letter b)
unfolding block_codes
block_codes-eq (v0 ∷ v1 ∷ v2 ∷ v3 ∷ v4 ∷ v5 ∷ v6 ∷ v7 ∷ []) h = refl
block_codes-eq _ h = absurd (omega arith)

block_code-eq : (b : List ℕ) → length b ≡ 8 → block_code b ≡ of_codes (with_dash (map letter b))
unfolding block_code
block_code-eq b h = ap of_codes (block_codes-eq b h)

-- What a user may type for a text of capital letters: each letter in either case, with any other
-- characters that are no letters around them.
pub data Types : List ℕ → List ℕ → Type 0 where
  typed_out : Types [] []
  noise :
      {c : ℕ} {s t : List ℕ}
      → (c < 65) ⊎ ((90 < c) × (c < 97)) ⊎ (122 < c)
      → Types s t
      → Types (c ∷ s) t
  capital : {c : ℕ} {s t : List ℕ} → 65 ≤ c → c ≤ 90 → Types s t → Types (c ∷ s) (c ∷ t)
  small :
      {x c : ℕ} {s t : List ℕ} → x ≡ c + 32 → 65 ≤ c → c ≤ 90 → Types s t → Types (x ∷ s) (c ∷ t)

letters-Types : {s t : List ℕ} → Types s t → letters s ≡ t
unfolding letters
letters-Types typed_out = refl
letters-Types (noise {c} h more) = ground (arith, letters-Types more)
letters-Types (capital {c} h k more) = ground (arith, letters-Types more)
letters-Types (small {x} {c} e h k more) = ground (arith, letters-Types more)

-- Whatever a user types for the letters of a drawn code is read as that code: small letters for
-- capitals, and dashes, spaces and other characters anywhere.
pub normalize_user_code-Types :
    (typed : String) (b : List ℕ)
    → length b ≡ 8
    → Types (codes typed) (map letter b)
    → normalize_user_code typed ≡ block_code b
unfolding normalize_user_code
normalize_user_code-Types typed b h types =
    ap (λ s. of_codes (with_dash s)) (letters-Types types) ∙ sym (block_code-eq b h)

-- A drawn code is read as itself.
pub normalize-block_code :
    (b : List ℕ) → length b ≡ 8 → normalize_user_code (block_code b) ≡ block_code b
normalize-block_code b h =
    ap normalize_user_code (block_code-eq b h)
    ∙ (normalize-with_dash (map letter b) (map-letter-IsUpper b) ∙ sym (block_code-eq b h))

-- A code of one of the blocks.
abbrev pub IsDrawn : String → List (List ℕ) → Type 0
IsDrawn c [] = ⊥
IsDrawn c (b ∷ draws) = (c ≡ block_code b) ⊎ IsDrawn c draws

-- The code that the loop returns is free, and is the code of one of the blocks drawn.
pub new_user_code_fresh :
    (draws : List (List ℕ)) (taken : Dict String) (c : String)
    → new_user_code draws taken ≡ some c
    → (lookup c taken ≡ none) × IsDrawn c draws
unfolding new_user_code
new_user_code_fresh [] taken c h = cc
new_user_code_fresh (b ∷ draws) taken c h = elim (Option-cases (lookup (block_code b) taken)) [
  | inl free ↦ let same : c ≡ block_code b = ground arith in (rw same free, inl same)
  | inr (v, held) ↦
      let (free, drawn) = new_user_code_fresh draws taken c (ground arith) in (free, inr drawn)
]
