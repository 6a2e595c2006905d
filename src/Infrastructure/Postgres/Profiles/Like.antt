-- ===== src/Infrastructure/Postgres/Profiles/Like.antt =====
-- `LIKE` of PostgreSQL, which the CHECK on the region uses, over the code points of the texts.
use courtknights.Common.{
  ℕ, Bool, true, false, ◌&&◌, ◌||◌, List, [], ◌∷◌, ◌++◌, ◌≡◌, ◌≢◌, refl, eqb, if◌then◌else◌, arith,
  All,
}

-- `test` holds of the text or of one of its ends.
abbrev some_end : (List ℕ → Bool) → List ℕ → Bool
some_end test [] = test []
some_end test (c ∷ s) = test (c ∷ s) || some_end test s

abbrev starts : (List ℕ → Bool) → (ℕ → Bool) → List ℕ → Bool
starts rest fits [] = false
starts rest fits (c ∷ s) = fits c && rest s

abbrev is_empty_text : List ℕ → Bool
is_empty_text [] = true
is_empty_text (c ∷ s) = false

-- A percent sign stands for any text, an underscore for one character, and a backslash takes the
-- next character as it is; a pattern never matches where the backslash is its last character.
-- The pattern read as plain characters and wildcards.
pub data Token : Type 0 where
  one_of_any any_text stray : Token
  exactly : ℕ → Token

tokens : List ℕ → Bool → List Token
tokens [] true = stray ∷ []
tokens [] false = []
tokens (c ∷ p) true = exactly c ∷ tokens p false
tokens (c ∷ p) false =
    let rest = tokens p false in
    let next = tokens p true in
    if eqb c 37
    then any_text ∷ rest
    else if eqb c 95
    then one_of_any ∷ rest
    else if eqb c 92
    then next
    else exactly c ∷ rest

fits : List Token → List ℕ → Bool
fits [] s = is_empty_text s
fits (any_text ∷ p) s = some_end (fits p) s
fits (one_of_any ∷ p) s = starts (fits p) (λ c. true) s
fits (exactly c ∷ p) s = starts (fits p) (eqb c) s
fits (stray ∷ p) s = false

-- A percent sign stands for any text, an underscore for one character, and a backslash takes the
-- next character as it is; nothing matches a pattern that ends in a stray backslash.
unfoldable pub like : List ℕ → List ℕ → Bool
unfolding tokens fits
like pattern s = fits (tokens pattern false) s

-- A character that is no wildcard and no escape.
abbrev pub IsPlainChar : ℕ → Type 0
IsPlainChar c = (c ≢ 37) × (c ≢ 95) × (c ≢ 92)

fits_ends : (s : List ℕ) → some_end (fits []) s ≡ true
unfolding fits
fits_ends [] = refl
fits_ends (c ∷ s) = ground (arith, fits_ends s)

-- A text starts with the plain text that stands before the percent sign of a pattern.
pub like_prefix :
    (p s : List ℕ) → All IsPlainChar p → like (p ++ (45 ∷ 37 ∷ [])) (p ++ (45 ∷ s)) ≡ true
unfolding like tokens fits
like_prefix [] s _ = fits_ends s
like_prefix (c ∷ p) s (plain, rest) = ground (arith, like_prefix p s rest)
