-- ===== src/Oauthfake/Store/UserCode.antt =====
-- The user codes of tools/oauthfake/store.go: how they are drawn and how typed ones are read.
pub mod Typing
pub mod Loop
use courtknights.Common.{
  ℕ, suc, zero, ◌+◌, ◌-◌, ◌%◌, ◌≡◌, ◌<◌, String, Bool, true, false, ◌&&◌, Option, none, some, List,
  [], ◌∷◌, ◌++◌, eqb, leb, codes, of_codes, length, take, drop, is_none, if◌then◌else◌,
}
use courtknights.Common.Dict.{Dict, lookup}

abbrev pub user_code_alphabet : List ℕ
user_code_alphabet = codes "BCDFGHJKLMNPQRSTVWXZ"

-- The character at an index; an index out of range does not occur.
abbrev pub char_at : List ℕ → ℕ → ℕ
char_at [] i = 0
char_at (c ∷ s) zero = c
char_at (c ∷ s) (suc i) = char_at s i

-- The loop over the bytes of a block, from the index `i`.
block_codes : ℕ → List ℕ → List ℕ
block_codes i [] = []
block_codes i (v ∷ b) =
    let rest = char_at user_code_alphabet (v % 20) ∷ block_codes (i + 1) b in
    if eqb i 4 then 45 ∷ rest else rest

-- The code that a block of random bytes stands for.
unfoldable pub block_code : List ℕ → String
unfolding block_codes of_codes
block_code b = of_codes (block_codes 0 b)

-- The loop of `newUserCodeLocked` over the blocks drawn; `none` where all their codes are taken.
unfoldable pub new_user_code : List (List ℕ) → Dict String → Option String
new_user_code [] taken = none
new_user_code (b ∷ draws) taken =
    let rest = new_user_code draws taken in
    if is_none (lookup (block_code b) taken) then some (block_code b) else rest

-- The letters of a text, in upper case.
letters : List ℕ → List ℕ
letters [] = []
letters (r ∷ s) =
    let rest = letters s in
    if leb b'a' r && leb r b'z'
    then (r - 32) ∷ rest
    else if leb b'A' r && leb r b'Z'
    then r ∷ rest
    else rest

-- Eight letters get their dash back.
abbrev with_dash : List ℕ → List ℕ
with_dash b = if eqb (length b) 8 then take 4 b ++ 45 ∷ drop 4 b else b

unfoldable pub normalize_user_code : String → String
unfolding letters of_codes
normalize_user_code code = of_codes (with_dash (letters (codes code)))
