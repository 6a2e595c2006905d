-- ===== src/Common/Text.antt =====
-- Texts as lists of code points, for the code that walks them, and the white space of `strings`.
use Prim.Native.Nat.{ℕ, zero, suc, ◌+◌, ◌/◌, ◌%◌, ◌<◌, compare, Ordering}
use Prim.Native.Char.{Char, char, code, nul, IsScalar}
use Prim.Native.String
use Prim.Native.String.{String}
use mathlib.Core.Path.{◌≡◌, refl}
use mathlib.Core.Logic.{dite, ◌≢◌, inl, inr}
use text.Mathlib.Text.{◌==◌}
use text.Mathlib.TextEquality.{eq_iff}
use mathlib.Core.Bool.{Bool, true, false, ◌&&◌, ◌||◌}
use mathlib.Core.List.{List, [], ◌∷◌}
use native.Mathlib.Omega.{arith}
use native.Mathlib.Decide.{dec_lt}
use courtknights.Common.Tests.{ltb, leb, eqb, if◌then◌else◌, Bool-cases}

abbrev pub codes : String → List ℕ
codes String.[] = []
codes (String.◌∷◌ c s) = code c ∷ codes s

-- The UTF-8 bytes of a code point.
abbrev pub utf8 : ℕ → List ℕ
utf8 c =
    if ltb c 128
    then c ∷ []
    else if ltb c 2048
    then (192 + c / 64) ∷ (128 + c % 64) ∷ []
    else if ltb c 65536
    then (224 + c / 4096) ∷ (128 + (c / 64) % 64) ∷ (128 + c % 64) ∷ []
    else (240 + c / 262144) ∷ (128 + (c / 4096) % 64) ∷ (128 + (c / 64) % 64) ∷ (128 + c % 64) ∷ []

compare_of_lt : (n m : ℕ) → n < m → compare n m ≡ Ordering.lt
compare_of_lt n m h = grind arith

pub IsScalar-below : (n : ℕ) → n < 55296 → IsScalar n
IsScalar-below n h = rw (compare_of_lt n 55296 h) tt

-- The character of a code point below the surrogates; U+0000 stands for any other number.
unfoldable pub to_char : ℕ → Char
unfolding dec_lt
to_char n = dite (dec_lt n 55296) (λ h. char n (IsScalar-below n h)) (λ _. nul)

code-to_char : (c : ℕ) → c < 55296 → code (to_char c) ≡ c
unfolding to_char
code-to_char c h = ground arith

unfoldable pub of_codes : List ℕ → String
unfolding to_char
of_codes [] = String.[]
of_codes (c ∷ s) = String.◌∷◌ (to_char c) (of_codes s)

-- Two texts that the test finds different are different.
pub ne_of_test : (s t : String) → (s == t) ≡ false → s ≢ t
ne_of_test s t h e = ground (arith, (eq_iff s t).1 e)

pub test_of_ne : (s t : String) → s ≢ t → (s == t) ≡ false
test_of_ne s t n = elim (Bool-cases (s == t)) [ inl e ↦ absurd (n ((eq_iff s t).0 e)) | inr e ↦ e ]

-- Every code point stands below the surrogates.
abbrev pub IsPlain : List ℕ → Type 0
IsPlain [] = Unit
IsPlain (c ∷ s) = (c < 55296) × IsPlain s

pub codes-of_codes : (s : List ℕ) → IsPlain s → codes (of_codes s) ≡ s
unfolding of_codes
codes-of_codes [] _ = refl
codes-of_codes (c ∷ s) (p, h) = cc (code-to_char c p, codes-of_codes s h)

-- `unicode.IsSpace`.
abbrev is_space : ℕ → Bool
is_space c =
    (leb 9 c && leb c 13)
    || eqb c 32
    || eqb c 133
    || eqb c 160
    || eqb c 5760
    || (leb 8192 c && leb c 8202)
    || eqb c 8232
    || eqb c 8233
    || eqb c 8239
    || eqb c 8287
    || eqb c 12288

-- `strings.TrimSpace(s) == ""`.
unfoldable pub is_blank : String → Bool
is_blank String.[] = true
is_blank (String.◌∷◌ c s) = is_space (code c) && is_blank s

trim_left : String → String
trim_left String.[] = String.[]
trim_left (String.◌∷◌ c s) =
    let rest = trim_left s in if is_space (code c) then rest else String.◌∷◌ c s

-- Drops the white space at the end.
trim_right : String → String
unfolding is_blank
trim_right String.[] = String.[]
trim_right (String.◌∷◌ c s) =
    let rest = trim_right s in if is_blank (String.◌∷◌ c s) then String.[] else String.◌∷◌ c rest

-- `strings.TrimSpace`.
unfoldable pub trim_space : String → String
unfolding trim_left trim_right
trim_space s = trim_right (trim_left s)

-- `fmt`'s %q, for a text whose characters are all printable: Go also escapes the others.
escape : String → String
escape String.[] = String.[]
escape (String.◌∷◌ c s) =
    let rest = String.◌∷◌ c (escape s) in
    if eqb (code c) 34 || eqb (code c) 92 then String.◌∷◌ (to_char 92) rest else rest

unfoldable pub quote : String → String
unfolding escape to_char
quote s = String.◌∷◌ (to_char 34) (String.◌++◌ (escape s) (String.◌∷◌ (to_char 34) String.[]))

-- The digits of a number before those in `done`; `suc n` steps are enough, as each leaves `n / 10`.
decimal_codes : ℕ → ℕ → List ℕ → List ℕ
decimal_codes zero n done = done
decimal_codes (suc fuel) n done =
    let more = decimal_codes fuel (n / 10) ((48 + n % 10) ∷ done) in
    if ltb n 10 then (48 + n) ∷ done else more

-- `fmt`'s %d.
unfoldable pub decimal : ℕ → String
unfolding decimal_codes of_codes
decimal n = of_codes (decimal_codes (suc n) n [])
