-- ===== src/Common/Query.antt =====
-- `url.QueryEscape`, on the bytes of a text's UTF-8.
use Prim.Native.Nat.{ℕ, ◌+◌, ◌/◌, ◌%◌}
use Prim.Native.String.{String}
use mathlib.Core.Bool.{Bool, ◌&&◌, ◌||◌}
use mathlib.Core.List.{List, [], ◌∷◌, ◌++◌}
use courtknights.Common.Tests.{ltb, leb, eqb, if◌then◌else◌}
use courtknights.Common.Text.{codes, of_codes, utf8}

-- Letters, digits and "-_.~".
abbrev is_unreserved : ℕ → Bool
is_unreserved b =
    (leb 48 b && leb b 57)
    || (leb 65 b && leb b 90)
    || (leb 97 b && leb b 122)
    || eqb b 45
    || eqb b 46
    || eqb b 95
    || eqb b 126

abbrev hex_digit : ℕ → ℕ
hex_digit n = if ltb n 10 then 48 + n else 55 + n

abbrev escape_byte : ℕ → List ℕ
escape_byte b =
    if is_unreserved b
    then b ∷ []
    else if eqb b 32
    then 43 ∷ []
    else 37 ∷ hex_digit (b / 16) ∷ hex_digit (b % 16) ∷ []

abbrev escape_bytes : List ℕ → List ℕ
escape_bytes [] = []
escape_bytes (b ∷ bytes) = escape_byte b ++ escape_bytes bytes

abbrev escape_codes : List ℕ → List ℕ
escape_codes [] = []
escape_codes (c ∷ s) = escape_bytes (utf8 c) ++ escape_codes s

unfoldable pub query_escape : String → String
unfolding of_codes
query_escape s = of_codes (escape_codes (codes s))
