-- ===== src/Oauthfake/Store/UserCode/Loop.antt =====
-- When the loop of newUserCodeLocked in tools/oauthfake/store.go ends.
use courtknights.Common.{
  ℕ, ◌≡◌, ◌≢◌, ◌≤◌, ◌<◌, inl, inr, String, false, none, some, List, [], ◌∷◌, length, All, is_none,
  arith, test_of_ne, Option-cases,
}
use courtknights.Common.Dict.{Dict, lookup, delete, lookup-delete}
use courtknights.Oauthfake.Store.UserCode.{block_code, new_user_code}
use courtknights.Oauthfake.Store.UserCode.Typing.{IsDrawn, new_user_code_fresh}

-- No two of the blocks stand for the same code.
abbrev pub Differ : List (List ℕ) → Type 0
Differ [] = Unit
Differ (b ∷ draws) = All (λ d. block_code b ≢ block_code d) draws × Differ draws

-- Every block stands for a code that is taken.
abbrev AllTaken : Dict String → List (List ℕ) → Type 0
AllTaken taken draws = All (λ b. is_none (lookup (block_code b) taken) ≡ false) draws

length-delete_le : (k : String) (m : Dict String) → length (delete k m) ≤ length m
unfolding delete
length-delete_le k [] = omega arith
length-delete_le k ((j, v) ∷ m) = ground (arith, length-delete_le k m)

length-delete :
    (k : String) (m : Dict String) → is_none (lookup k m) ≡ false → length (delete k m) < length m
unfolding delete lookup
length-delete k [] h = absurd (cc h)
length-delete k ((j, v) ∷ m) h = ground (arith, h, length-delete k m, length-delete_le k m)

AllTaken-delete :
    (k : String) (taken : Dict String) (draws : List (List ℕ))
    → All (λ d. k ≢ block_code d) draws
    → AllTaken taken draws
    → AllTaken (delete k taken) draws
AllTaken-delete k taken [] n h = tt
AllTaken-delete k taken (d ∷ draws) (n, ns) (h, hs) = (
  rw (lookup-delete k (block_code d) taken, test_of_ne k (block_code d) n) h,
  AllTaken-delete k taken draws ns hs,
)

-- Different codes that are all taken are no more than the taken ones.
Differ-AllTaken :
    (draws : List (List ℕ)) (taken : Dict String)
    → Differ draws
    → AllTaken taken draws
    → length draws ≤ length taken
Differ-AllTaken [] taken d h = omega arith
Differ-AllTaken (b ∷ draws) taken (n, d) (h, hs) =
    let fewer = length-delete (block_code b) taken h in
    let rest =
      Differ-AllTaken draws (delete (block_code b) taken) d
        (AllTaken-delete (block_code b) taken draws n hs) in
    omega (arith, fewer, rest)

new_user_code_taken :
    (draws : List (List ℕ)) (taken : Dict String)
    → new_user_code draws taken ≡ none
    → AllTaken taken draws
unfolding new_user_code
new_user_code_taken [] taken h = tt
new_user_code_taken (b ∷ draws) taken h = ground (arith, h, new_user_code_taken draws taken)

-- The loop ends: of any blocks that stand for different codes, one more than the codes in use are
-- enough, and the code that it returns is that of one of them and not in use.
pub new_user_code_ends :
    (draws : List (List ℕ)) (taken : Dict String)
    → Differ draws
    → length taken < length draws
    → (c : String) × (new_user_code draws taken ≡ some c)
      × (lookup c taken ≡ none)
      × IsDrawn c draws
new_user_code_ends draws taken d more = elim (Option-cases (new_user_code draws taken)) [
  | inl e ↦
      let few = Differ-AllTaken draws taken d (new_user_code_taken draws taken e) in
      absurd (omega (arith, few, more))
  | inr (c, e) ↦ let (free, drawn) = new_user_code_fresh draws taken c e in (c, e, free, drawn)
]
