-- ===== src/Tests/Codes.antt =====
-- Runs of the user codes and the authorization codes of oauthfake.
use courtknights.Common.{
  ne_of_test, ◌≢◌, some, ◌≡◌, refl, String, none, [], ◌∷◌, map, codes, arith, inl,
}
use courtknights.Common.Dict.{lookup}
use courtknights.Oauthfake.Store.UserCode.{block_code, new_user_code, normalize_user_code}
use courtknights.Oauthfake.Store.UserCode.Loop.{new_user_code_ends}
use courtknights.Oauthfake.Store.UserCode.Typing.{
  Types, typed_out, noise, capital, small, normalize_user_code-Types, IsDrawn, letter,
}
use courtknights.Oauthfake.Store.{
  Store, AuthCode, done, failed, invalid_grant, new_store, random_hex, redeem_code, lookup_token,
}
use courtknights.Oauthfake.Store.History.{run}
use courtknights.Oauthfake.Store.Codes.{code_spent_once}
use courtknights.Oauthfake.Store.{issue_code}
use courtknights.Oauthfake.Store.Login.{code_flow}
use courtknights.Tests.Devices.{ana, block}

first_code : block_code block ≡ "BCDF-GHJK"
unfolding block_code
first_code = refl

typed_codes :
    (normalize_user_code "bcdf ghjk" ≡ "BCDF-GHJK")
    × (normalize_user_code "BCDFGHJK" ≡ "BCDF-GHJK")
    × (normalize_user_code "bc-d" ≡ "BCD")
unfolding normalize_user_code
typed_codes = (refl, refl, refl)

typing : Types (codes "bC df-ghjk!") (map letter block)
typing = small refl (omega arith) (omega arith) (
    capital (omega arith) (omega arith) (
      noise (inl (omega arith)) (
        small refl (omega arith) (omega arith) (
          small refl (omega arith) (omega arith) (
            noise (inl (omega arith)) (
              small refl (omega arith) (omega arith) (
                small refl (omega arith) (omega arith) (
                  small refl (omega arith) (omega arith) (
                    small refl (omega arith) (omega arith)
                      (noise (inl (omega arith)) typed_out))))))))))

normalize_user_code-Types_example : normalize_user_code "bC df-ghjk!" ≡ block_code block
normalize_user_code-Types_example = normalize_user_code-Types "bC df-ghjk!" block refl typing

differing_codes : block_code block ≢ block_code (0 ∷ 0 ∷ 0 ∷ 0 ∷ 0 ∷ 0 ∷ 0 ∷ 0 ∷ [])
unfolding block_code
differing_codes =
    ne_of_test (block_code block) (block_code (0 ∷ 0 ∷ 0 ∷ 0 ∷ 0 ∷ 0 ∷ 0 ∷ 0 ∷ [])) refl

-- The code of the first block is taken, and that of the second is not.
new_user_code_ends_example :
    (c : String) × (new_user_code
        (block ∷ (0 ∷ 0 ∷ 0 ∷ 0 ∷ 0 ∷ 0 ∷ 0 ∷ 0 ∷ []) ∷ [])
        (("BCDF-GHJK", "00") ∷ [])
      ≡ some c)
    × (lookup {V = String} c (("BCDF-GHJK", "00") ∷ []) ≡ none)
    × IsDrawn c (block ∷ (0 ∷ 0 ∷ 0 ∷ 0 ∷ 0 ∷ 0 ∷ 0 ∷ 0 ∷ []) ∷ [])
unfolding block_code
new_user_code_ends_example =
    new_user_code_ends (block ∷ (0 ∷ 0 ∷ 0 ∷ 0 ∷ 0 ∷ 0 ∷ 0 ∷ 0 ∷ []) ∷ [])
      (("BCDF-GHJK", "00") ∷ []) ((differing_codes, tt), (tt, tt)) (omega arith)

abbrev login_code : AuthCode
login_code = record {
  provider = "github";
  redirect_uri = "http://localhost/cb";
  identity = ana;
  expires_at = 700;
}

abbrev with_code : Store
with_code = record (new_store 600 5) { codes = ("0a", login_code) ∷ [] }

code_spent_once_example :
    (redeem_code "github" "0a" "http://localhost/cb" 200
      (12 ∷ [])
      (run [] (redeem_code "github" "0a" "http://evil/cb" 100 (11 ∷ []) with_code).1)).0
    ≡ failed invalid_grant
unfolding lookup
code_spent_once_example =
    code_spent_once "github" "0a" "http://evil/cb" 100 (11 ∷ []) with_code login_code [] "github"
      "http://localhost/cb" 200 (12 ∷ []) refl refl tt

code_flow_example :
    let (code, s1) =
      issue_code "github" "http://localhost/cb" ana 100 (10 ∷ []) (new_store 600 5) in
    let (r, s2) = redeem_code "github" code "" 200 (11 ∷ []) s1 in
    (r ≡ done (random_hex (11 ∷ []))) × (lookup_token "github" (random_hex (11 ∷ [])) s2 ≡ done ana)
code_flow_example =
    code_flow "github" "http://localhost/cb" "" ana 100 200 (10 ∷ []) (11 ∷ []) (new_store 600 5)
      (inl refl) (omega arith)
