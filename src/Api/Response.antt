-- ===== src/Api/Response.antt =====
-- What a handler of api/internal/api answers, and how it uses a manager's result.
use courtknights.Common.{ℕ, String}
use courtknights.Action.{Result, ok, err}
use courtknights.Errors.{Error}

-- `http_error` is an echo.HTTPError that the handler returns; the other three are written by it.
pub data Response {ℓ} (A : Type ℓ) : Type ℓ where
  json : ℕ → A → Response A
  redirect : String → Response A
  no_content : Response A
  http_error : ℕ → String → Response A

-- The status of the response; `redirect` is 302 and `no_content` 204.
abbrev pub status {ℓ} : {A : Type ℓ} → Response A → ℕ
status (json code body) = code
status (redirect target) = 302
status no_content = 204
status (http_error code message) = code

-- `v, err := call(); if err != nil { return failure(err) }; return success(v)`
abbrev pub answer {ℓ κ} :
    {A : Type ℓ} {B : Type κ} {S : Type 0}
    → (A → Response B)
    → (Error → Response B)
    → Result A × S
    → Response B × S
answer success failure (ok a, s) = (success a, s)
answer success failure (err e, s) = (failure e, s)
