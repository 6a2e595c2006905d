-- ===== src/Errors.antt =====
-- api/internal/domain/ckerrors and the sentinel errors of the other packages, with the part of Go's
-- package `errors` that reads them.
use courtknights.Common.{
  ℕ, String, ◌⧺◌, ◌≡◌, Bool, true, false, ◌||◌, Option, none, some, eqb, if◌then◌else◌, ◌==◌, arith,
}

pub data Sentinel : Type 0 where
  user_not_found pat_not_found pat_expired invalid_pat unauthorized : Sentinel
  email_already_registered profile_not_found invalid_location profile_conflict : Sentinel
  provider_not_configured email_not_verified authorization_pending slow_down : Sentinel
  access_denied device_code_expired invalid_device_code : Sentinel

-- Sentinels are compared by identity.
abbrev tag : Sentinel → ℕ
tag user_not_found = 0
tag pat_not_found = 1
tag pat_expired = 2
tag invalid_pat = 3
tag unauthorized = 4
tag email_already_registered = 5
tag profile_not_found = 6
tag invalid_location = 7
tag profile_conflict = 8
tag provider_not_configured = 9
tag email_not_verified = 10
tag authorization_pending = 11
tag slow_down = 12
tag access_denied = 13
tag device_code_expired = 14
tag invalid_device_code = 15

unfoldable pub sentinel_text : Sentinel → String
sentinel_text user_not_found = "user not found"
sentinel_text pat_not_found = "personal access token not found"
sentinel_text pat_expired = "personal access token expired"
sentinel_text invalid_pat = "invalid personal access token"
sentinel_text unauthorized = "unauthorized"
sentinel_text email_already_registered = "email already registered"
sentinel_text profile_not_found = "profile not found"
sentinel_text invalid_location = "invalid location"
sentinel_text profile_conflict = "profile changed concurrently"
sentinel_text provider_not_configured = "provider not configured"
sentinel_text email_not_verified = "email not verified by provider"
sentinel_text authorization_pending = "authorization_pending"
sentinel_text slow_down = "slow_down"
sentinel_text access_denied = "access_denied"
sentinel_text device_code_expired = "expired_token"
sentinel_text invalid_device_code = "invalid device code"

-- `opaque` is an error that wraps nothing, `email_conflict p` an EmailAlreadyRegisteredError with
-- the provider `p`, `wrap s e` what `fmt.Errorf("s: %w", e)` returns, and `join s e f` what
-- `fmt.Errorf("s: %w: %w", e, f)` does, with no prefix for the empty `s`.
pub data Error : Type 0 where
  opaque : String → Error
  sentinel : Sentinel → Error
  email_conflict : String → Error
  wrap : String → Error → Error
  join : String → Error → Error → Error

-- `errors.Is`; an EmailAlreadyRegisteredError unwraps to ErrEmailAlreadyRegistered.
unfoldable pub is : Sentinel → Error → Bool
is s (opaque m) = false
is s (sentinel t) = eqb (tag s) (tag t)
is s (email_conflict p) = eqb (tag s) (tag email_already_registered)
is s (wrap m e) = is s e
is s (join m e f) = is s e || is s f

abbrev first {ℓ} : {A : Type ℓ} → Option A → Option A → Option A
first none o = o
first (some a) o = some a

-- `errors.As` into an EmailAlreadyRegisteredError: its provider.
unfoldable pub as_email_conflict : Error → Option String
as_email_conflict (opaque m) = none
as_email_conflict (sentinel t) = none
as_email_conflict (email_conflict p) = some p
as_email_conflict (wrap m e) = as_email_conflict e
as_email_conflict (join m e f) = first (as_email_conflict e) (as_email_conflict f)

-- `err.Error()`
unfoldable pub message : Error → String
unfolding sentinel_text
message (opaque m) = m
message (sentinel s) = sentinel_text s
message (email_conflict p) =
    if p == ""
    then sentinel_text email_already_registered
    else sentinel_text email_already_registered ⧺ " with provider " ⧺ p
message (wrap m e) = m ⧺ ": " ⧺ message e
message (join m e f) =
    let tail = message e ⧺ ": " ⧺ message f in if m == "" then tail else m ⧺ ": " ⧺ tail

-- A conflict that `errors.As` finds is one that `errors.Is` finds.
pub is-as_email_conflict :
    (e : Error) (p : String) → as_email_conflict e ≡ some p → is email_already_registered e ≡ true
unfolding is as_email_conflict
is-as_email_conflict (email_conflict q) p h = ground arith
is-as_email_conflict (wrap m e) p h = is-as_email_conflict e p h
is-as_email_conflict (join m e f) p h =
    ground (arith, is-as_email_conflict e p, is-as_email_conflict f p)
is-as_email_conflict _ p h = ground arith
