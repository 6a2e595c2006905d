-- ===== src/Oauthfake/Identity.antt =====
-- tools/oauthfake/identity.go
use Prim.Native.Nat.{bit_xor}
use courtknights.Common.{
  ℕ, ◌*◌, ◌%◌, ◌^◌, ◌<◌, String, ◌⧺◌, Bool, true, false, not, Option, none, some, List, [], ◌∷◌,
  ◌++◌, ◌==◌, codes, trim_space, utf8, if◌then◌else◌, arith,
}

pub record Identity : Type 0 where
  pub login : String
  pub email : String
  pub name : String
  pub email_verified : Bool

-- `Identity{}`
abbrev pub no_identity : Identity
no_identity = record { login = ""; email = ""; name = ""; email_verified = false }

-- An empty text gives way to the default.
abbrev default : String → String → String
default s d = if s == "" then d else s

unfoldable pub new_identity : String → String → String → Option Identity
new_identity login email name =
    let login' = trim_space login in
    if login' == ""
    then none
    else some (record {
      login = login';
      email = default (trim_space email) (login' ⧺ "@example.com");
      name = default (trim_space name) login';
      email_verified = true;
    })

unfoldable pub with_email_verified : Identity → String → Identity
with_email_verified i param = record i { email_verified = not (param == "false") }

unfoldable pub google_sub : Identity → String
google_sub i = "fake-google-" ⧺ i.login

utf8_bytes : List ℕ → List ℕ
utf8_bytes [] = []
utf8_bytes (c ∷ s) = utf8 c ++ utf8_bytes s

-- One byte of `hash/fnv`'s 64-bit FNV-1a.
fnv_byte : ℕ → ℕ → ℕ
fnv_byte h b = bit_xor h b * 1099511628211 % 2 ^ 64

fnv64a : ℕ → List ℕ → ℕ
unfolding fnv_byte
fnv64a h [] = h
fnv64a h (b ∷ bs) = fnv64a (fnv_byte h b) bs

unfoldable pub github_id : Identity → ℕ
unfolding fnv64a utf8_bytes
github_id i = fnv64a 14695981039346656037 (utf8_bytes (codes i.login)) % 2 ^ 53

-- A GitHub ID fits the 53 bits that JavaScript represents exactly, and int64.
pub github_id_bound : (i : Identity) → github_id i < 2 ^ 53
unfolding github_id
github_id_bound i = omega arith
