-- ===== src/Tests/Tokens.antt =====
-- A library of tokens that are texts of their claims behind the secret, with dates truncated to a
-- multiple of ten.
use Prim.Native.Char.{Char, char, code}
use courtknights.Common.{
  ℕ, zero, suc, ◌-◌, ◌%◌, ◌<◌, ◌≤◌, String, ◌≡◌, refl, ap, ◌∙◌, Bool, true, false, eqb, ltb, Option,
  none, some, arith, if◌then◌else◌, ◌==◌, eq_iff,
}
use courtknights.Action.{Result, ok, err}
use courtknights.Errors.{Error, opaque}
use courtknights.Domain.User.{Time}
use courtknights.Infrastructure.Jwt.{Claims, JwtLibrary, Parsed, parsed, rejected}

abbrev more : Char
more = char 99 tt

abbrev end : Char
end = char 110 tt

abbrev put_text : String → String → String
put_text String.[] rest = String.◌∷◌ end rest
put_text (String.◌∷◌ c s) rest = String.◌∷◌ more (String.◌∷◌ c (put_text s rest))

abbrev put_number : ℕ → String → String
put_number zero rest = String.◌∷◌ end rest
put_number (suc n) rest = String.◌∷◌ more (put_number n rest)

abbrev push : Char → Option (String × String) → Option (String × String)
push c none = none
push c (some (s, rest)) = some (String.◌∷◌ c s, rest)

abbrev bump : Option (ℕ × String) → Option (ℕ × String)
bump none = none
bump (some (n, rest)) = some (suc n, rest)

abbrev take_text : String → Option (String × String)
take_text String.[] = none
take_text (String.◌∷◌ m String.[]) = if eqb (code m) 110 then some (String.[], String.[]) else none
take_text (String.◌∷◌ m (String.◌∷◌ c s)) =
    let rest = take_text s in
    if eqb (code m) 110 then some (String.[], String.◌∷◌ c s) else push c rest

abbrev take_number : String → Option (ℕ × String)
take_number String.[] = none
take_number (String.◌∷◌ m s) =
    let rest = take_number s in if eqb (code m) 110 then some (0, s) else bump rest

take_text-put_text : (s rest : String) → take_text (put_text s rest) ≡ some (s, rest)
take_text-put_text String.[] String.[] = refl
take_text-put_text String.[] (String.◌∷◌ c rest) = refl
take_text-put_text (String.◌∷◌ c s) rest = ap (push c) (take_text-put_text s rest)

take_number-put_number : (n : ℕ) (rest : String) → take_number (put_number n rest) ≡ some (n, rest)
take_number-put_number zero rest = refl
take_number-put_number (suc n) rest = ap bump (take_number-put_number n rest)

abbrev truncated : Time → Time
truncated t = t - t % 10

abbrev pub put_claims : String → Claims → String
put_claims secret c = put_text secret (
    put_number (truncated c.issued_at) (
      put_number (truncated c.expires_at)
        (put_text c.subject (put_text c.email (put_text c.role String.[])))))

abbrev then_text : {A : Type 0} → (String → String → Option A) → String → Option A
then_text f s = elim (take_text s) [ none ↦ none | some p ↦ f p.0 p.1 ]

abbrev then_number : {A : Type 0} → (ℕ → String → Option A) → String → Option A
then_number f s = elim (take_number s) [ none ↦ none | some p ↦ f p.0 p.1 ]

then_text-put_text :
    {A : Type 0} (f : String → String → Option A) (s rest : String)
    → then_text f (put_text s rest) ≡ f s rest
then_text-put_text f s rest = rw (then_text, take_text-put_text s rest) refl

then_number-put_number :
    {A : Type 0} (f : ℕ → String → Option A) (n : ℕ) (rest : String)
    → then_number f (put_number n rest) ≡ f n rest
then_number-put_number f n rest = rw (then_number, take_number-put_number n rest) refl

-- The secret and the claims of a token.
unfoldable pub take_claims : String → Option (String × Claims)
take_claims token =
    then_text
      (λ secret. then_number λ issued_at. then_number λ expires_at. then_text λ subject.
        then_text λ email. then_text λ role rest. some (
          secret,
          record {
            subject = subject;
            issued_at = issued_at;
            expires_at = expires_at;
            email = email;
            role = role;
          },
        ))
      token

take_claims-put_claims :
    (secret : String) (c : Claims)
    → take_claims (put_claims secret c)
      ≡ some (
        secret,
        record c { issued_at = truncated c.issued_at; expires_at = truncated c.expires_at },
      )
unfolding take_claims
take_claims-put_claims secret c =
    then_text-put_text _ secret _
    ∙ (then_number-put_number _ (truncated c.issued_at) _
        ∙ (then_number-put_number _ (truncated c.expires_at) _
            ∙ (then_text-put_text _ c.subject _
                ∙ (then_text-put_text _ c.email _ ∙ then_text-put_text _ c.role _))))

abbrev checked : Result String → Time → Option (String × Claims) → Parsed
checked key now none = rejected (opaque "token is malformed")
checked (err e) now (some _) = rejected e
checked (ok secret) now (some (signer, c)) =
    if ltb now c.expires_at
    then (if secret == signer then parsed c true else rejected (opaque "signature is invalid"))
    else rejected (opaque "token is expired")

abbrev pub toy : JwtLibrary
toy = record {
  uuid_string = λ _. "7";
  numeric_date = truncated;
  signed_string = λ c secret. ok (put_claims secret c);
  parse_with_claims = λ token k now. checked (k true) now (take_claims token);
}

pub toy_truncates : (t : Time) → toy.numeric_date (toy.numeric_date t) ≡ toy.numeric_date t
toy_truncates t = omega arith

same_claims :
    (c : Claims)
    → truncated c.issued_at ≡ c.issued_at
    → truncated c.expires_at ≡ c.expires_at
    → record c { issued_at = truncated c.issued_at; expires_at = truncated c.expires_at } ≡ c
same_claims c i e = cc (i, e)

pub toy_accepts :
    (c : Claims) (secret token : String) (k : Bool → Result String) (now : Time)
    → toy.numeric_date c.issued_at ≡ c.issued_at
    → toy.numeric_date c.expires_at ≡ c.expires_at
    → toy.signed_string c secret ≡ ok token
    → k true ≡ ok secret
    → now < c.expires_at
    → toy.parse_with_claims token k now ≡ parsed c true
toy_accepts c secret token k now i e h key early =
    let same : token ≡ put_claims secret c = cc in
    let early? : ltb now c.expires_at ≡ true = ground (arith, early) in
    let signed : (secret == secret) ≡ true = (eq_iff secret secret).1 refl in
    rw (same, take_claims-put_claims secret c, same_claims c i e, key, early?, signed) refl

checked_late :
    (r : Result String) (now : Time) (signer : String) (c : Claims)
    → ltb now c.expires_at ≡ false
    → (e : Error) × (checked r now (some (signer, c)) ≡ rejected e)
checked_late (ok secret) now signer c h = (opaque "token is expired", rw h refl)
checked_late (err e) now signer c h = (e, refl)

pub toy_expires :
    (c : Claims) (secret token : String) (k : Bool → Result String) (now : Time)
    → toy.signed_string c secret ≡ ok token
    → c.expires_at ≤ now
    → (e : Error) × (toy.parse_with_claims token k now ≡ rejected e)
toy_expires c secret token k now h late =
    let same : token ≡ put_claims secret c = cc in
    let late? : ltb now (truncated c.expires_at) ≡ false = ground (arith, late) in
    let (e, bad) =
      checked_late (k true) now secret
        (record c { issued_at = truncated c.issued_at; expires_at = truncated c.expires_at })
        late? in
    (e, rw (same, take_claims-put_claims secret c) bad)
