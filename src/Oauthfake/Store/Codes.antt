-- ===== src/Oauthfake/Store/Codes.antt =====
-- Authorization codes of tools/oauthfake/store.go are good for one attempt.
use courtknights.Common.{
  ℕ, ◌≤◌, String, ◌≡◌, ◌≢◌, ◌⊎◌, inl, inr, Bool, not, ◌||◌, ◌&&◌, none, some, List, [], ◌∷◌, arith,
  eq_iff, eq_refl, ◌==◌, Bool-cases, Option-cases, All,
}
use courtknights.Common.Dict.{lookup, lookup-store, lookup-delete}
use courtknights.Oauthfake.Identity.{Identity}
use courtknights.Oauthfake.Store.{
  Store, AuthCode, done, failed, invalid_grant, random_hex, issue_token, issue_code, redeem_code,
  redeem_found, after, lookup_token,
}
use courtknights.Oauthfake.Store.DeviceRequests.{start_device, resolve_device, poll_device}
use courtknights.Oauthfake.Store.History.{
  Event, issue, redeem, start, resolve, poll, started, step, run, NoNewCode,
}

-- Whatever redeemCode answers for a code of the provider, the code is gone.
redeem-spends :
    (provider code uri : String) (now : ℕ) (bytes : List ℕ) (s : Store) (c : AuthCode)
    → lookup code s.codes ≡ some c
    → c.provider ≡ provider
    → lookup code (redeem_code provider code uri now bytes s).1.codes ≡ none
unfolding redeem_code
redeem-spends provider code uri now bytes s c present same =
    ground (arith, lookup-delete code code s.codes, eq_refl code, eq_iff c.provider provider)

start-codes :
    (provider : String) (now : ℕ) (bytes : List ℕ) (draws : List (List ℕ)) (s : Store)
    → (started s (start_device provider now bytes draws s)).codes ≡ s.codes
unfolding start_device
start-codes provider now bytes draws s = ground arith

resolve-codes :
    (provider typed : String) (approve : Bool) (id : Identity) (now : ℕ) (s : Store)
    → (resolve_device provider typed approve id now s).1.codes ≡ s.codes
unfolding resolve_device
resolve-codes provider typed approve id now s = ground arith

poll-codes :
    (provider code : String) (now : ℕ) (bytes : List ℕ) (s : Store)
    → (poll_device provider code now bytes s).1.codes ≡ s.codes
unfolding poll_device
poll-codes provider code now bytes s = ground arith

redeem-keeps_none :
    (provider code uri : String) (now : ℕ) (bytes : List ℕ) (s : Store) (gone : String)
    → lookup gone s.codes ≡ none
    → lookup gone (redeem_code provider code uri now bytes s).1.codes ≡ none
unfolding redeem_code
redeem-keeps_none provider code uri now bytes s gone h =
    ground (arith, lookup-delete code gone s.codes)

issue-keeps_none :
    (provider uri : String) (id : Identity) (now : ℕ) (bytes : List ℕ) (s : Store) (gone : String)
    → random_hex bytes ≢ gone
    → lookup gone s.codes ≡ none
    → lookup gone (issue_code provider uri id now bytes s).1.codes ≡ none
unfolding issue_code
issue-keeps_none provider uri id now bytes s gone other h =
    rw (lookup-store (random_hex bytes) gone _ s.codes)
      (ground (arith, eq_iff (random_hex bytes) gone))

step-keeps_none :
    (e : Event) (s : Store) (gone : String)
    → NoNewCode gone e
    → lookup gone s.codes ≡ none
    → lookup gone (step e s).codes ≡ none
unfolding step
step-keeps_none (issue provider uri id now bytes) s gone other h =
    issue-keeps_none provider uri id now bytes s gone other h
step-keeps_none (redeem provider code uri now bytes) s gone _ h =
    redeem-keeps_none provider code uri now bytes s gone h
step-keeps_none (start provider now bytes draws) s gone _ h =
    rw (start-codes provider now bytes draws s) h
step-keeps_none (resolve provider typed approve id now) s gone _ h =
    rw (resolve-codes provider typed approve id now s) h
step-keeps_none (poll provider code now bytes) s gone _ h =
    rw (poll-codes provider code now bytes s) h

run-keeps_none :
    (es : List Event) (s : Store) (gone : String)
    → All (NoNewCode gone) es
    → lookup gone s.codes ≡ none
    → lookup gone (run es s).codes ≡ none
unfolding run
run-keeps_none [] s gone _ h = h
run-keeps_none (e ∷ es) s gone (other, others) h =
    run-keeps_none es (step e s) gone others (step-keeps_none e s gone other h)

redeem-gone :
    (provider code uri : String) (now : ℕ) (bytes : List ℕ) (s : Store)
    → lookup code s.codes ≡ none
    → (redeem_code provider code uri now bytes s).0 ≡ failed invalid_grant
unfolding redeem_code
redeem-gone provider code uri now bytes s h = rw (h, redeem_code)

-- One attempt by its provider uses a code up, also one that fails by the redirect URI or the time:
-- whatever is called later, the code is answered with invalid_grant, unless a new one is drawn with
-- the same text.
pub code_spent_once :
    (provider code uri : String) (now : ℕ) (bytes : List ℕ) (s : Store) (c : AuthCode)
    (es : List Event) (other uri' : String) (later : ℕ) (bytes' : List ℕ)
    → lookup code s.codes ≡ some c
    → c.provider ≡ provider
    → All (NoNewCode code) es
    → (redeem_code other code uri' later bytes'
        (run es (redeem_code provider code uri now bytes s).1)).0
      ≡ failed invalid_grant
code_spent_once provider code uri now bytes s c es other uri' later bytes' present same quiet =
    redeem-gone other code uri' later bytes' _
      (run-keeps_none es _ code quiet (redeem-spends provider code uri now bytes s c present same))

-- What a redeemCode that returns a token has seen and done.
pub record Redeemed (provider code uri token : String) (now : ℕ) (s s' : Store) : Type 0 where
  pub entry : AuthCode
  pub present : lookup code s.codes ≡ some entry
  pub provider_eq : entry.provider ≡ provider
  pub live : now ≤ entry.expires_at
  pub redirect : (uri ≡ "") ⊎ (uri ≡ entry.redirect_uri)
  pub works : lookup_token provider token s' ≡ done entry.identity

module _ (provider code uri token : String) (now : ℕ) (bytes : List ℕ) (s : Store) where
  redeem_found-Redeemed :
      (c : AuthCode)
      → lookup code s.codes ≡ some c
      → c.provider ≡ provider
      → (redeem_found provider code uri now bytes c s).0 ≡ done token
      → Redeemed provider code uri token now s (redeem_found provider code uri now bytes c s).1
  unfolding redeem_found issue_token lookup_token
  redeem_found-Redeemed c present same e =
      elim (Bool-cases
        (after now c.expires_at || (not (uri == "") && not (uri == c.redirect_uri)))) [
          | inl refused ↦ cc (rw refused at e)
          | inr good ↦ record {
            entry = c;
            present = present;
            provider_eq = same;
            live = ground arith;
            redirect = ground (arith, eq_iff uri "", eq_iff uri c.redirect_uri);
            works = rw good (
                ground (
                  arith,
                  lookup-store (random_hex bytes) token
                      (record { provider = provider; identity = c.identity }) s.tokens,
                  rw good at e,
                  eq_iff (random_hex bytes) token,
                  eq_refl provider,
                ));
          }
        ]

  -- redeemCode returns a token only for a code that this provider issued, before it expires, and
  -- with no redirect URI or the one it was issued for; the token works as the user who logged in.
  pub redeem_code-Redeemed :
      (redeem_code provider code uri now bytes s).0 ≡ done token
      → Redeemed provider code uri token now s (redeem_code provider code uri now bytes s).1
  unfolding redeem_code
  redeem_code-Redeemed e = elim (Option-cases (lookup code s.codes)) [
    | inl absent ↦ cc (rw (absent, redeem_code) at e)
    | inr (c, present) ↦ elim (Bool-cases (c.provider == provider)) [
      | inr other ↦ cc (rw (present, other, redeem_code) at e)
      | inl same ↦
          rw (present, redeem_code, same)
            (redeem_found-Redeemed c present ((eq_iff c.provider provider).0 same)
              (rw (present, redeem_code, same) at e))
    ]
  ]
