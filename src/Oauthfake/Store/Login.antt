-- ===== src/Oauthfake/Store/Login.antt =====
-- The redirect flow of tools/oauthfake from the login to the identity.
use courtknights.Common.{
  ℕ, ◌+◌, ◌≤◌, String, ◌≡◌, ◌⊎◌, inl, inr, refl, false, not, ◌&&◌, some, List, arith, eq_iff,
  eq_refl, ◌==◌, ◌∙◌,
}
use courtknights.Common.Dict.{lookup, store, lookup-store}
use courtknights.Oauthfake.Identity.{Identity}
use courtknights.Oauthfake.Store.{
  Store, done, random_hex, after, issue_code, redeem_code, redeem_found, issue_token, lookup_token,
}

known_uri :
    (uri uri' : String)
    → (uri' ≡ "") ⊎ (uri' ≡ uri)
    → (not (uri' == "") && not (uri' == uri)) ≡ false
known_uri uri uri' (inl e) = ground (arith, (eq_iff uri' "").1 e)
known_uri uri uri' (inr e) = ground (arith, (eq_iff uri' uri).1 e)

not_after : (t u : ℕ) → t ≤ u → after t u ≡ false
not_after t u h = ground (arith, h)

stored : {V : Type 0} (k : String) (v : V) (m : List (String × V)) → lookup k (store k v m) ≡ some v
stored k v m = lookup-store k k v m ∙ rw (eq_refl k) refl

-- A login succeeds: the code of `issueCode`, redeemed before it expires by its provider, with no
-- redirect URI or the one it was issued for, gives a token that works as the user who logged in.
pub code_flow :
    (provider uri uri' : String) (id : Identity) (t0 t1 : ℕ) (bytes bytes' : List ℕ) (s : Store)
    → (uri' ≡ "") ⊎ (uri' ≡ uri)
    → t1 ≤ t0 + s.code_ttl
    → let (code, s1) = issue_code provider uri id t0 bytes s in
      let (r, s2) = redeem_code provider code uri' t1 bytes' s1 in
      (r ≡ done (random_hex bytes')) × (lookup_token provider (random_hex bytes') s2 ≡ done id)
unfolding issue_code redeem_code redeem_found issue_token lookup_token
code_flow provider uri uri' id t0 t1 bytes bytes' s known live =
    rw
      (
        redeem_code,
        stored (random_hex bytes)
            (record {
              provider = provider;
              redirect_uri = uri;
              identity = id;
              expires_at = t0 + s.code_ttl;
            })
            s.codes,
        eq_refl provider,
        not_after t1 (t0 + s.code_ttl) live,
        known_uri uri uri' known,
        stored (random_hex bytes') (record { provider = provider; identity = id }) s.tokens,
      )
      (refl, rw (eq_refl provider) refl)
