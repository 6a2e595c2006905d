-- ===== src/Oauthfake/Store/Grants.antt =====
-- Which requests of tools/oauthfake/store.go are given a token, and that codes are good for one.
use courtknights.Common.{
  ℕ, ◌≤◌, String, ◌≡◌, ◌≢◌, inl, inr, refl, Bool, true, false, not, ◌||◌, some, List, arith, eq_iff,
  eq_refl, ◌==◌, Bool-cases, Option-cases, All, if◌then◌else◌,
}
use courtknights.Common.Dict.{lookup, lookup-store}
use courtknights.Oauthfake.Identity.{Identity}
use courtknights.Oauthfake.Store.{
  Store, DeviceAuth, DeviceStatus, pending, approved, denied, done, failed, invalid_grant,
  invalid_bearer, random_hex, issue_token, after, lookup_token,
}
use courtknights.Oauthfake.Store.DeviceRequests.{
  poll_device, poll_found, poll_status, polled_too_fast,
}
use courtknights.Oauthfake.Store.History.{Event, run, NoNewDevice}
use courtknights.Oauthfake.Store.Devices.{run-Moved}

-- A token is good at the user-info endpoints of the provider for which it was issued and at no other.
pub lookup_token-issue_token :
    (provider other : String) (id : Identity) (bytes : List ℕ) (s : Store)
    → let (token, s') = issue_token provider id bytes s in
      lookup_token other token s' ≡ (if provider == other then done id else failed invalid_bearer)
unfolding issue_token lookup_token
lookup_token-issue_token provider other id bytes s = ground (
  arith,
  lookup-store (random_hex bytes) (random_hex bytes) (record { provider = provider; identity = id })
      s.tokens,
  eq_refl (random_hex bytes),
)

-- What a poll that returns a token has seen and done.
pub record Granted (provider code token : String) (now : ℕ) (s s' : Store) : Type 0 where
  pub device : DeviceAuth
  pub present : lookup code s.devices ≡ some device
  pub provider_eq : device.provider ≡ provider
  pub approval : device.status ≡ approved
  pub unused : device.redeemed ≡ false
  pub live : now ≤ device.expires_at
  pub works : lookup_token provider token s' ≡ done device.identity
  pub spent : lookup code s'.devices ≡ some (record device { last_poll = now; redeemed = true })

module _ (provider code token : String) (now : ℕ) (bytes : List ℕ) (s : Store) where
  poll_status-Granted :
      (d : DeviceAuth) (too_fast : Bool) (status : DeviceStatus)
      → lookup code s.devices ≡ some d
      → d.provider ≡ provider
      → d.redeemed ≡ false
      → now ≤ d.expires_at
      → d.status ≡ status
      → (poll_status provider code too_fast bytes status (record d { last_poll = now }) s).0
        ≡ done token
      → Granted provider code token now s
          (poll_status provider code too_fast bytes status (record d { last_poll = now }) s).1
  unfolding poll_status lookup_token
  poll_status-Granted d too_fast denied present same unused live status e = cc
  poll_status-Granted d true pending present same unused live status e = cc
  poll_status-Granted d false pending present same unused live status e = cc
  poll_status-Granted d too_fast approved present same unused live status e = record {
    device = d;
    present = present;
    provider_eq = same;
    approval = status;
    unused = unused;
    live = live;
    works = ground (
      arith,
      lookup-store (random_hex bytes) token (record { provider = provider; identity = d.identity })
          s.tokens,
      eq_iff (random_hex bytes) token,
      eq_refl provider,
    );
    spent = ground (
      arith,
      lookup-store code code (record d { last_poll = now; redeemed = true }) s.devices,
      eq_refl code,
    );
  }

  poll_found-Granted :
      (d : DeviceAuth)
      → lookup code s.devices ≡ some d
      → (poll_found provider code now bytes d s).0 ≡ done token
      → Granted provider code token now s (poll_found provider code now bytes d s).1
  unfolding poll_found
  poll_found-Granted d present e = elim (Bool-cases (not (d.provider == provider) || d.redeemed)) [
    | inl refused ↦ cc (rw refused at e)
    | inr usable ↦ elim (Bool-cases (after now d.expires_at)) [
      | inl expired ↦ cc (rw (usable, expired) at e)
      | inr live ↦
          rw (usable, live)
            (poll_status-Granted d (polled_too_fast d now) d.status present
              (ground (arith, eq_iff d.provider provider)) (ground arith) (ground arith) refl
              (rw (usable, live) at e))
    ]
  ]

  -- A poll returns a token only for a device of this provider that the user has approved, before it
  -- expires, and that no poll has redeemed. The token then works as the approving user, and the
  -- device is redeemed.
  pub poll_device-Granted :
      (poll_device provider code now bytes s).0 ≡ done token
      → Granted provider code token now s (poll_device provider code now bytes s).1
  unfolding poll_device
  poll_device-Granted e = elim (Option-cases (lookup code s.devices)) [
    | inl absent ↦ cc (rw (absent, poll_device) at e)
    | inr (d, present) ↦
        rw (present, poll_device) (poll_found-Granted d present (rw (present, poll_device) at e))
  ]

poll-redeemed :
    (provider code : String) (now : ℕ) (bytes : List ℕ) (d : DeviceAuth) (s : Store)
    → lookup code s.devices ≡ some d
    → d.redeemed ≡ true
    → (poll_device provider code now bytes s).0 ≡ failed invalid_grant
unfolding poll_device
poll-redeemed provider code now bytes d s present used = rw (present, poll_device) (ground arith)

-- A device code buys one token: whatever is called after the poll that returned it, every later
-- poll fails with invalid_grant, unless a new request draws the same device code.
pub device_redeemed_once :
    (provider code token : String) (now : ℕ) (bytes : List ℕ) (s : Store) (es : List Event)
    (other : String) (later : ℕ) (bytes' : List ℕ)
    → (poll_device provider code now bytes s).0 ≡ done token
    → All (NoNewDevice code) es
    → (poll_device other code later bytes' (run es (poll_device provider code now bytes s).1)).0
      ≡ failed invalid_grant
device_redeemed_once provider code token now bytes s es other later bytes' e quiet =
    let granted = poll_device-Granted provider code token now bytes s e in
    let (d, present, move) = run-Moved es _ code _ quiet granted.spent in
    poll-redeemed other code later bytes' d _ present (ground (arith, move.redeemed))

-- Once a request is denied no poll of its device code returns a token, whatever is called between,
-- unless a new request draws the same device code.
pub device_denied_stays :
    (code : String) (d : DeviceAuth) (s : Store) (es : List Event) (provider token : String)
    (now : ℕ) (bytes : List ℕ)
    → lookup code s.devices ≡ some d
    → d.status ≡ denied
    → All (NoNewDevice code) es
    → (poll_device provider code now bytes (run es s)).0 ≢ done token
device_denied_stays code d s es provider token now bytes present denial quiet e =
    let granted = poll_device-Granted provider code token now bytes (run es s) e in
    let (d', present', move) = run-Moved es s code d quiet present in
    let same : granted.device ≡ d' = cc (granted.present, present') in
    ground (arith, move.decided, granted.approval, same)
