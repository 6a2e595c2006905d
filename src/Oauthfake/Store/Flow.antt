-- ===== src/Oauthfake/Store/Flow.antt =====
-- The device flow of tools/oauthfake from its start to the identity, and its polling interval.
use courtknights.Common.{
  ℕ, ◌+◌, ◌≤◌, String, ◌≡◌, inl, inr, refl, Bool, true, false, some, List, arith, eq_iff, eq_refl,
  Option-cases, subst, ◌∙◌,
}
use courtknights.Common.Dict.{lookup, store, lookup-store}
use courtknights.Oauthfake.Identity.{Identity, no_identity}
use courtknights.Oauthfake.Store.UserCode.{new_user_code, normalize_user_code}
use courtknights.Oauthfake.Store.{
  Store, DeviceAuth, pending, approved, done, random_hex, issue_token, lookup_token,
}
use courtknights.Oauthfake.Store.DeviceRequests.{
  DeviceStart, decided, add_device, start_device, resolve_device, resolve_code, resolve_found,
  poll_device, poll_found, poll_status,
}

-- The request that startDevice makes at time `t0`.
abbrev requested : String → ℕ → String → Store → DeviceAuth
requested provider t0 user_code s = record {
  provider = provider;
  user_code = user_code;
  status = pending;
  identity = no_identity;
  expires_at = t0 + s.code_ttl;
  interval = s.interval;
  last_poll = 0;
  redeemed = false;
}

add_device-makes :
    (provider : String) (t0 : ℕ) (code user_code : String) (s : Store)
    → let (st, s1) = add_device provider t0 code user_code s in
      (lookup st.user_code s1.user_codes ≡ some st.device_code)
      × (lookup st.device_code s1.devices ≡ some (requested provider t0 st.user_code s))
unfolding add_device
add_device-makes provider t0 code user_code s = (
  ground (arith, lookup-store user_code user_code code s.user_codes, eq_refl user_code),
  ground
      (arith, lookup-store code code (requested provider t0 user_code s) s.devices, eq_refl code),
)

abbrev Makes : String → ℕ → Store → DeviceStart × Store → Type 0
Makes provider t0 s (st, s1) =
    (lookup st.user_code s1.user_codes ≡ some st.device_code)
    × (lookup st.device_code s1.devices ≡ some (requested provider t0 st.user_code s))

start-makes :
    (provider : String) (t0 : ℕ) (bytes : List ℕ) (draws : List (List ℕ)) (s s1 : Store)
    (st : DeviceStart)
    → start_device provider t0 bytes draws s ≡ some (st, s1)
    → (lookup st.user_code s1.user_codes ≡ some st.device_code)
      × (lookup st.device_code s1.devices ≡ some (requested provider t0 st.user_code s))
unfolding start_device
start-makes provider t0 bytes draws s s1 st e =
    elim (Option-cases (new_user_code draws s.user_codes)) [
      | inl taken ↦ cc (rw (taken, start_device) at e)
      | inr (user_code, drawn) ↦
          let made : add_device provider t0 (random_hex bytes) user_code s ≡ (st, s1) =
            cc (rw (drawn, start_device) at e) in
          subst (Makes provider t0 s) made
            (add_device-makes provider t0 (random_hex bytes) user_code s)
    ]

resolve_found-decides :
    (provider code : String) (approve : Bool) (id : Identity) (t1 : ℕ) (d : DeviceAuth) (s : Store)
    → d.provider ≡ provider
    → d.status ≡ pending
    → t1 ≤ d.expires_at
    → resolve_found provider code approve id t1 d s
      ≡ (done tt, record s { devices = store code (decided approve id d) s.devices })
unfolding resolve_found
resolve_found-decides provider code approve id t1 d s same open_request live =
    ground (arith, eq_iff d.provider provider)

resolve_code-decides :
    (provider code : String) (approve : Bool) (id : Identity) (t1 : ℕ) (d : DeviceAuth) (s : Store)
    → lookup code s.devices ≡ some d
    → d.provider ≡ provider
    → d.status ≡ pending
    → t1 ≤ d.expires_at
    → resolve_code provider code approve id t1 s
      ≡ (done tt, record s { devices = store code (decided approve id d) s.devices })
unfolding resolve_code
resolve_code-decides provider code approve id t1 d s present same open_request live =
    rw (present, resolve_code)
      (resolve_found-decides provider code approve id t1 d s same open_request live)

pub resolve-decides :
    (provider typed code : String) (approve : Bool) (id : Identity) (t1 : ℕ) (d : DeviceAuth)
    (s : Store)
    → lookup (normalize_user_code typed) s.user_codes ≡ some code
    → lookup code s.devices ≡ some d
    → d.provider ≡ provider
    → d.status ≡ pending
    → t1 ≤ d.expires_at
    → resolve_device provider typed approve id t1 s
      ≡ (done tt, record s { devices = store code (decided approve id d) s.devices })
unfolding resolve_device
resolve-decides provider typed code approve id t1 d s known present same open_request live =
    rw (known, resolve_device)
      (resolve_code-decides provider code approve id t1 d s present same open_request live)

poll_found-approved :
    (provider code : String) (t2 : ℕ) (bytes : List ℕ) (d : DeviceAuth) (s : Store)
    → d.provider ≡ provider
    → d.status ≡ approved
    → d.redeemed ≡ false
    → t2 ≤ d.expires_at
    → let (r, s') = poll_found provider code t2 bytes d s in
      (r ≡ done (random_hex bytes))
      × (lookup_token provider (random_hex bytes) s' ≡ done d.identity)
unfolding poll_found poll_status issue_token lookup_token
poll_found-approved provider code t2 bytes d s same status unused live = ground (
  arith,
  eq_iff d.provider provider,
  eq_refl provider,
  eq_refl (random_hex bytes),
  lookup-store (random_hex bytes) (random_hex bytes)
      (record { provider = provider; identity = d.identity }) s.tokens,
)

pub poll-approved :
    (provider code : String) (t2 : ℕ) (bytes : List ℕ) (d : DeviceAuth) (s : Store)
    → lookup code s.devices ≡ some d
    → d.provider ≡ provider
    → d.status ≡ approved
    → d.redeemed ≡ false
    → t2 ≤ d.expires_at
    → let (r, s') = poll_device provider code t2 bytes s in
      (r ≡ done (random_hex bytes))
      × (lookup_token provider (random_hex bytes) s' ≡ done d.identity)
unfolding poll_device
poll-approved provider code t2 bytes d s present same status unused live =
    rw (present, poll_device)
      (poll_found-approved provider code t2 bytes d s same status unused live)

-- The flow succeeds: once startDevice has answered, an approval of what the user types, if it reads
-- as the user code, and a poll of the device code give a token that works as the approving user, if
-- both come before the request expires.
pub device_flow :
    (provider typed : String) (t0 t1 t2 : ℕ) (bytes bytes' : List ℕ) (draws : List (List ℕ))
    (id : Identity) (s s1 : Store) (st : DeviceStart)
    → start_device provider t0 bytes draws s ≡ some (st, s1)
    → normalize_user_code typed ≡ st.user_code
    → t1 ≤ t0 + s.code_ttl
    → t2 ≤ t0 + s.code_ttl
    → let (resolved, s2) = resolve_device provider typed true id t1 s1 in
      let (polled, s3) = poll_device provider st.device_code t2 bytes' s2 in
      (resolved ≡ done tt)
      × (polled ≡ done (random_hex bytes'))
      × (lookup_token provider (random_hex bytes') s3 ≡ done id)
device_flow provider typed t0 t1 t2 bytes bytes' draws id s s1 st started typed_code in_time live =
    let (known, present) = start-makes provider t0 bytes draws s s1 st started in
    let d = requested provider t0 st.user_code s in
    let s2 = record s1 { devices = store st.device_code (decided true id d) s1.devices } in
    let resolution =
      resolve-decides provider typed st.device_code true id t1 d s1 (rw typed_code known) present
        refl refl in_time in
    let now_present : lookup st.device_code s2.devices ≡ some (decided true id d) =
      lookup-store st.device_code st.device_code (decided true id d) s1.devices
      ∙ rw (eq_refl st.device_code) in
    let (polled, works) =
      poll-approved provider st.device_code t2 bytes' (decided true id d) s2 now_present refl refl
        refl live in
    rw resolution (refl, polled, works)
