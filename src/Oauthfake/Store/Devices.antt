-- ===== src/Oauthfake/Store/Devices.antt =====
-- How a device authorization request changes over the calls of the store.
use courtknights.Common.{
  ℕ, ◌+◌, ◌*◌, ◌≤◌, String, ◌≡◌, ◌≢◌, ◌⊎◌, inl, inr, refl, Bool, true, false, not, ◌||◌, Option,
  some, List, [], ◌∷◌, arith, eq_iff, ◌==◌, Bool-cases, Option-cases, All,
}
use courtknights.Common.Dict.{Dict, lookup, store, lookup-store}
use courtknights.Oauthfake.Identity.{Identity}
use courtknights.Oauthfake.Store.UserCode.{new_user_code, normalize_user_code}
use courtknights.Oauthfake.Store.{
  Store, DeviceAuth, DeviceStatus, pending, approved, denied, random_hex, issue_code, redeem_code,
  after,
}
use courtknights.Oauthfake.Store.DeviceRequests.{
  is_pending, decided, start_device, resolve_device, resolve_code, resolve_found, poll_device,
  poll_found, poll_status, polled_too_fast,
}
use courtknights.Oauthfake.Store.History.{
  Event, issue, redeem, start, resolve, poll, started, step, run, NoNewDevice,
}

-- The request keeps its provider, user code and lifetime, and its interval only grows. Once it is
-- decided its status and identity stay. It stays redeemed, and is redeemed only when approved.
pub record Moves (d d' : DeviceAuth) : Type 0 where
  pub provider : d'.provider ≡ d.provider
  pub user_code : d'.user_code ≡ d.user_code
  pub expires_at : d'.expires_at ≡ d.expires_at
  pub interval : d.interval ≤ d'.interval
  pub decided : (d.status ≡ pending) ⊎ ((d'.status ≡ d.status) × (d'.identity ≡ d.identity))
  pub redeemed : (d.redeemed ≡ false) ⊎ (d'.redeemed ≡ true)
  pub earned : (d'.redeemed ≡ d.redeemed) ⊎ (d'.status ≡ approved)

pub Moves-refl : (d : DeviceAuth) → Moves d d
Moves-refl d = ground arith

Moves-trans : {d e f : DeviceAuth} → Moves d e → Moves e f → Moves d f
Moves-trans m n = ground arith

-- The devices stay as they are, or one of them moves.
pub data Touched (m m' : Dict DeviceAuth) : Type 0 where
  kept : m' ≡ m → Touched m m'
  moved :
      (k : String) (d d' : DeviceAuth)
      → lookup k m ≡ some d
      → Moves d d'
      → m' ≡ store k d' m
      → Touched m m'

pub redeem-devices :
    (provider code uri : String) (now : ℕ) (bytes : List ℕ) (s : Store)
    → (redeem_code provider code uri now bytes s).1.devices ≡ s.devices
unfolding redeem_code
redeem-devices provider code uri now bytes s = ground arith

decided-Moves :
    (approve : Bool) (id : Identity) (d : DeviceAuth)
    → is_pending d.status ≡ true
    → Moves d (decided approve id d)
decided-Moves true id d h = ground arith
decided-Moves false id d h = ground arith

resolve_found-Touched :
    (provider k : String) (approve : Bool) (id : Identity) (now : ℕ) (d : DeviceAuth) (s : Store)
    → lookup k s.devices ≡ some d
    → Touched s.devices (resolve_found provider k approve id now d s).1.devices
unfolding resolve_found
resolve_found-Touched provider k approve id now d s present =
    elim (Bool-cases (d.provider == provider)) [
      | inr other ↦ kept (rw other)
      | inl same ↦ elim (Bool-cases (not (is_pending d.status) || after now d.expires_at)) [
        | inl refused ↦ kept (rw (same, refused))
        | inr open_request ↦
            moved k d (decided approve id d) present (decided-Moves approve id d (ground arith))
              (rw (same, open_request))
      ]
    ]

resolve_code-Touched :
    (provider k : String) (approve : Bool) (id : Identity) (now : ℕ) (s : Store)
    → Touched s.devices (resolve_code provider k approve id now s).1.devices
unfolding resolve_code
resolve_code-Touched provider k approve id now s = elim (Option-cases (lookup k s.devices)) [
  | inl absent ↦ kept (rw (absent, resolve_code))
  | inr (d, present) ↦
      rw (present, resolve_code) (resolve_found-Touched provider k approve id now d s present)
]

pub resolve-Touched :
    (provider typed : String) (approve : Bool) (id : Identity) (now : ℕ) (s : Store)
    → Touched s.devices (resolve_device provider typed approve id now s).1.devices
unfolding resolve_device
resolve-Touched provider typed approve id now s =
    elim (Option-cases (lookup (normalize_user_code typed) s.user_codes)) [
      | inl unknown ↦ kept (rw (unknown, resolve_device))
      | inr (k, found) ↦
          rw (found, resolve_device) (resolve_code-Touched provider k approve id now s)
    ]

-- The device that a poll writes back, by the status before it.
poll_status-Touched :
    (provider k : String) (too_fast : Bool) (bytes : List ℕ) (status : DeviceStatus) (now : ℕ)
    (d : DeviceAuth) (s : Store)
    → d.status ≡ status
    → lookup k s.devices ≡ some d
    → Touched s.devices
        (poll_status provider k too_fast bytes status (record d { last_poll = now }) s).1.devices
unfolding poll_status
poll_status-Touched provider k too_fast bytes denied now d s e present =
    moved k d (record d { last_poll = now }) present (ground arith) refl
poll_status-Touched provider k too_fast bytes approved now d s e present =
    moved k d (record d { last_poll = now; redeemed = true }) present (ground arith) refl
poll_status-Touched provider k true bytes pending now d s e present =
    moved k d (record d { last_poll = now; interval = d.interval + 5 * 1000000000 }) present
      (ground arith) refl
poll_status-Touched provider k false bytes pending now d s e present =
    moved k d (record d { last_poll = now }) present (ground arith) refl

poll_found-Touched :
    (provider k : String) (now : ℕ) (bytes : List ℕ) (d : DeviceAuth) (s : Store)
    → lookup k s.devices ≡ some d
    → Touched s.devices (poll_found provider k now bytes d s).1.devices
unfolding poll_found
poll_found-Touched provider k now bytes d s present =
    elim (Bool-cases (not (d.provider == provider) || d.redeemed)) [
      | inl refused ↦ kept (rw refused)
      | inr usable ↦ elim (Bool-cases (after now d.expires_at)) [
        | inl expired ↦ kept (rw (usable, expired))
        | inr live ↦
            rw (usable, live, poll_found)
              (poll_status-Touched provider k (polled_too_fast d now) bytes d.status now d s refl
                present)
      ]
    ]

pub poll-Touched :
    (provider k : String) (now : ℕ) (bytes : List ℕ) (s : Store)
    → Touched s.devices (poll_device provider k now bytes s).1.devices
unfolding poll_device
poll-Touched provider k now bytes s = elim (Option-cases (lookup k s.devices)) [
  | inl absent ↦ kept (rw (absent, poll_device))
  | inr (d, present) ↦
      rw (present, poll_device) (poll_found-Touched provider k now bytes d s present)
]

-- What a device has become: it is still there, and moved.
abbrev pub Moved : DeviceAuth → Option DeviceAuth → Type 0
Moved d o = (d' : DeviceAuth) × (o ≡ some d') × Moves d d'

Touched-Moved :
    {m m' : Dict DeviceAuth} (code : String) (d : DeviceAuth)
    → lookup code m ≡ some d
    → Touched m m'
    → Moved d (lookup code m')
Touched-Moved code d present (kept e) = (d, rw e present, Moves-refl d)
Touched-Moved {m} code d present (moved k d0 d' before move e) = elim (Bool-cases (k == code)) [
  | inl same ↦ (d', rw (e, lookup-store k code d' m, same), ground (arith, eq_iff k code))
  | inr other ↦ (d, rw (e, lookup-store k code d' m, other) present, Moves-refl d)
]

created-Moved :
    (code k : String) (d new : DeviceAuth) (m : Dict DeviceAuth)
    → k ≢ code
    → lookup code m ≡ some d
    → Moved d (lookup code (store k new m))
created-Moved code k d new m other present =
    (d, ground (arith, lookup-store k code new m, eq_iff k code), Moves-refl d)

start-Moved :
    (provider : String) (now : ℕ) (bytes : List ℕ) (draws : List (List ℕ)) (s : Store)
    (code : String) (d : DeviceAuth)
    → random_hex bytes ≢ code
    → lookup code s.devices ≡ some d
    → Moved d (lookup code (started s (start_device provider now bytes draws s)).devices)
unfolding start_device
start-Moved provider now bytes draws s code d other present =
    elim (Option-cases (new_user_code draws s.user_codes)) [
      | inl taken ↦ (d, rw (taken, start_device, started) present, Moves-refl d)
      | inr (user_code, drawn) ↦
          rw (drawn, start_device, started)
            (created-Moved code (random_hex bytes) d _ s.devices other present)
    ]

-- Every call but a `startDevice` that draws this very device code leaves the device there, with its
-- provider, user code and lifetime, and never a shorter interval; a decision and its identity stay,
-- a redeemed device stays redeemed, and only an approved one becomes redeemed.
pub step-Moved :
    (e : Event) (s : Store) (code : String) (d : DeviceAuth)
    → NoNewDevice code e
    → lookup code s.devices ≡ some d
    → Moved d (lookup code (step e s).devices)
unfolding step
step-Moved (issue provider uri id now bytes) s code d _ present =
    unfold issue_code in (d, present, Moves-refl d)
step-Moved (redeem provider code' uri now bytes) s code d _ present =
    (d, rw (redeem-devices provider code' uri now bytes s) present, Moves-refl d)
step-Moved (start provider now bytes draws) s code d other present =
    start-Moved provider now bytes draws s code d other present
step-Moved (resolve provider typed approve id now) s code d _ present =
    Touched-Moved code d present (resolve-Touched provider typed approve id now s)
step-Moved (poll provider code' now bytes) s code d _ present =
    Touched-Moved code d present (poll-Touched provider code' now bytes s)

-- So it is after any calls.
pub run-Moved :
    (es : List Event) (s : Store) (code : String) (d : DeviceAuth)
    → All (NoNewDevice code) es
    → lookup code s.devices ≡ some d
    → Moved d (lookup code (run es s).devices)
unfolding run
run-Moved [] s code d _ present = (d, present, Moves-refl d)
run-Moved (e ∷ es) s code d (other, others) present =
    let (d', present', move) = step-Moved e s code d other present in
    let (d'', present'', moves) = run-Moved es (step e s) code d' others present' in
    (d'', present'', Moves-trans move moves)
