-- ===== src/Oauthfake/Store/DeviceRequests.antt =====
-- The requests of devices in tools/oauthfake/store.go: startDevice, resolveDevice and pollDevice.
use courtknights.Common.{
  ℕ, ◌+◌, ◌*◌, String, Bool, true, false, not, ◌&&◌, ◌||◌, Option, none, some, List, ◌==◌, eqb, ltb,
  if◌then◌else◌,
}
use courtknights.Common.Dict.{lookup, store}
use courtknights.Oauthfake.Identity.{Identity, no_identity}
use courtknights.Oauthfake.Store.UserCode.{normalize_user_code, new_user_code}
use courtknights.Oauthfake.Store.{
  Store, DeviceStatus, pending, approved, denied, DeviceAuth, invalid_grant, pending_authorization,
  slow_down, access_denied, expired_token, unknown_code, not_pending, Reply, done, failed, panic,
  random_hex, after, issue_token, as_done,
}

pub record DeviceStart : Type 0 where
  pub device_code : String
  pub user_code : String
  pub expires_in : ℕ
  pub interval : ℕ

-- The part of `startDevice` behind the draws.
unfoldable pub add_device : String → ℕ → String → String → Store → DeviceStart × Store
add_device provider now device_code user_code s =
    let device : DeviceAuth = record {
      provider = provider;
      user_code = user_code;
      status = pending;
      identity = no_identity;
      expires_at = now + s.code_ttl;
      interval = s.interval;
      last_poll = 0;
      redeemed = false;
    } in
    (
      record {
        device_code = device_code;
        user_code = user_code;
        expires_in = s.code_ttl;
        interval = s.interval;
      },
      record s {
        devices = store device_code device s.devices;
        user_codes = store user_code device_code s.user_codes;
      },
    )

-- `draws` are the blocks that the loop for the user code draws; `none` while all of them are taken.
unfoldable pub start_device :
    String → ℕ → List ℕ → List (List ℕ) → Store → Option (DeviceStart × Store)
unfolding add_device new_user_code
start_device provider now bytes draws s = elim (new_user_code draws s.user_codes) [
  | none ↦ none
  | some user_code ↦ some (add_device provider now (random_hex bytes) user_code s)
]

abbrev pub is_pending : DeviceStatus → Bool
is_pending pending = true
is_pending _ = false

abbrev pub decided : Bool → Identity → DeviceAuth → DeviceAuth
decided true id d = record d { status = approved; identity = id }
decided false id d = record d { status = denied }

-- `resolveDevice` behind the two maps.
unfoldable pub resolve_found :
    String → String → Bool → Identity → ℕ → DeviceAuth → Store → Reply (Unit {0}) × Store
resolve_found provider device_code approve id now d s =
    if not (d.provider == provider)
    then (failed unknown_code, s)
    else if not (is_pending d.status) || after now d.expires_at
    then (failed not_pending, s)
    else (done tt, record s { devices = store device_code (decided approve id d) s.devices })

-- The device map gives nil for a device code that it lacks.
unfoldable pub resolve_code :
    String → String → Bool → Identity → ℕ → Store → Reply (Unit {0}) × Store
unfolding resolve_found
resolve_code provider device_code approve id now s = elim (lookup device_code s.devices) [
  | none ↦ (panic, s)
  | some d ↦ resolve_found provider device_code approve id now d s
]

unfoldable pub resolve_device :
    String → String → Bool → Identity → ℕ → Store → Reply (Unit {0}) × Store
unfolding resolve_code
resolve_device provider user_code approve id now s =
    elim (lookup (normalize_user_code user_code) s.user_codes) [
      | none ↦ (failed unknown_code, s)
      | some device_code ↦ resolve_code provider device_code approve id now s
    ]

abbrev pub polled_too_fast : DeviceAuth → ℕ → Bool
polled_too_fast d now = not (eqb d.last_poll 0) && ltb now (d.last_poll + d.interval)

abbrev pub second : ℕ
second = 1000000000

-- The `switch` of `pollDevice` and what follows it; `d` has its time of the last poll already.
unfoldable pub poll_status :
    String → String → Bool → List ℕ → DeviceStatus → DeviceAuth → Store → Reply String × Store
unfolding issue_token
poll_status provider code too_fast bytes denied d s =
    (failed access_denied, record s { devices = store code d s.devices })
poll_status provider code too_fast bytes approved d s = as_done (
    issue_token provider d.identity bytes
      (record s { devices = store code (record d { redeemed = true }) s.devices }))
poll_status provider code true bytes pending d s = (
  failed slow_down,
  record s { devices = store code (record d { interval = d.interval + 5 * second }) s.devices },
)
poll_status provider code false bytes pending d s =
    (failed pending_authorization, record s { devices = store code d s.devices })

unfoldable pub poll_found : String → String → ℕ → List ℕ → DeviceAuth → Store → Reply String × Store
unfolding poll_status
poll_found provider code now bytes d s =
    if not (d.provider == provider) || d.redeemed
    then (failed invalid_grant, s)
    else if after now d.expires_at
    then (failed expired_token, s)
    else poll_status provider code (polled_too_fast d now) bytes d.status
        (record d { last_poll = now }) s

unfoldable pub poll_device : String → String → ℕ → List ℕ → Store → Reply String × Store
unfolding poll_found
poll_device provider code now bytes s = elim (lookup code s.devices) [
  | none ↦ (failed invalid_grant, s)
  | some d ↦ poll_found provider code now bytes d s
]
