-- ===== src/Oauthfake/Store/Links.antt =====
-- Every user code leads to a device, so `resolveDevice` never dereferences nil.
use courtknights.Common.{
  ℕ, String, ◌≡◌, ◌≢◌, Bool, true, some, List, [], ◌∷◌, is_some, arith, eq_iff, Option-cases, inl,
  inr,
}
use courtknights.Common.Dict.{Dict, lookup, store, lookup-store, lookup-nil}
use courtknights.Oauthfake.Identity.{Identity}
use courtknights.Oauthfake.Store.UserCode.{new_user_code, normalize_user_code}
use courtknights.Oauthfake.Store.{
  Store, DeviceAuth, panic, new_store, random_hex, issue_code, redeem_code,
}
use courtknights.Oauthfake.Store.DeviceRequests.{
  start_device, resolve_device, resolve_code, resolve_found, poll_device,
}
use courtknights.Oauthfake.Store.History.{
  Event, issue, redeem, start, resolve, poll, started, step, run,
}
use courtknights.Oauthfake.Store.Devices.{
  Touched, kept, moved, resolve-Touched, poll-Touched, redeem-devices,
}

pub record IsLinked (s : Store) : Type 0 where
  pub at :
      (user_code device_code : String)
      → lookup user_code s.user_codes ≡ some device_code
      → is_some (lookup device_code s.devices) ≡ true

pub IsLinked-new_store : (ttl interval : ℕ) → IsLinked (new_store ttl interval)
IsLinked-new_store ttl interval = record { at = λ u c h. ground (arith, lookup-nil {V = String} u) }

store-keeps :
    (k code : String) (new : DeviceAuth) (m : Dict DeviceAuth)
    → is_some (lookup code m) ≡ true
    → is_some (lookup code (store k new m)) ≡ true
store-keeps k code new m h = ground (arith, lookup-store k code new m)

Touched-keeps :
    {m m' : Dict DeviceAuth} (code : String)
    → Touched m m'
    → is_some (lookup code m) ≡ true
    → is_some (lookup code m') ≡ true
Touched-keeps code (kept e) h = rw e h
Touched-keeps {m} code (moved k d d' _ _ e) h = rw e (store-keeps k code d' m h)

pub resolve-user_codes :
    (provider typed : String) (approve : Bool) (id : Identity) (now : ℕ) (s : Store)
    → (resolve_device provider typed approve id now s).1.user_codes ≡ s.user_codes
unfolding resolve_device
resolve-user_codes provider typed approve id now s = ground arith

pub redeem-user_codes :
    (provider code uri : String) (now : ℕ) (bytes : List ℕ) (s : Store)
    → (redeem_code provider code uri now bytes s).1.user_codes ≡ s.user_codes
unfolding redeem_code
redeem-user_codes provider code uri now bytes s = ground arith

pub poll-user_codes :
    (provider code : String) (now : ℕ) (bytes : List ℕ) (s : Store)
    → (poll_device provider code now bytes s).1.user_codes ≡ s.user_codes
unfolding poll_device
poll-user_codes provider code now bytes s = ground arith

linked-store :
    (u0 k u c : String) (new : DeviceAuth) (codes : Dict String) (devices : Dict DeviceAuth)
    → (lookup u codes ≡ some c → is_some (lookup c devices) ≡ true)
    → lookup u (store u0 k codes) ≡ some c
    → is_some (lookup c (store k new devices)) ≡ true
linked-store u0 k u c new codes devices h held =
    ground (arith, lookup-store u0 u k codes, lookup-store k c new devices, eq_iff k c)

start-IsLinked :
    (provider : String) (now : ℕ) (bytes : List ℕ) (draws : List (List ℕ)) (s : Store)
    → IsLinked s
    → IsLinked (started s (start_device provider now bytes draws s))
unfolding start_device
start-IsLinked provider now bytes draws s h =
    elim (Option-cases (new_user_code draws s.user_codes)) [
      | inl taken ↦ rw (taken, start_device, started) h
      | inr (user_code, drawn) ↦
          rw (drawn, start_device, started)
            (record {
              at = λ u c held.
                  linked-store user_code (random_hex bytes) u c _ s.user_codes s.devices (h.at u c)
                    held;
            })
    ]

-- No call breaks a link from a user code to its device.
pub step-IsLinked : (e : Event) (s : Store) → IsLinked s → IsLinked (step e s)
unfolding step
step-IsLinked (issue provider uri id now bytes) s h = unfold issue_code in (record { at = h.at })
step-IsLinked (redeem provider code uri now bytes) s h = record {
  at = λ u c held.
      rw (redeem-devices provider code uri now bytes s)
        (h.at u c (rw (redeem-user_codes provider code uri now bytes s) at held));
}
step-IsLinked (start provider now bytes draws) s h = start-IsLinked provider now bytes draws s h
step-IsLinked (resolve provider typed approve id now) s h = record {
  at = λ u c held.
      Touched-keeps c (resolve-Touched provider typed approve id now s)
        (h.at u c (rw (resolve-user_codes provider typed approve id now s) at held));
}
step-IsLinked (poll provider code now bytes) s h = record {
  at = λ u c held.
      Touched-keeps c (poll-Touched provider code now bytes s)
        (h.at u c (rw (poll-user_codes provider code now bytes s) at held));
}

pub run-IsLinked : (es : List Event) (s : Store) → IsLinked s → IsLinked (run es s)
unfolding run
run-IsLinked [] s h = h
run-IsLinked (e ∷ es) s h = run-IsLinked es (step e s) (step-IsLinked e s h)

resolve_found-ne-panic :
    (provider k : String) (approve : Bool) (id : Identity) (now : ℕ) (d : DeviceAuth) (s : Store)
    → (resolve_found provider k approve id now d s).0 ≢ panic
unfolding resolve_found
resolve_found-ne-panic provider k approve id now d s e = ground arith

resolve_code-ne-panic :
    (provider k : String) (approve : Bool) (id : Identity) (now : ℕ) (s : Store)
    → is_some (lookup k s.devices) ≡ true
    → (resolve_code provider k approve id now s).0 ≢ panic
unfolding resolve_code
resolve_code-ne-panic provider k approve id now s h e = ground arith

-- After any calls on a new store, `resolveDevice` finds the device of every user code that it
-- finds: it never dereferences a nil pointer.
pub resolve_device-ne-panic :
    (ttl interval : ℕ) (es : List Event) (provider typed : String) (approve : Bool) (id : Identity)
    (now : ℕ)
    → (resolve_device provider typed approve id now (run es (new_store ttl interval))).0 ≢ panic
unfolding resolve_device
resolve_device-ne-panic ttl interval es provider typed approve id now e =
    let s = run es (new_store ttl interval) in
    let linked = run-IsLinked es (new_store ttl interval) (IsLinked-new_store ttl interval) in
    elim (Option-cases (lookup (normalize_user_code typed) s.user_codes)) [
      | inl unknown ↦ cc (rw (unknown, resolve_device) at e)
      | inr (k, found) ↦
          resolve_code-ne-panic provider k approve id now s (linked.at _ k found)
            (rw (found, resolve_device) at e)
    ]
