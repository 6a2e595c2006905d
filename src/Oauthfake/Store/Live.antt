-- ===== src/Oauthfake/Store/Live.antt =====
-- Whatever has been called on the store, a request that is still open can be completed.
use courtknights.Common.{
  ℕ, ◌≤◌, String, ◌≡◌, ◌≢◌, ◌⊎◌, refl, ◌∙◌, true, false, none, some, List, [], ◌∷◌, arith, eq_iff,
  eq_refl, ◌==◌, Bool-cases, Option-cases, inl, inr,
}
use courtknights.Common.Dict.{Dict, lookup, store, lookup-store, lookup-nil}
use courtknights.Oauthfake.Identity.{Identity}
use courtknights.Oauthfake.Store.UserCode.{new_user_code, normalize_user_code}
use courtknights.Oauthfake.Store.UserCode.Typing.{new_user_code_fresh}
use courtknights.Oauthfake.Store.{
  Store, DeviceAuth, pending, done, new_store, random_hex, issue_code, lookup_token,
}
use courtknights.Oauthfake.Store.DeviceRequests.{decided, start_device, resolve_device, poll_device}
use courtknights.Oauthfake.Store.History.{
  Event, issue, redeem, start, resolve, poll, started, step, run,
}
use courtknights.Oauthfake.Store.Devices.{
  Touched, kept, moved, Moves, resolve-Touched, poll-Touched, redeem-devices,
}
use courtknights.Oauthfake.Store.Links.{resolve-user_codes, redeem-user_codes, poll-user_codes}
use courtknights.Oauthfake.Store.Flow.{resolve-decides, poll-approved}

-- The user code of the request leads to it, and it is not redeemed while it is pending.
Own : Dict String → String → DeviceAuth → Type 0
Own codes code d =
    (lookup d.user_code codes ≡ some code) × ((d.status ≢ pending) ⊎ (d.redeemed ≡ false))

record Owned (codes : Dict String) (devices : Dict DeviceAuth) : Type 0 where
  at : (code : String) (d : DeviceAuth) → lookup code devices ≡ some d → Own codes code d

abbrev IsOwned : Store → Type 0
IsOwned s = Owned s.user_codes s.devices

Moves-Own :
    (codes : Dict String) (code : String) (d d' : DeviceAuth)
    → Moves d d'
    → Own codes code d
    → Own codes code d'
unfolding Own
Moves-Own codes code d d' move (linked, h) = (rw move.user_code linked, ground arith)

-- An entry of a map with a new one is the new one or an old one.
store-cases :
    (k c : String) (new d : DeviceAuth) (m : Dict DeviceAuth)
    → lookup c (store k new m) ≡ some d
    → ((k ≡ c) × (new ≡ d)) ⊎ (lookup c m ≡ some d)
store-cases k c new d m held = elim (Bool-cases (k == c)) [
  | inl same ↦ inl ((eq_iff k c).0 same, cc (rw (lookup-store k c new m, same) at held))
  | inr other ↦ inr (rw (lookup-store k c new m, other) at held)
]

Touched-Owned :
    {m m' : Dict DeviceAuth} (codes : Dict String) → Touched m m' → Owned codes m → Owned codes m'
Touched-Owned codes (kept e) h = record { at = λ c d held. h.at c d (rw e at held) }
Touched-Owned {m} codes (moved k d d' present move e) h = record {
  at = λ c d1 held. elim (store-cases k c d' d1 m (rw e at held)) [
    | inl (same, new) ↦ rw (← same, ← new) (Moves-Own codes k d d' move (h.at k d present))
    | inr old ↦ h.at c d1 old
  ];
}

-- A request under a user code that was free.
added-Owned :
    (codes : Dict String) (devices : Dict DeviceAuth) (code : String) (new : DeviceAuth)
    → lookup new.user_code codes ≡ none
    → new.redeemed ≡ false
    → Owned codes devices
    → Owned (store new.user_code code codes) (store code new devices)
unfolding Own
added-Owned codes devices code new free unused h = record {
  at = λ c d held. elim (store-cases code c new d devices held) [
    | inl (same, it) ↦
        rw (← same, ← it)
          (
            ground
                (arith, lookup-store new.user_code new.user_code code codes, eq_refl new.user_code),
            inr unused,
          )
    | inr old ↦
        let (linked, unredeemed) = h.at c d old in
        (
          ground (
            arith,
            lookup-store new.user_code d.user_code code codes,
            eq_iff new.user_code d.user_code,
          ),
          unredeemed,
        )
  ];
}

start-Owned :
    (provider : String) (now : ℕ) (bytes : List ℕ) (draws : List (List ℕ)) (s : Store)
    → IsOwned s
    → IsOwned (started s (start_device provider now bytes draws s))
unfolding start_device
start-Owned provider now bytes draws s h = elim (Option-cases (new_user_code draws s.user_codes)) [
  | inl taken ↦ rw (taken, start_device, started) h
  | inr (user_code, drawn) ↦
      let (free, _) = new_user_code_fresh draws s.user_codes user_code drawn in
      rw (drawn, start_device, started)
        (added-Owned s.user_codes s.devices (random_hex bytes) _ free refl h)
]

step-Owned : (e : Event) (s : Store) → IsOwned s → IsOwned (step e s)
unfolding step
step-Owned (issue provider uri id now bytes) s h = unfold issue_code in h
step-Owned (redeem provider code uri now bytes) s h =
    rw
      (
        redeem-devices provider code uri now bytes s,
        redeem-user_codes provider code uri now bytes s,
      )
      h
step-Owned (start provider now bytes draws) s h = start-Owned provider now bytes draws s h
step-Owned (resolve provider typed approve id now) s h =
    rw (resolve-user_codes provider typed approve id now s)
      (Touched-Owned s.user_codes (resolve-Touched provider typed approve id now s) h)
step-Owned (poll provider code now bytes) s h =
    rw (poll-user_codes provider code now bytes s)
      (Touched-Owned s.user_codes (poll-Touched provider code now bytes s) h)

run-Owned : (es : List Event) (s : Store) → IsOwned s → IsOwned (run es s)
unfolding run
run-Owned [] s h = h
run-Owned (e ∷ es) s h = run-Owned es (step e s) (step-Owned e s h)

Owned_new_store : (ttl interval : ℕ) → IsOwned (new_store ttl interval)
Owned_new_store ttl interval = record {
  at = λ c d held. absurd (cc (lookup-nil {V = DeviceAuth} c));
}

-- After any calls on a new store, a request that is pending and has not expired can be completed: an
-- approval of its user code, however typed, succeeds, and the next poll of its device code gives a
-- token that works as the approving user.
pub pending_completes :
    (ttl interval : ℕ) (es : List Event) (code typed : String) (d : DeviceAuth) (id : Identity)
    (t1 t2 : ℕ) (bytes : List ℕ)
    → lookup code (run es (new_store ttl interval)).devices ≡ some d
    → d.status ≡ pending
    → normalize_user_code typed ≡ d.user_code
    → t1 ≤ d.expires_at
    → t2 ≤ d.expires_at
    → let (resolved, s2) =
        resolve_device d.provider typed true id t1 (run es (new_store ttl interval)) in
      let (polled, s3) = poll_device d.provider code t2 bytes s2 in
      (resolved ≡ done tt)
      × (polled ≡ done (random_hex bytes))
      × (lookup_token d.provider (random_hex bytes) s3 ≡ done id)
unfolding Own
pending_completes ttl interval es code typed d id t1 t2 bytes present open_request typed_code
      in_time live =
    let s = run es (new_store ttl interval) in
    let owned = run-Owned es (new_store ttl interval) (Owned_new_store ttl interval) in
    let (linked, unredeemed) = owned.at code d present in
    let unused : d.redeemed ≡ false = ground arith in
    let s2 = record s { devices = store code (decided true id d) s.devices } in
    let now_present : lookup code s2.devices ≡ some (decided true id d) =
      lookup-store code code (decided true id d) s.devices ∙ rw (eq_refl code) in
    let resolution =
      resolve-decides d.provider typed code true id t1 d s (rw typed_code linked) present refl
        open_request in_time in
    let (polled, works) =
      poll-approved d.provider code t2 bytes (decided true id d) s2 now_present refl refl unused
        live in
    rw resolution (refl, polled, works)
