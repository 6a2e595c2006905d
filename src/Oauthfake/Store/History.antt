-- ===== src/Oauthfake/Store/History.antt =====
-- The operations of tools/oauthfake/store.go in any order, as the mutex lets them run.
use courtknights.Common.{ℕ, String, Bool, Option, none, some, List, [], ◌∷◌, ◌≢◌}
use courtknights.Oauthfake.Identity.{Identity}
use courtknights.Oauthfake.Store.{Store, issue_code, redeem_code, random_hex}
use courtknights.Oauthfake.Store.DeviceRequests.{
  DeviceStart, start_device, resolve_device, poll_device,
}

-- A call with its arguments, the time at which it runs and the random bytes that it draws.
-- `lookupToken` changes nothing and is left out.
pub data Event : Type 0 where
  issue : String → String → Identity → ℕ → List ℕ → Event
  redeem : String → String → String → ℕ → List ℕ → Event
  start : String → ℕ → List ℕ → List (List ℕ) → Event
  resolve : String → String → Bool → Identity → ℕ → Event
  poll : String → String → ℕ → List ℕ → Event

-- A `startDevice` whose draws run out has not changed anything yet.
abbrev pub started : Store → Option (DeviceStart × Store) → Store
started s none = s
started s (some (_, s')) = s'

unfoldable pub step : Event → Store → Store
step (issue provider uri id now bytes) s = (issue_code provider uri id now bytes s).1
step (redeem provider code uri now bytes) s = (redeem_code provider code uri now bytes s).1
step (start provider now bytes draws) s = started s (start_device provider now bytes draws s)
step (resolve provider typed approve id now) s = (resolve_device provider typed approve id now s).1
step (poll provider code now bytes) s = (poll_device provider code now bytes s).1

unfoldable pub run : List Event → Store → Store
run [] s = s
run (e ∷ es) s = run es (step e s)

-- The event does not draw this text for a new device code, or for a new authorization code.
abbrev pub NoNewDevice : String → Event → Type 0
NoNewDevice code (start _ _ bytes _) = random_hex bytes ≢ code
NoNewDevice code _ = Unit

abbrev pub NoNewCode : String → Event → Type 0
NoNewCode code (issue _ _ _ _ bytes) = random_hex bytes ≢ code
NoNewCode code _ = Unit
