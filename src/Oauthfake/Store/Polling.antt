-- ===== src/Oauthfake/Store/Polling.antt =====
-- The polling interval of the device flow (RFC 8628, section 3.5) in tools/oauthfake/store.go.
use courtknights.Common.{
  ℕ, ◌+◌, ◌*◌, ◌≤◌, ◌<◌, String, ◌≡◌, ◌∙◌, refl, ap, Bool, true, false, some, List, arith, eq_refl,
  ltb, if◌then◌else◌,
}
use courtknights.Common.Dict.{lookup, store, lookup-store}
use courtknights.Oauthfake.Store.{
  Store, DeviceAuth, pending, failed, slow_down, pending_authorization,
}
use courtknights.Oauthfake.Store.DeviceRequests.{
  poll_device, poll_found, poll_status, polled_too_fast, second,
}

-- The interval that a pending request has after a poll at time `t`.
abbrev interval_after : DeviceAuth → ℕ → ℕ
interval_after d t = if polled_too_fast d t then d.interval + 5 * second else d.interval

-- A request that still waits for its user at time `t`.
pub record Waits (provider code : String) (t : ℕ) (d : DeviceAuth) (s : Store) : Type 0 where
  pub present : lookup code s.devices ≡ some d
  pub provider_eq : d.provider ≡ provider
  pub undecided : d.status ≡ pending
  pub unused : d.redeemed ≡ false
  pub live : t ≤ d.expires_at

poll_status-pending :
    (provider code : String) (fast : Bool) (t : ℕ) (bytes : List ℕ) (d : DeviceAuth) (s : Store)
    → poll_status provider code fast bytes pending (record d { last_poll = t }) s ≡ (
      failed (if fast then slow_down else pending_authorization),
      record s {
        devices =
            store code
              (record d {
                last_poll = t;
                interval = if fast then d.interval + 5 * second else d.interval;
              })
              s.devices;
      },
    )
unfolding poll_status
poll_status-pending provider code true t bytes d s = refl
poll_status-pending provider code false t bytes d s = refl

poll_found-Waits :
    (provider code : String) (t : ℕ) (bytes : List ℕ) (d : DeviceAuth) (s : Store)
    → Waits provider code t d s
    → poll_found provider code t bytes d s ≡ (
      failed (if polled_too_fast d t then slow_down else pending_authorization),
      record s {
        devices = store code (record d { last_poll = t; interval = interval_after d t }) s.devices;
      },
    )
unfolding poll_found
poll_found-Waits provider code t bytes d s w =
    rw (w.provider_eq, w.unused, w.undecided, eq_refl provider)
      (ground (arith, poll_status-pending provider code (polled_too_fast d t) t bytes d s, w.live))

poll-Waits :
    (provider code : String) (t : ℕ) (bytes : List ℕ) (d : DeviceAuth) (s : Store)
    → Waits provider code t d s
    → poll_device provider code t bytes s ≡ (
      failed (if polled_too_fast d t then slow_down else pending_authorization),
      record s {
        devices = store code (record d { last_poll = t; interval = interval_after d t }) s.devices;
      },
    )
unfolding poll_device
poll-Waits provider code t bytes d s w =
    rw (w.present, poll_device) (poll_found-Waits provider code t bytes d s w)

-- Two polls in a row of a request that waits for its user, at times `t1` and `t2`: the second is
-- answered slow_down if it comes before the interval after the first has passed, and else
-- authorization_pending. That interval is the one the request had, and five seconds more if the
-- first poll came too fast itself.
pub poll_interval :
    (provider code : String) (t1 t2 : ℕ) (bytes bytes' : List ℕ) (d : DeviceAuth) (s : Store)
    → Waits provider code t1 d s
    → 0 < t1
    → t2 ≤ d.expires_at
    → (poll_device provider code t2 bytes' (poll_device provider code t1 bytes s).1).0
      ≡ failed (
          if ltb t2 (t1 + (if polled_too_fast d t1 then d.interval + 5 * second else d.interval))
          then slow_down
          else pending_authorization)
poll_interval provider code t1 t2 bytes bytes' d s w started live =
    let d' = record d { last_poll = t1; interval = interval_after d t1 } in
    let s' = record s { devices = store code d' s.devices } in
    let waits : Waits provider code t2 d' s' = record {
      present = lookup-store code code d' s.devices ∙ rw (eq_refl code);
      provider_eq = w.provider_eq;
      undecided = w.undecided;
      unused = w.unused;
      live = live;
    } in
    ap (λ r. (poll_device provider code t2 bytes' r.1).0) (poll-Waits provider code t1 bytes d s w)
    ∙ (ap (λ r. r.0) (poll-Waits provider code t2 bytes' d' s' waits) ∙ ground arith)
