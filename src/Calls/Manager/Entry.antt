-- ===== src/Calls/Manager/Entry.antt =====
-- Each entry point of the manager returns, without a panic and without blocking, and keeps the
-- invariant.
use air_whatsbot.Common.{
  ℕ, ◌≡◌, refl, String, false, Option, none, some, inl, inr, ◌==◌, string_eq, ltb, ◌-◌, ◌*◌, Run,
  done, Returns, Returns-bind, Returns-imp, Bool-cases, ◌>>=◌, All,
}
use air_whatsbot.Common.Map.{lookup, keys}
use air_whatsbot.Calls.Hub.{CallEvent}
use air_whatsbot.Calls.Hub.Safe.{subscribe-eq, subscribe-closed, with_subscriber}
use air_whatsbot.Calls.Hub.Invariant.{with_subscriber-IsSafe}
use air_whatsbot.Calls.Manager.State.{Manager, Host, Effect, hangs_up, log, put_session}
use air_whatsbot.Calls.Manager.Sessions.{
  emit_event, cleanup, fail_realtime, end_timed_out, end_found, hangup, hangup_found, stop,
  subscribe_call, subscribe_found,
}
use air_whatsbot.Calls.Manager.Sessions.Lifecycle.{Inv}
use air_whatsbot.Calls.Manager.Sessions.Ending.{Shrinks, range_active-Shrinks, cleanup-Shrinks}
use air_whatsbot.Calls.Manager.Realtime.{realtime_event, response_count}
use air_whatsbot.Calls.Manager.Watch.{
  Watch, setup, running, returned, Tick, context_done, setup_timeout, lifetime, idle, watch_step,
  ends,
}
use air_whatsbot.Calls.Manager.Keep.{put_session-Inv, effects-Inv}
use air_whatsbot.Calls.Manager.Total.{emit_event-Inv, fail_realtime-Shrinks}
use air_whatsbot.Calls.Manager.Single.{Kept}

module _ {Err File : Type 0} where
  abbrev pub Inv1 {κ} : {A : Type κ} → A × Manager Err File → Type 0
  Inv1 (a, m) = Inv m

  -- The state of a pair
  pub second-Inv :
      {A : Type 0} (r : Run (A × Manager Err File))
      → Returns r Inv1
      → Returns (r >>= λ x. done x.1) Inv
  second-Inv r h = Returns-bind r (λ x. done x.1) Inv1 Inv h (λ x v. v)

module _ {Err File : Type 0} (host : Host Err File) where
  pub cleanup-Inv : (id : String) (m : Manager Err File) → Inv m → Returns (cleanup host id m) Inv
  cleanup-Inv id m v =
      Returns-imp (cleanup host id m) (λ m'. Shrinks m m' × (lookup id m'.active ≡ none)) Inv
        (λ m' (s, gone). s.inv) (cleanup-Shrinks host id m v)

  pub logged_cleanup-Inv :
      (id : String) (e : Effect) (m : Manager Err File)
      → Inv m
      → Returns (cleanup host id (log e m)) Inv
  logged_cleanup-Inv id e m v = cleanup-Inv id (log e m) (effects-Inv m _ v)

  pub fail_realtime-Inv :
      (id : String) (m : Manager Err File) → Inv m → Returns (fail_realtime host id m) Inv
  fail_realtime-Inv id m v =
      Returns-imp (fail_realtime host id m) (λ m'. Shrinks m m' × (lookup id m'.active ≡ none)) Inv
        (λ m' (s, gone). s.inv) (fail_realtime-Shrinks host id m v)

  hangup_found-Inv :
      (id : String) (o : Option ℕ) (e : Option Err) (m : Manager Err File)
      → Inv m
      → Returns (hangup_found host id o e m) Inv1
  hangup_found-Inv id none e m v = v
  hangup_found-Inv id (some p) (some e) m v = effects-Inv m _ v
  hangup_found-Inv id (some p) none m v =
      Returns-bind (cleanup host id (log (hangs_up id) m)) _ Inv Inv1
        (logged_cleanup-Inv id (hangs_up id) m v) (λ m' v'. v')

  pub hangup-Inv : (id : String) (m : Manager Err File) → Inv m → Returns (hangup host id m) Inv1
  unfolding hangup
  hangup-Inv id m v = elim (Bool-cases (id == "")) [
    | inl e ↦ rw e v
    | inr e ↦ rw e (hangup_found-Inv id (lookup id m.active) (host.hangup_err id) m v)
  ]

  end_found-Inv :
      (id : String) (o : Option ℕ) (m : Manager Err File)
      → Inv m
      → Returns (end_found host id o m) Inv
  end_found-Inv id none m v = v
  end_found-Inv id (some p) m v = logged_cleanup-Inv id (hangs_up id) m v

  end_timed_out-Inv : (p : ℕ) (m : Manager Err File) → Inv m → Returns (end_timed_out host p m) Inv
  unfolding end_timed_out
  end_timed_out-Inv p m v = end_found-Inv (m.sessions p).call_id _ m v

  ends-Inv : (p : ℕ) (m : Manager Err File) → Inv m → Returns (ends host p m) Inv1
  ends-Inv p m v =
      Returns-bind (end_timed_out host p m) _ Inv Inv1 (end_timed_out-Inv p m v) (λ m' v'. v')

  pub watch_step-Inv :
      (p : ℕ) (t : Tick) (w : Watch) (m : Manager Err File)
      → Inv m
      → Returns (watch_step host p t w m) Inv1
  unfolding watch_step
  watch_step-Inv p context_done w m v = v
  watch_step-Inv p setup_timeout setup m v = elim (Bool-cases (m.sessions p).ready) [
    | inl e ↦ rw e v
    | inr e ↦ rw e (ends-Inv p _ (effects-Inv m _ v))
  ]
  watch_step-Inv p setup_timeout running m v = v
  watch_step-Inv p setup_timeout returned m v = v
  watch_step-Inv p lifetime setup m v = v
  watch_step-Inv p lifetime running m v = ends-Inv p m v
  watch_step-Inv p lifetime returned m v = v
  watch_step-Inv p (idle t) setup m v = v
  watch_step-Inv p (idle t) running m v =
      elim (Bool-cases (ltb (2 * 60 * 1000000000) (t - (m.sessions p).last_activity))) [
        | inl e ↦ rw e (ends-Inv p _ (effects-Inv m _ v))
        | inr e ↦ rw e v
      ]
  watch_step-Inv p (idle t) returned m v = v

  response_count-Inv : (kind : String) (m : Manager Err File) → Inv m → Inv (response_count kind m)
  response_count-Inv kind m v = elim (Bool-cases (kind == "response_done")) [
    | inl e ↦ rw e (effects-Inv m _ v)
    | inr e ↦ rw e v
  ]

  pub realtime_event-Inv :
      (p : ℕ) (event : CallEvent Err File) (m : Manager Err File)
      → Inv m
      → Returns (realtime_event host p event m) Inv1
  unfolding realtime_event
  realtime_event-Inv p event m v =
      Returns-bind (emit_event host p event m) _ (Kept m) Inv1 (emit_event-Inv host p event m v)
        (λ m' (v', same). elim (Bool-cases (event.kind == "error")) [
          | inl e ↦ rw e (
              Returns-bind (fail_realtime host (m.sessions p).call_id m') _ Inv Inv1
                (fail_realtime-Inv (m.sessions p).call_id m' v') (λ m'' v''. v''))
          | inr e ↦ rw e (response_count-Inv event.kind m' v')
        ])

  with_hub-Inv :
      (p after : ℕ) (m : Manager Err File)
      → Inv m
      → (m.sessions p).event_hub.hub.closed ≡ false
      → Inv (
          put_session p
            (record (m.sessions p) { event_hub = with_subscriber after (m.sessions p).event_hub })
            m)
  with_hub-Inv p after m v o =
      put_session-Inv m p
        (record (m.sessions p) { event_hub = with_subscriber after (m.sessions p).event_hub }) v
        (record {
          named = refl;
          unended = refl;
          uncancelled = refl;
          hub_closed = refl;
          safe = with_subscriber-IsSafe after (m.sessions p).event_hub (v.safe p);
        })

  subscribe_found-Inv :
      (o : Option ℕ) (after : ℕ) (m : Manager Err File)
      → Inv m
      → Returns (subscribe_found host o after m) Inv1
  subscribe_found-Inv none after m v = v
  subscribe_found-Inv (some p) after m v = elim (Bool-cases (m.sessions p).event_hub.hub.closed) [
    | inl c ↦ rw (subscribe-closed after (m.sessions p).event_hub c) v
    | inr o ↦
        rw (subscribe-eq after (m.sessions p).event_hub (v.safe p) o) (with_hub-Inv p after m v o)
  ]

  pub subscribe_call-Inv :
      (id : String) (after : ℕ) (m : Manager Err File)
      → Inv m
      → Returns (subscribe_call host id after m) Inv1
  unfolding subscribe_call
  subscribe_call-Inv id after m v = subscribe_found-Inv (lookup id m.active) after m v

  pub stop-Inv : (m : Manager Err File) → Inv m → Returns (stop host m) Inv
  unfolding stop
  stop-Inv m v =
      Returns-imp (stop host m)
        (λ m'. Shrinks m m' × All (λ id. lookup id m'.active ≡ none) (keys m.active)) Inv
        (λ m' (s, gone). s.inv)
        (range_active-Shrinks (cleanup host) (cleanup-Shrinks host) (keys m.active) m v)
