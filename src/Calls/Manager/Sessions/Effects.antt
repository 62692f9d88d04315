-- ===== src/Calls/Manager/Sessions/Effects.antt =====
-- `emitEvent` and the body of `once.Do` in closed form, on a session whose hub is open.
use air_whatsbot.Common.{ℕ, ◌≡◌, String, true, false, ◌++◌, string_eq, length, done}
use air_whatsbot.Common.Map.{delete, keys}
use air_whatsbot.Calls.Hub.{CallEvent}
use air_whatsbot.Calls.Hub.Safe.{IsSafe, published, publish-eq, closed_down, close-eq}
use air_whatsbot.Calls.Hub.Invariant.{published-IsSafe, closed_down-IsSafe}
use air_whatsbot.Calls.Manager.State.{Manager, Session, Host, put_session, blank_event}
use air_whatsbot.Calls.Manager.Sessions.{
  session_emit, session_finish, finish_effects, emit_event, finish, notification, close_source,
}

module _ {Err File : Type 0} where
  -- The session after an event has gone through its hub.
  abbrev pub session_emitted : ℕ → CallEvent Err File → Session Err File → Session Err File
  session_emitted t event s = record s {
    event_hub = published (record event { call_id = s.call_id }) t s.event_hub;
  }

  -- The session when `cleanup` is done with it.
  abbrev pub session_finished : ℕ → Session Err File → Session Err File
  session_finished t s = record s {
    cancelled = true;
    event_hub =
        closed_down
          (published (record (blank_event "call_ended") { call_id = s.call_id }) t s.event_hub);
    source_closed = close_source s.source_closed;
    ended = true;
  }

  -- The hub of a running session.
  pub record HasOpenHub (s : Session Err File) : Type 0 where
    pub safe : IsSafe s.event_hub
    pub opened : s.event_hub.hub.closed ≡ false

  pub session_emit-eq :
      (t : ℕ) (event : CallEvent Err File) (s : Session Err File)
      → HasOpenHub s
      → session_emit t event s ≡ done (session_emitted t event s)
  unfolding session_emit
  session_emit-eq t event s h =
      rw (publish-eq (record event { call_id = s.call_id }) t s.event_hub h.safe h.opened)

  pub session_emitted-HasOpenHub :
      (t : ℕ) (event : CallEvent Err File) (s : Session Err File)
      → HasOpenHub s
      → HasOpenHub (session_emitted t event s)
  session_emitted-HasOpenHub t event s h = record {
    safe = published-IsSafe (record event { call_id = s.call_id }) t s.event_hub h.safe;
    opened = h.opened;
  }

  pub session_finished-IsSafe :
      (t : ℕ) (s : Session Err File) → IsSafe s.event_hub → IsSafe (session_finished t s).event_hub
  session_finished-IsSafe t s safe =
      let event : CallEvent Err File = record (blank_event "call_ended") { call_id = s.call_id } in
      closed_down-IsSafe (published event t s.event_hub) (published-IsSafe event t s.event_hub safe)

  pub session_finish-eq :
      (t : ℕ) (s : Session Err File)
      → HasOpenHub s
      → session_finish t s ≡ done (session_finished t s)
  unfolding session_finish
  session_finish-eq t s h =
      let s0 = record s { cancelled = true } in
      let h0 : HasOpenHub s0 = record { safe = h.safe; opened = h.opened } in
      let h1 = session_emitted-HasOpenHub t (blank_event "call_ended") s0 h0 in
      rw (session_emit-eq t (blank_event "call_ended") s0 h0) (
        rw (close-eq (session_emitted t (blank_event "call_ended") s0).event_hub h1.safe h1.opened))

module _ {Err File : Type 0} (host : Host Err File) where
  open host use {now}

  abbrev pub emitted : ℕ → CallEvent Err File → Manager Err File → Manager Err File
  emitted p event m = record (put_session p (session_emitted (now m) event (m.sessions p)) m) {
    effects = m.effects ++ notification (m.sessions p) event.kind;
  }

  pub emit_event-eq :
      (p : ℕ) (event : CallEvent Err File) (m : Manager Err File)
      → HasOpenHub (m.sessions p)
      → emit_event host p event m ≡ done (emitted p event m)
  unfolding emit_event
  emit_event-eq p event m h = rw (session_emit-eq (now m) event (m.sessions p) h)

  abbrev pub finished : String → ℕ → Manager Err File → Manager Err File
  finished call_id p m = record (put_session p (session_finished (now m) (m.sessions p)) m) {
    active = delete call_id m.active;
    active_gauge = length (keys (delete call_id m.active));
    effects = m.effects ++ finish_effects (m.sessions p);
  }

  pub finish-eq :
      (call_id : String) (p : ℕ) (m : Manager Err File)
      → HasOpenHub (m.sessions p)
      → finish host call_id p m ≡ done (finished call_id p m)
  unfolding finish
  finish-eq call_id p m h = rw (session_finish-eq (now m) (m.sessions p) h)
