-- ===== src/Calls/Manager/Sessions.antt =====
-- The life of a call session: `registerSession`, `emitEvent`, `cleanup`, `Stop`, `Hangup`,
-- `Subscribe`, `ActiveCallIDs`, `endTimedOut` and `failRealtime` of calls.go.
pub mod Effects
pub mod Lifecycle
pub mod Ending
use air_whatsbot.Common.{
  ℕ, suc, String, Bool, true, false, Option, none, some, List, [], ◌∷◌, ◌++◌, ◌==◌, string_eq,
  nat_beq, not, if◌then◌else◌, length, Run, done, ◌>>=◌,
}
use air_whatsbot.Common.Map.{Map, lookup, insert, delete, keys}
use air_whatsbot.Calls.Hub.{
  CallEvent, World, new_world, publish, subscribe, close, Subscription, subscribed, refused,
}
use air_whatsbot.Calls.Manager.State.{
  Manager, Session, Host, Jid, Direction, Effect, counts, counts_error, notifies, closes_session,
  hangs_up, log, put_session, blank_event,
}

pub data SubscribeResult (Err File : Type 0) : Type 0 where
  call_not_found : SubscribeResult Err File
  hub_answer : Subscription Err File → SubscribeResult Err File

pub data HangupError (Err : Type 0) : Type 0 where
  no_call_id : HangupError Err
  no_active_call : HangupError Err
  hangup_failed : Err → HangupError Err

module _ {Err File : Type 0} where
  -- `go s.onEvent(event)`, if there is a handler
  abbrev pub notification : Session Err File → String → List Effect
  notification s kind = if s.on_event then notifies kind s.call_id ∷ [] else []

  -- `m.host.CloseSession(session.respID)`, if the realtime session runs
  abbrev pub session_closing : Session Err File → List Effect
  session_closing s = if nat_beq s.resp_id 0 then [] else closes_session s.resp_id ∷ []

  abbrev pub keep_hub : ℕ → Subscription Err File → Manager Err File → Manager Err File
  keep_hub p (subscribed ch w) m = put_session p (record (m.sessions p) { event_hub = w }) m
  keep_hub p (refused e) m = m

abbrev pub close_source : Option Bool → Option Bool
close_source none = none
close_source (some _) = some true

module _ {Err File : Type 0} where
  -- What `emitEvent` does to the session: the event, with the call's ID, goes through the hub.
  unfoldable pub session_emit : ℕ → CallEvent Err File → Session Err File → Run (Session Err File)
  session_emit t event s = publish (record event { call_id = s.call_id }) t s.event_hub >>= λ hub'.
      done (record s { event_hub = hub' })

  -- What the body of `once.Do` does to the session. No session has a recorder.
  unfoldable pub session_finish : ℕ → Session Err File → Run (Session Err File)
  session_finish t s =
      session_emit t (blank_event "call_ended") (record s { cancelled = true }) >>= λ s1.
      close s1.event_hub >>= λ hub'.
      done (record s1 {
        event_hub = hub';
        source_closed = close_source s1.source_closed;
        ended = true;
      })

  -- What the body of `once.Do` does outside: the handler, the counter, the realtime session.
  abbrev pub finish_effects : Session Err File → List Effect
  finish_effects s = notification s "call_ended" ++ counts s.direction "ended" ∷ session_closing s

module _ {Err File : Type 0} where
  -- `m.active.Range` with a callback that goes on; it sees the keys that were there at the start.
  unfoldable pub range_active :
      (String → Manager Err File → Run (Manager Err File))
      → List String
      → Manager Err File
      → Run (Manager Err File)
  range_active f [] m = done m
  range_active f (id ∷ ids) m = f id m >>= λ m'. range_active f ids m'

module _ {Err File : Type 0} (host : Host Err File) where
  open host use {now, hangup_err}

  -- m.ActiveCallIDs()
  abbrev pub active_call_ids : Manager Err File → List String
  active_call_ids m = keys m.active

  abbrev set_gauge : Manager Err File → Manager Err File
  set_gauge m = record m { active_gauge = length (active_call_ids m) }

  -- `session.emitEvent(event)` of the session `p`
  unfoldable pub emit_event : ℕ → CallEvent Err File → Manager Err File → Run (Manager Err File)
  emit_event p event m =
      let s = m.sessions p in
      session_emit (now m) event s >>= λ s'.
      done (record (put_session p s' m) { effects = m.effects ++ notification s event.kind })

  -- The literal `&callSession{…}` of the caller, with what `registerSession` stores in it
  abbrev pub new_session : String → Jid → Direction → Bool → Manager Err File → Session Err File
  new_session call_id peer direction on_event m = record {
    call_id = call_id;
    peer = peer;
    direction = direction;
    cancelled = false;
    ended = false;
    resp_id = 0;
    source_closed = none;
    ready = false;
    on_event = on_event;
    event_hub = new_world;
    last_activity = now m;
  }

  -- The session and m.registerSession(call, session). The goroutine of `watchTimeout` and the
  -- callback of `OnEnd` are operations of their own.
  unfoldable pub register_session :
      String → Jid → Direction → Bool → Manager Err File → ℕ × Manager Err File
  register_session call_id peer direction on_event m =
      let p = m.next_session in
      let m' = put_session p (new_session call_id peer direction on_event m) m in
      (p, set_gauge (record m' { next_session = suc p; active = insert call_id p m.active }))

  -- The body of `session.once.Do` of the session `p`
  unfoldable pub finish : String → ℕ → Manager Err File → Run (Manager Err File)
  finish call_id p m =
      let s = m.sessions p in
      session_finish (now m) s >>= λ s'. done (
        set_gauge (
          put_session p s' (record m {
            effects = m.effects ++ finish_effects s;
            active = delete call_id m.active;
          })))

  abbrev finish_once : String → ℕ → Manager Err File → Run (Manager Err File)
  finish_once call_id p m = if (m.sessions p).ended then done m else finish call_id p m

  abbrev cleanup_found : String → Option ℕ → Manager Err File → Run (Manager Err File)
  cleanup_found call_id none m = done m
  cleanup_found call_id (some p) m = finish_once call_id p m

  -- m.cleanup(callID, reason); the reason is only logged
  unfoldable pub cleanup : String → Manager Err File → Run (Manager Err File)
  cleanup call_id m = cleanup_found call_id (lookup call_id m.active) m

  -- m.Stop(reason)
  unfoldable pub stop : Manager Err File → Run (Manager Err File)
  stop m = range_active cleanup (active_call_ids m) m

  abbrev pub hangup_found :
      String
      → Option ℕ
      → Option Err
      → Manager Err File
      → Run (Option (HangupError Err) × Manager Err File)
  hangup_found call_id none err m = done (some no_active_call, m)
  hangup_found call_id (some p) (some e) m = done (some (hangup_failed e), log (hangs_up call_id) m)
  hangup_found call_id (some p) none m =
      cleanup call_id (log (hangs_up call_id) m) >>= λ m'. done (none, m')

  -- m.Hangup(callID)
  unfoldable pub hangup :
      String → Manager Err File → Run (Option (HangupError Err) × Manager Err File)
  hangup call_id m =
      if call_id == ""
      then done (some no_call_id, m)
      else hangup_found call_id (lookup call_id m.active) (hangup_err call_id) m

  abbrev pub end_found : String → Option ℕ → Manager Err File → Run (Manager Err File)
  end_found call_id none m = done m
  end_found call_id (some _) m = cleanup call_id (log (hangs_up call_id) m)

  -- m.endTimedOut(session, reason)
  unfoldable pub end_timed_out : ℕ → Manager Err File → Run (Manager Err File)
  end_timed_out p m =
      let call_id = (m.sessions p).call_id in end_found call_id (lookup call_id m.active) m

  -- m.failRealtime(call, err)
  unfoldable pub fail_realtime : String → Manager Err File → Run (Manager Err File)
  fail_realtime call_id m =
      cleanup call_id (log (counts_error "realtime") m) >>= λ m'. done (log (hangs_up call_id) m')

  abbrev pub subscribe_found :
      Option ℕ → ℕ → Manager Err File → Run (SubscribeResult Err File × Manager Err File)
  subscribe_found none after m = done (call_not_found, m)
  subscribe_found (some p) after m =
      subscribe after (m.sessions p).event_hub >>= λ s. done (hub_answer s, keep_hub p s m)

  -- m.Subscribe(ctx, callID, afterSequence)
  unfoldable pub subscribe_call :
      String → ℕ → Manager Err File → Run (SubscribeResult Err File × Manager Err File)
  subscribe_call call_id after m = subscribe_found (lookup call_id m.active) after m
