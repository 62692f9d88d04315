-- ===== src/Calls/Manager/Outgoing.antt =====
-- `handleIncoming`, `InitiateOutgoing` and `watchTimeout` of calls.go.
use air_whatsbot.Common.{
  ℕ, String, Bool, true, false, Option, none, some, ◌⊎◌, inl, inr, ◌==◌, string_eq, not, ◌||◌,
  if◌then◌else◌, Run, done, ◌>>=◌,
}
use air_whatsbot.Calls.Manager.State.{
  Manager, Host, Jid, incoming, outgoing, counts, counts_error, dials, answers, rejects, hangs_up,
  log, put_session, blank_event,
}
use air_whatsbot.Calls.Manager.Sessions.{
  emit_event, register_session, active_call_ids, range_active, cleanup, fail_realtime,
}
use air_whatsbot.Calls.Manager.Realtime.{Core, RealtimeError, resolve_peer, start_realtime}

pub data OutgoingError (Err : Type 0) : Type 0 where
  no_call_client : OutgoingError Err
  not_logged_in : OutgoingError Err
  bot_stopped : OutgoingError Err
  calls_disabled : OutgoingError Err
  no_target : OutgoingError Err
  context_done : Err → OutgoingError Err
  dial_failed : Err → OutgoingError Err
  unknown_peer : OutgoingError Err
  realtime_failed : RealtimeError Err → OutgoingError Err

pub data Placed (Err : Type 0) : Type 0 where
  call_placed : String → Placed Err
  not_placed : OutgoingError Err → Placed Err

module _ {Err File : Type 0} where
  abbrev pub set_ready : ℕ → Manager Err File → Manager Err File
  set_ready p m = put_session p (record (m.sessions p) { ready = true }) m

module _ {Err Ch File : Type 0} (host : Host Err File) (core : Core Err Ch) where
  abbrev pub voice_disabled : Bool
  voice_disabled = not host.voice_calls_enabled || not host.voice_call_mode

  abbrev pub realtime_reply :
      String → Option (RealtimeError Err) × Manager Err File → Run (Manager Err File)
  realtime_reply call_id (none, m) = done m
  realtime_reply call_id (some e, m) = fail_realtime host call_id m

  abbrev pub ready_peer : ℕ → String → Manager Err File → Option ℕ → Run (Manager Err File)
  ready_peer p call_id m none = fail_realtime host call_id m
  ready_peer p call_id m (some resp_id) =
      realtime_reply call_id (start_realtime host core p resp_id m)

  -- The function that `handleIncoming` gives to `call.OnReady`, for the session `p`
  unfoldable pub on_ready : ℕ → Manager Err File → Run (Manager Err File)
  on_ready p m =
      let s = m.sessions p in
      ready_peer p s.call_id (log (counts incoming "accepted") (set_ready p m))
        (resolve_peer host core s.peer)

  abbrev pub answer_reply : String → Manager Err File → Option Err → Run (Manager Err File)
  answer_reply call_id m none = done m
  answer_reply call_id m (some e) = cleanup host call_id (log (counts_error "answer") m)

  abbrev pub incoming_rejected : Jid → Bool
  incoming_rejected peer = voice_disabled || not (host.is_call_allowed peer.user)

  -- m.handleIncoming(call) of a call that is not nil
  unfoldable pub handle_incoming : String → Jid → Manager Err File → Run (Manager Err File)
  handle_incoming call_id peer m =
      if incoming_rejected peer
      then done (log (rejects call_id) (log (counts incoming "rejected") m))
      else answer_reply call_id
          (log (answers call_id) (register_session host call_id peer incoming false m).1)
          (host.answer_err call_id)

  -- The callback of the Range over the active calls
  abbrev pub replace_call : String → Manager Err File → Run (Manager Err File)
  replace_call call_id m = cleanup host call_id (log (hangs_up call_id) m)

  -- The early returns of `InitiateOutgoing`
  unfoldable pub outgoing_guard : String → Option Err → Option (OutgoingError Err)
  outgoing_guard target ctx_err =
      if not host.has_call_client
      then some no_call_client
      else if not host.logged_in
      then some not_logged_in
      else if host.stopped
      then some bot_stopped
      else if voice_disabled
      then some calls_disabled
      else if target == ""
      then some no_target
      else elim ctx_err [ some e ↦ some (context_done e) | none ↦ none ]

  abbrev pub fail_call :
      String → OutgoingError Err → Manager Err File → Run (Placed Err × Manager Err File)
  fail_call call_id e m = fail_realtime host call_id m >>= λ m'. done (not_placed e, m')

  abbrev pub call_realtime :
      ℕ
      → String
      → Option (RealtimeError Err) × Manager Err File
      → Run (Placed Err × Manager Err File)
  call_realtime p call_id (some e, m) = fail_call call_id (realtime_failed e) m
  call_realtime p call_id (none, m) =
      emit_event host p (blank_event "call_connected") (log (counts outgoing "accepted") m)
      >>= λ m'. done (call_placed call_id, log (counts outgoing "started") m')

  abbrev pub call_peer :
      ℕ → String → Manager Err File → Option ℕ → Run (Placed Err × Manager Err File)
  call_peer p call_id m none = fail_call call_id unknown_peer m
  call_peer p call_id m (some resp_id) =
      call_realtime p call_id (start_realtime host core p resp_id (set_ready p m))

  -- From the answer of `callClient.Call(ctx, target)` on: an error, or the new call's ID and peer
  unfoldable pub call_answer :
      Bool → Err ⊎ (String × Jid) → Manager Err File → Run (Placed Err × Manager Err File)
  call_answer handler (inl e) m = done (not_placed (dial_failed e), log (counts outgoing "error") m)
  call_answer handler (inr (call_id, peer)) m =
      let (p, m') = register_session host call_id peer outgoing handler m in
      emit_event host p (blank_event "call_started") m' >>= λ m''.
      call_peer p call_id m'' (resolve_peer host core peer)

  abbrev pub guarded :
      Option (OutgoingError Err)
      → Manager Err File
      → Run (Placed Err × Manager Err File)
      → Run (Placed Err × Manager Err File)
  guarded (some e) m rest = done (not_placed e, m)
  guarded none m rest = rest

  -- m.InitiateOutgoing(ctx, target, handlers...): `ctx_err` is what ctx.Err() answers, `handler`
  -- whether a handler is given, `answer` what the call client answers to the offer
  unfoldable pub initiate_outgoing :
      String
      → Option Err
      → Bool
      → Err ⊎ (String × Jid)
      → Manager Err File
      → Run (Placed Err × Manager Err File)
  initiate_outgoing target ctx_err handler answer m = guarded (outgoing_guard target ctx_err) m (
      range_active replace_call (active_call_ids host m) m >>= λ m'.
      call_answer handler answer (log (dials target) m'))
