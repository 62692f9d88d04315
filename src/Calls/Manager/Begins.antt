-- ===== src/Calls/Manager/Begins.antt =====
-- Each operation that begins a call returns, without a panic and without blocking, and keeps the
-- invariant.
use air_whatsbot.Common.{
  ℕ, String, Bool, false, Option, none, some, ◌⊎◌, inl, inr, string_eq, Run, Returns, Returns-imp,
  Bool-cases,
}
use air_whatsbot.Calls.Manager.State.{
  Manager, Host, Jid, incoming, counts, counts_error, answers, log,
}
use air_whatsbot.Calls.Manager.Sessions.{register_session}
use air_whatsbot.Calls.Manager.Sessions.Lifecycle.{Inv}
use air_whatsbot.Calls.Manager.Realtime.{Core, RealtimeError}
use air_whatsbot.Calls.Manager.Outgoing.{
  OutgoingError, Placed, call_placed, not_placed, initiate_outgoing, handle_incoming,
  incoming_rejected, answer_reply, on_ready, ready_peer, realtime_reply, set_ready,
}
use air_whatsbot.Calls.Manager.Keep.{effects-Inv}
use air_whatsbot.Calls.Manager.Total.{register_session-Inv}
use air_whatsbot.Calls.Manager.Single.{
  LeavesOne, Attempted, set_ready-Inv, start_realtime-Kept, initiate_outgoing_lem,
}
use air_whatsbot.Calls.Manager.Entry.{Inv1, logged_cleanup-Inv, fail_realtime-Inv}
use air_whatsbot.Calls.Manager.Outgoing.{
  OutgoingError, Placed, initiate_outgoing, handle_incoming, on_ready, set_ready,
}

module _ {Err Ch File : Type 0} (host : Host Err File) (core : Core Err Ch) where
  realtime_reply-Inv :
      (id : String) (o : Option (RealtimeError Err)) (m : Manager Err File)
      → Inv m
      → Returns (realtime_reply host core id (o, m)) Inv
  realtime_reply-Inv id none m v = v
  realtime_reply-Inv id (some e) m v = fail_realtime-Inv host id m v

  ready_peer-Inv :
      (p : ℕ) (id : String) (m : Manager Err File) (o : Option ℕ)
      → Inv m
      → Returns (ready_peer host core p id m o) Inv
  ready_peer-Inv p id m none v = fail_realtime-Inv host id m v
  ready_peer-Inv p id m (some resp_id) v =
      realtime_reply-Inv id _ _ (start_realtime-Kept host core p resp_id m v).0

  pub on_ready-Inv : (p : ℕ) (m : Manager Err File) → Inv m → Returns (on_ready host core p m) Inv
  unfolding on_ready
  on_ready-Inv p m v =
      ready_peer-Inv p (m.sessions p).call_id _ _
        (effects-Inv (set_ready p m) _ (set_ready-Inv p m v))

  answer_reply-Inv :
      (id : String) (o : Option Err) (m : Manager Err File)
      → Inv m
      → Returns (answer_reply host core id m o) Inv
  answer_reply-Inv id none m v = v
  answer_reply-Inv id (some e) m v = logged_cleanup-Inv host id (counts_error "answer") m v

  pub handle_incoming-Inv :
      (id : String) (peer : Jid) (m : Manager Err File)
      → Inv m
      → Returns (handle_incoming host core id peer m) Inv
  unfolding handle_incoming
  handle_incoming-Inv id peer m v = elim (Bool-cases (incoming_rejected host core peer)) [
    | inl e ↦ rw e (effects-Inv (log (counts incoming "rejected") m) _ (effects-Inv m _ v))
    | inr e ↦
        (let m' = (register_session host id peer incoming false m).1 in
          rw e (
            answer_reply-Inv id (host.answer_err id) (log (answers id) m')
              (effects-Inv m' _ (register_session-Inv host id peer incoming false m v))))
  ]

  LeavesOne-Inv : (r : Placed Err × Manager Err File) → LeavesOne r → Inv1 r
  LeavesOne-Inv (call_placed id, m) h = h.0
  LeavesOne-Inv (not_placed e, m) h = h.0

  Attempted-Inv :
      (m : Manager Err File) (o : Option (OutgoingError Err))
      (r : Run (Placed Err × Manager Err File))
      → Inv m
      → Attempted m o r
      → Returns r Inv1
  Attempted-Inv m none r v h = Returns-imp r LeavesOne Inv1 LeavesOne-Inv h
  Attempted-Inv m (some e) r v h = rw h v

  pub initiate_outgoing-Inv :
      (target : String) (ctx_err : Option Err) (handler : Bool) (answer : Err ⊎ (String × Jid))
      (m : Manager Err File)
      → Inv m
      → Returns (initiate_outgoing host core target ctx_err handler answer m) Inv1
  initiate_outgoing-Inv target ctx_err handler answer m v =
      Attempted-Inv m _ _ v (initiate_outgoing_lem host core target ctx_err handler answer m v)
