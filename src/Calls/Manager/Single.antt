-- ===== src/Calls/Manager/Single.antt =====
-- At most one call per bot: what `InitiateOutgoing` leaves in `active` on every branch.
use air_whatsbot.Common.{
  ℕ, ◌≡◌, refl, ap, ◌∙◌, String, Bool, true, false, Option, none, some, [], ◌∷◌, ◌⊎◌, inl, inr,
  string_eq, Run, done, Returns, Returns-bind, All, ◌>>=◌,
}
use air_whatsbot.Common.Map.{lookup, insert, delete, keys}
use air_whatsbot.Calls.Manager.State.{
  Manager, Host, Jid, outgoing, counts, starts_session, dials, hangs_up, log, blank_event,
}
use air_whatsbot.Calls.Manager.Sessions.{
  emit_event, register_session, active_call_ids, range_active, fail_realtime,
}
use air_whatsbot.Calls.Manager.Sessions.Lifecycle.{Inv}
use air_whatsbot.Calls.Manager.Sessions.Ending.{Shrinks, range_active-Shrinks, nothing_left}
use air_whatsbot.Calls.Manager.Realtime.{
  Core, RealtimeError, resolve_peer, start_realtime, start_reply, start_model, start_channel,
  start_provider, connected,
}
use air_whatsbot.Calls.Manager.Outgoing.{
  OutgoingError, Placed, call_placed, not_placed, unknown_peer, realtime_failed, outgoing_guard,
  initiate_outgoing, call_answer, call_peer, call_realtime, fail_call, guarded, replace_call,
  set_ready,
}
use air_whatsbot.Calls.Manager.Keep.{put_session-Inv, effects-Inv}
use air_whatsbot.Calls.Manager.Total.{
  emit_event-Inv, register_session-Inv, fail_realtime-Shrinks, logged_cleanup-Shrinks,
}

module _ {Err File : Type 0} where
  abbrev pub Kept : Manager Err File → Manager Err File → Type 0
  Kept m m' = Inv m' × (m'.active ≡ m.active)

  -- What an attempt leaves: the placed call alone, or no call.
  abbrev pub LeavesOne : Placed Err × Manager Err File → Type 0
  LeavesOne (call_placed id, m) = Inv m × (keys m.active ≡ id ∷ [])
  LeavesOne (not_placed e, m) = Inv m × (m.active ≡ [])

  -- Past the guards one call or none is left; a guard that fails changes nothing.
  abbrev pub Attempted :
      Manager Err File → Option (OutgoingError Err) → Run (Placed Err × Manager Err File) → Type 0
  Attempted m none r = Returns r LeavesOne
  Attempted m (some e) r = r ≡ done (not_placed e, m)

  -- The session's data changes, its life does not.
  connected-Inv : (p resp_id : ℕ) (m : Manager Err File) → Inv m → Inv (connected p resp_id m)
  connected-Inv p resp_id m v =
      put_session-Inv m p (record (m.sessions p) { resp_id = resp_id; source_closed = some false })
        v
        (record {
          named = refl;
          unended = refl;
          uncancelled = refl;
          hub_closed = refl;
          safe = v.safe p;
        })

  pub set_ready-Inv : (p : ℕ) (m : Manager Err File) → Inv m → Inv (set_ready p m)
  set_ready-Inv p m v =
      put_session-Inv m p (record (m.sessions p) { ready = true }) v
        (record {
          named = refl;
          unended = refl;
          uncancelled = refl;
          hub_closed = refl;
          safe = v.safe p;
        })

  only_one :
      (m m' : Manager Err File) (id : String) (p : ℕ)
      → m.active ≡ (id, p) ∷ []
      → Shrinks m m'
      → lookup id m'.active ≡ none
      → m'.active ≡ []
  only_one m m' id p one s gone = nothing_left m m' s (rw (ap keys one) (gone, tt))

module _ {Err Ch File : Type 0} (host : Host Err File) (core : Core Err Ch) where
  start_reply-Kept :
      (p resp_id : ℕ) (m : Manager Err File) (o : Option (RealtimeError Err))
      → Inv m
      → Kept m (start_reply host core p resp_id m o).1
  start_reply-Kept p resp_id m (some e) v = (v, refl)
  start_reply-Kept p resp_id m none v = (connected-Inv p resp_id m v, refl)

  start_model-Kept :
      (p resp_id : ℕ) (ch : Ch) (m : Manager Err File) (o : Option (RealtimeError Err))
      → Inv m
      → Kept m (start_model host core p resp_id ch m o).1
  start_model-Kept p resp_id ch m (some e) v = (v, refl)
  start_model-Kept p resp_id ch m none v =
      start_reply-Kept p resp_id (log (starts_session resp_id) m) _ (effects-Inv m _ v)

  start_channel-Kept :
      (p resp_id : ℕ) (m : Manager Err File) (c : Err ⊎ Ch)
      → Inv m
      → Kept m (start_channel host core p resp_id m c).1
  start_channel-Kept p resp_id m (inl e) v = (v, refl)
  start_channel-Kept p resp_id m (inr ch) v = start_model-Kept p resp_id ch m _ v

  start_provider-Kept :
      (p resp_id : ℕ) (m : Manager Err File) (b : Bool)
      → Inv m
      → Kept m (start_provider host core p resp_id m b).1
  start_provider-Kept p resp_id m false v = (v, refl)
  start_provider-Kept p resp_id m true v = start_channel-Kept p resp_id m _ v

  pub start_realtime-Kept :
      (p resp_id : ℕ) (m : Manager Err File)
      → Inv m
      → Kept m (start_realtime host core p resp_id m).1
  unfolding start_realtime
  start_realtime-Kept p resp_id m v = start_provider-Kept p resp_id m core.realtime_provider v

  fail_call-LeavesOne :
      (id : String) (p : ℕ) (e : OutgoingError Err) (m : Manager Err File)
      → Inv m
      → m.active ≡ (id, p) ∷ []
      → Returns (fail_call host core id e m) LeavesOne
  fail_call-LeavesOne id p e m v one =
      Returns-bind (fail_realtime host id m) (λ m'. done (not_placed e, m'))
        (λ m'. Shrinks m m' × (lookup id m'.active ≡ none)) LeavesOne
        (fail_realtime-Shrinks host id m v) (λ m' (s, gone). (s.inv, only_one m m' id p one s gone))

  call_realtime-LeavesOne :
      (id : String) (p : ℕ) (r : Option (RealtimeError Err)) (m : Manager Err File)
      → Inv m
      → m.active ≡ (id, p) ∷ []
      → Returns (call_realtime host core p id (r, m)) LeavesOne
  call_realtime-LeavesOne id p (some e) m v one =
      fail_call-LeavesOne id p (realtime_failed e) m v one
  call_realtime-LeavesOne id p none m v one =
      let m1 = log (counts outgoing "accepted") m in
      Returns-bind (emit_event host p (blank_event "call_connected") m1)
        (λ m'. done (call_placed id, log (counts outgoing "started") m')) (Kept m1) LeavesOne
        (emit_event-Inv host p (blank_event "call_connected") m1 (effects-Inv m _ v))
        (λ m' (v', same). (effects-Inv m' _ v', ap keys (same ∙ one)))

  call_peer-LeavesOne :
      (id : String) (p : ℕ) (o : Option ℕ) (m : Manager Err File)
      → Inv m
      → m.active ≡ (id, p) ∷ []
      → Returns (call_peer host core p id m o) LeavesOne
  call_peer-LeavesOne id p none m v one = fail_call-LeavesOne id p unknown_peer m v one
  call_peer-LeavesOne id p (some resp_id) m v one =
      let (v', same) = start_realtime-Kept p resp_id (set_ready p m) (set_ready-Inv p m v) in
      call_realtime-LeavesOne id p _ _ v' (same ∙ one)

  registered_alone :
      (id : String) (peer : Jid) (handler : Bool) (m : Manager Err File)
      → m.active ≡ []
      → (register_session host id peer outgoing handler m).1.active
        ≡ (id, (register_session host id peer outgoing handler m).0) ∷ []
  unfolding register_session insert delete
  registered_alone id peer handler m empty = ap (insert id m.next_session) empty

  call_answer-LeavesOne :
      (handler : Bool) (answer : Err ⊎ (String × Jid)) (m : Manager Err File)
      → Inv m
      → m.active ≡ []
      → Returns (call_answer host core handler answer m) LeavesOne
  unfolding call_answer
  call_answer-LeavesOne handler (inl e) m v empty = (effects-Inv m _ v, empty)
  call_answer-LeavesOne handler (inr (id, peer)) m v empty =
      let (p, m1) = register_session host id peer outgoing handler m in
      Returns-bind (emit_event host p (blank_event "call_started") m1)
        (λ m'. call_peer host core p id m' (resolve_peer host core peer)) (Kept m1) LeavesOne
        (emit_event-Inv host p (blank_event "call_started") m1
          (register_session-Inv host id peer outgoing handler m v))
        (λ m' (v', same).
          call_peer-LeavesOne id p _ m' v' (same ∙ registered_alone id peer handler m empty))

  placed-LeavesOne :
      (target : String) (handler : Bool) (answer : Err ⊎ (String × Jid)) (m : Manager Err File)
      → Inv m
      → Returns
          (range_active (replace_call host core) (active_call_ids host m) m >>= λ m'.
            call_answer host core handler answer (log (dials target) m'))
          LeavesOne
  placed-LeavesOne target handler answer m v =
      Returns-bind (range_active (replace_call host core) (active_call_ids host m) m)
        (λ m'. call_answer host core handler answer (log (dials target) m'))
        (λ m'. Shrinks m m' × All (λ id. lookup id m'.active ≡ none) (keys m.active)) LeavesOne
        (range_active-Shrinks (replace_call host core)
          (λ id m1. logged_cleanup-Shrinks host id (hangs_up id) m1) (keys m.active) m v)
        (λ m' (s, gone).
          call_answer-LeavesOne handler answer (log (dials target) m') (effects-Inv m' _ s.inv)
            (nothing_left m m' s gone))

  guarded-Attempted :
      (m : Manager Err File) (o : Option (OutgoingError Err))
      (r : Run (Placed Err × Manager Err File))
      → Returns r LeavesOne
      → Attempted m o (guarded host core o m r)
  guarded-Attempted m none r h = h
  guarded-Attempted m (some e) r h = refl

  -- In a manager that keeps the invariant, `InitiateOutgoing` returns, without a panic and without
  -- blocking, whatever the libraries answer. An early return leaves the manager as it is. Past the
  -- early returns every call that was active is replaced: afterwards the new call is the only
  -- active one, or, if it fails, there is none; and the invariant is kept.
  pub initiate_outgoing_lem :
      (target : String) (ctx_err : Option Err) (handler : Bool) (answer : Err ⊎ (String × Jid))
      (m : Manager Err File)
      → Inv m
      → Attempted m
          (outgoing_guard host core target ctx_err)
          (initiate_outgoing host core target ctx_err handler answer m)
  unfolding initiate_outgoing
  initiate_outgoing_lem target ctx_err handler answer m v =
      guarded-Attempted m _ _ (placed-LeavesOne target handler answer m v)
