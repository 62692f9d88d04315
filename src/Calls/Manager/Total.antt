-- ===== src/Calls/Manager/Total.antt =====
-- Every operation on the sessions returns, without a panic and without blocking, and keeps the
-- invariant.
use air_whatsbot.Common.{
  ℕ, ◌≡◌, refl, subst, sym, ◌∙◌, String, Bool, none, some, ◌++◌, arith, inl, inr, ◌==◌, string_eq,
  nat_beq, nat_beq_refl, if◌then◌else◌, done, Returns, Returns-bind, Returns-imp, Bool-cases,
}
use air_whatsbot.Common.Map.{lookup, lookup-insert}
use air_whatsbot.Calls.Hub.{CallEvent, new_world}
use air_whatsbot.Calls.Hub.Safe.{IsSafe}
use air_whatsbot.Calls.Hub.Invariant.{new_world-IsSafe}
use air_whatsbot.Calls.Manager.State.{
  Manager, Host, Jid, Direction, Effect, counts_error, hangs_up, log, put_session,
}
use air_whatsbot.Calls.Manager.Sessions.{
  session_emit, emit_event, register_session, new_session, cleanup, fail_realtime, notification,
}
use air_whatsbot.Calls.Manager.Sessions.Lifecycle.{IsLive, Inv, IsLive-put_other}
use air_whatsbot.Calls.Manager.Sessions.Ending.{Shrinks, Shrinks-trans, cleanup-Shrinks}
use air_whatsbot.Calls.Manager.Keep.{SameLife, put_session-Inv, effects-Inv, session_emit-SameLife}

module _ {Err File : Type 0} where
  Shrinks-log : (m m' : Manager Err File) (e : Effect) → Shrinks (log e m) m' → Shrinks m m'
  Shrinks-log m m' e s = record {
    inv = s.inv;
    ended_same = s.ended_same;
    no_new = s.no_new;
    left = s.left;
  }

  Shrinks-log_after : (m : Manager Err File) (e : Effect) → Inv m → Shrinks m (log e m)
  Shrinks-log_after m e v = record {
    inv = effects-Inv m _ v;
    ended_same = λ q h. refl;
    no_new = λ id q h. h;
    left = λ id q h. inl h;
  }

module _ {Err File : Type 0} (host : Host Err File) where
  pub emit_event-Inv :
      (p : ℕ) (event : CallEvent Err File) (m : Manager Err File)
      → Inv m
      → Returns (emit_event host p event m) (λ m'. Inv m' × (m'.active ≡ m.active))
  unfolding emit_event
  emit_event-Inv p event m v =
      Returns-bind (session_emit (host.now m) event (m.sessions p))
        (λ s'. done (record (put_session p s' m) {
          effects = m.effects ++ notification (m.sessions p) event.kind;
        }))
        (SameLife (m.sessions p)) (λ m'. Inv m' × (m'.active ≡ m.active))
        (session_emit-SameLife (host.now m) event (m.sessions p) (v.safe p))
        (λ s' same. (effects-Inv (put_session p s' m) _ (put_session-Inv m p s' v same), refl))

  -- `cleanup` after an entry in the log.
  pub logged_cleanup-Shrinks :
      (id : String) (e : Effect) (m : Manager Err File)
      → Inv m
      → Returns (cleanup host id (log e m)) (λ m'. Shrinks m m' × (lookup id m'.active ≡ none))
  logged_cleanup-Shrinks id e m v =
      Returns-imp (cleanup host id (log e m))
        (λ m'. Shrinks (log e m) m' × (lookup id m'.active ≡ none))
        (λ m'. Shrinks m m' × (lookup id m'.active ≡ none))
        (λ m' (s, gone). (Shrinks-log m m' e s, gone))
        (cleanup-Shrinks host id (log e m) (effects-Inv m _ v))

  registered-IsLive :
      (call_id : String) (peer : Jid) (d : Direction) (h : Bool) (m : Manager Err File)
      → Inv m
      → IsLive (register_session host call_id peer d h m).1 call_id m.next_session
  unfolding register_session
  registered-IsLive call_id peer d h m v =
      let at = nat_beq_refl m.next_session in
      record {
        named = rw at refl;
        unended = rw at refl;
        uncancelled = rw at refl;
        hub = rw at (record { safe = new_world-IsSafe; opened = unfold new_world in refl });
        known = omega arith;
      }

  registered_lookup :
      (call_id id : String) (peer : Jid) (d : Direction) (h : Bool) (m : Manager Err File)
      → lookup id (register_session host call_id peer d h m).1.active
        ≡ (if call_id == id then some m.next_session else lookup id m.active)
  unfolding register_session
  registered_lookup call_id id peer d h m = lookup-insert call_id id m.next_session m.active

  registered-old-IsLive :
      (call_id id : String) (q : ℕ) (peer : Jid) (d : Direction) (h : Bool) (m : Manager Err File)
      → IsLive m id q
      → IsLive (register_session host call_id peer d h m).1 id q
  unfolding register_session
  registered-old-IsLive call_id id q peer d h m l =
      IsLive-put_other m (register_session host call_id peer d h m).1 id m.next_session q
        (new_session host call_id peer d h m) (λ e. omega (arith, l.known)) refl (omega arith) l

  registered-IsSafe :
      (call_id : String) (peer : Jid) (d : Direction) (h : Bool) (m : Manager Err File) (q : ℕ)
      → Inv m
      → IsSafe ((register_session host call_id peer d h m).1.sessions q).event_hub
  unfolding register_session
  registered-IsSafe call_id peer d h m q v = elim (Bool-cases (nat_beq m.next_session q)) [
    | inl e ↦ rw e new_world-IsSafe
    | inr e ↦ rw e (v.safe q)
  ]

  pub register_session-Inv :
      (call_id : String) (peer : Jid) (d : Direction) (h : Bool) (m : Manager Err File)
      → Inv m
      → Inv (register_session host call_id peer d h m).1
  register_session-Inv call_id peer d h m v = record {
    live = λ id q a. elim (Bool-cases (call_id == id)) [
      | inl e ↦
          (let pq : some m.next_session ≡ some q =
              sym (registered_lookup call_id id peer d h m ∙ rw e refl) ∙ a in
            let pq' : m.next_session ≡ q = cc in
            let m' = (register_session host call_id peer d h m).1 in
            subst (λ r. IsLive m' id r) pq'
              (subst (λ i. IsLive m' i m.next_session) ((string_eq.agrees call_id id).0 e)
                (registered-IsLive call_id peer d h m v)))
      | inr e ↦
          registered-old-IsLive call_id id q peer d h m
            (v.live id q (sym (registered_lookup call_id id peer d h m ∙ rw e refl) ∙ a))
    ];
    safe = λ q. registered-IsSafe call_id peer d h m q v;
    gauge = unfold register_session in refl;
  }

  pub fail_realtime-Shrinks :
      (id : String) (m : Manager Err File)
      → Inv m
      → Returns (fail_realtime host id m) (λ m'. Shrinks m m' × (lookup id m'.active ≡ none))
  unfolding fail_realtime
  fail_realtime-Shrinks id m v =
      Returns-bind (cleanup host id (log (counts_error "realtime") m))
        (λ m'. done (log (hangs_up id) m')) (λ m'. Shrinks m m' × (lookup id m'.active ≡ none))
        (λ m'. Shrinks m m' × (lookup id m'.active ≡ none))
        (logged_cleanup-Shrinks id (counts_error "realtime") m v)
        (λ m' (s, gone). (
          Shrinks-trans m m' (log (hangs_up id) m') s (Shrinks-log_after m' (hangs_up id) s.inv),
          gone,
        ))
