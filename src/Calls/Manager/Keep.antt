-- ===== src/Calls/Manager/Keep.antt =====
-- Every operation of the manager returns, without a panic and without blocking, and keeps the
-- invariant.
use air_whatsbot.Common.{
  ℕ, ◌≡◌, refl, subst, sym, ◌∙◌, String, List, arith, inl, inr, string_eq, nat_beq, nat_beq_iff,
  nat_beq_refl, Returns, Bool-cases,
}
use air_whatsbot.Calls.Hub.{CallEvent}
use air_whatsbot.Calls.Hub.Safe.{IsSafe, publish-eq, publish-closed}
use air_whatsbot.Calls.Hub.Invariant.{published-IsSafe}
use air_whatsbot.Calls.Manager.State.{Manager, Session, Effect, put_session}
use air_whatsbot.Calls.Manager.Sessions.{session_emit}
use air_whatsbot.Calls.Manager.Sessions.Lifecycle.{
  IsLive, Inv, put_session-IsSafe, IsLive-put_other,
}

module _ {Err File : Type 0} where
  -- The life of a session is the same in both states.
  pub record SameLife (s s' : Session Err File) : Type 0 where
    pub named : s'.call_id ≡ s.call_id
    pub unended : s'.ended ≡ s.ended
    pub uncancelled : s'.cancelled ≡ s.cancelled
    pub hub_closed : s'.event_hub.hub.closed ≡ s.event_hub.hub.closed
    pub safe : IsSafe s'.event_hub

  put-same-IsLive :
      (m : Manager Err File) (id : String) (p : ℕ) (s : Session Err File)
      → IsLive m id p
      → SameLife (m.sessions p) s
      → IsLive (put_session p s m) id p
  put-same-IsLive m id p s l same =
      let at : (put_session p s m).sessions p ≡ s = rw (nat_beq_refl p) refl in
      record {
        named = rw at (same.named ∙ l.named);
        unended = rw at (same.unended ∙ l.unended);
        uncancelled = rw at (same.uncancelled ∙ l.uncancelled);
        hub = rw at (record { safe = same.safe; opened = same.hub_closed ∙ l.hub.opened });
        known = l.known;
      }

  put-IsLive :
      (m : Manager Err File) (id : String) (p q : ℕ) (s : Session Err File)
      → IsLive m id q
      → SameLife (m.sessions p) s
      → IsLive (put_session p s m) id q
  put-IsLive m id p q s l same = elim (Bool-cases (nat_beq p q)) [
    | inl e ↦
        (let pq : p ≡ q = (nat_beq_iff p q).0 e in
          subst (λ r. IsLive (put_session p s m) id r) pq
            (put-same-IsLive m id p s (subst (IsLive m id) (sym pq) l) same))
    | inr n ↦
        IsLive-put_other m (put_session p s m) id p q s (λ pq. ground (arith, nat_beq_iff p q)) refl
          (omega arith) l
  ]

  -- A change of one session that leaves its life as it is.
  pub put_session-Inv :
      (m : Manager Err File) (p : ℕ) (s : Session Err File)
      → Inv m
      → SameLife (m.sessions p) s
      → Inv (put_session p s m)
  put_session-Inv m p s v same = record {
    live = λ id q a. put-IsLive m id p q s (v.live id q a) same;
    safe = put_session-IsSafe m p s v.safe same.safe;
    gauge = v.gauge;
  }

  -- A change that only appends to the log.
  pub effects-Inv :
      (m : Manager Err File) (es : List Effect) → Inv m → Inv (record m { effects = es })
  effects-Inv m es v = record {
    live = λ id q a.
        let l = v.live id q a in
        record {
          named = l.named;
          unended = l.unended;
          uncancelled = l.uncancelled;
          hub = l.hub;
          known = l.known;
        };
    safe = v.safe;
    gauge = v.gauge;
  }

  -- `emitEvent` on any session, also on one whose hub is closed.
  pub session_emit-SameLife :
      (t : ℕ) (event : CallEvent Err File) (s : Session Err File)
      → IsSafe s.event_hub
      → Returns (session_emit t event s) (SameLife s)
  unfolding session_emit
  session_emit-SameLife t event s safe = elim (Bool-cases s.event_hub.hub.closed) [
    | inl c ↦ rw (publish-closed (record event { call_id = s.call_id }) t s.event_hub c) (record {
      named = refl;
      unended = refl;
      uncancelled = refl;
      hub_closed = refl;
      safe = safe;
    })
    | inr o ↦ rw (publish-eq (record event { call_id = s.call_id }) t s.event_hub safe o) (record {
      named = refl;
      unended = refl;
      uncancelled = refl;
      hub_closed = refl;
      safe = published-IsSafe (record event { call_id = s.call_id }) t s.event_hub safe;
    })
  ]
