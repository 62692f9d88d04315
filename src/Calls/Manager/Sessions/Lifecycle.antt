-- ===== src/Calls/Manager/Sessions/Lifecycle.antt =====
-- The invariant of the manager, and that the operations on sessions keep it and never panic.
use air_whatsbot.Common.{
  ℕ, ◌<◌, ◌≤◌, ◌≡◌, ◌≢◌, refl, ap, sym, ◌∙◌, String, false, none, some, arith, nat_beq, ne→nat_beq,
  string_eq, ◌==◌, eq_iff, if◌then◌else◌, length, done, Bool-cases, none≢some, inl, inr,
}
use air_whatsbot.Common.Map.{lookup, keys, lookup-delete}
use air_whatsbot.Calls.Hub.Safe.{IsSafe}
use air_whatsbot.Calls.Manager.State.{Manager, Session, Host, put_session}
use air_whatsbot.Calls.Manager.Sessions.{cleanup}
use air_whatsbot.Calls.Manager.Sessions.Effects.{
  HasOpenHub, session_finished, session_finished-IsSafe, finished, finish-eq,
}

module _ {Err File : Type 0} where
  -- The session `p` is a running call with the given ID.
  pub record IsLive (m : Manager Err File) (call_id : String) (p : ℕ) : Type 0 where
    pub named : (m.sessions p).call_id ≡ call_id
    pub unended : (m.sessions p).ended ≡ false
    pub uncancelled : (m.sessions p).cancelled ≡ false
    pub hub : HasOpenHub (m.sessions p)
    pub known : p < m.next_session

  -- Every active call has a session of its own that runs, the hub of every session is safe, and the
  -- gauge counts the active calls.
  pub record Inv (m : Manager Err File) : Type 0 where
    pub live : (call_id : String) (p : ℕ) → lookup call_id m.active ≡ some p → IsLive m call_id p
    pub safe : (p : ℕ) → IsSafe (m.sessions p).event_hub
    pub gauge : m.active_gauge ≡ length (keys m.active)

  pub put_session-IsSafe :
      (m : Manager Err File) (p : ℕ) (s : Session Err File)
      → ((q : ℕ) → IsSafe (m.sessions q).event_hub)
      → IsSafe s.event_hub
      → (q : ℕ) → IsSafe ((put_session p s m).sessions q).event_hub
  put_session-IsSafe m p s safe own q = elim (Bool-cases (nat_beq p q)) [
    | inl e ↦ rw e own
    | inr e ↦ rw e (safe q)
  ]

  pub IsLive-put_other :
      (m m' : Manager Err File) (call_id : String) (p q : ℕ) (s : Session Err File)
      → p ≢ q
      → m'.sessions ≡ (put_session p s m).sessions
      → m.next_session ≤ m'.next_session
      → IsLive m call_id q
      → IsLive m' call_id q
  IsLive-put_other m m' call_id p q s ne e n l =
      let same : m'.sessions q ≡ m.sessions q =
        ap (λ (f : ℕ → Session Err File). f q) e ∙ rw (ne→nat_beq p q ne) refl in
      record {
        named = rw same l.named;
        unended = rw same l.unended;
        uncancelled = rw same l.uncancelled;
        hub = rw same l.hub;
        known = omega (arith, n, l.known);
      }

module _ {Err File : Type 0} (host : Host Err File) where
  -- Two active calls have two sessions.
  other_session :
      (m : Manager Err File) (id id' : String) (p q : ℕ)
      → Inv m
      → lookup id m.active ≡ some p
      → lookup id' m.active ≡ some q
      → (id == id') ≡ false
      → p ≢ q
  other_session m id id' p q v a b ne e =
      let same : id ≡ id' =
        sym (v.live id p a).named ∙ ap (λ r. (m.sessions r).call_id) e ∙ (v.live id' q b).named in
      ground (arith, eq_iff id id')

  pub cleanup-absent :
      (id : String) (m : Manager Err File) → lookup id m.active ≡ none → cleanup host id m ≡ done m
  unfolding cleanup
  cleanup-absent id m e = rw e

  pub cleanup-eq :
      (id : String) (p : ℕ) (m : Manager Err File)
      → Inv m
      → lookup id m.active ≡ some p
      → cleanup host id m ≡ done (finished host id p m)
  unfolding cleanup
  cleanup-eq id p m v e = let l = v.live id p e in rw e (rw l.unended (finish-eq host id p m l.hub))

  -- The one that is not ended stays as it is.
  finished-lookup :
      (id id' : String) (p : ℕ) (m : Manager Err File)
      → lookup id' (finished host id p m).active ≡ (if id == id' then none else lookup id' m.active)
  finished-lookup id id' p m = lookup-delete id id' m.active

  pub finished-Inv :
      (id : String) (p : ℕ) (m : Manager Err File)
      → Inv m
      → lookup id m.active ≡ some p
      → Inv (finished host id p m)
  finished-Inv id p m v a = record {
    live = λ id' q b. elim (Bool-cases (id == id')) [
      | inl e ↦
          (let c : none ≡ some q = sym (lookup-delete id id' m.active ∙ rw e refl) ∙ b in
            absurd (none≢some c))
      | inr ne ↦
          (let b' : lookup id' m.active ≡ some q =
              sym (lookup-delete id id' m.active ∙ rw ne refl) ∙ b in
            IsLive-put_other m (finished host id p m) id' p q
              (session_finished (host.now m) (m.sessions p)) (other_session m id id' p q v a b' ne)
              refl (omega arith) (v.live id' q b'))
    ];
    safe = λ q.
        put_session-IsSafe m p (session_finished (host.now m) (m.sessions p)) v.safe
          (session_finished-IsSafe (host.now m) (m.sessions p) (v.safe p)) q;
    gauge = refl;
  }
