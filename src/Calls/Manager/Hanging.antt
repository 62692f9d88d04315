-- ===== src/Calls/Manager/Hanging.antt =====
-- `cleanup` runs once per call, `Hangup` on every branch, and what `watchTimeout` misses.
use air_whatsbot.Common.{
  ℕ, ◌≡◌, refl, ◌∙◌, String, Option, none, some, ◌==◌, string_eq, inl, inr, done, Returns,
  Returns-bind, Bool-cases, ◌>>=◌,
}
use air_whatsbot.Common.Map.{lookup, beq_refl, lookup-delete}
use air_whatsbot.Calls.Manager.State.{Manager, Host, hangs_up, log}
use air_whatsbot.Calls.Manager.Sessions.{cleanup, hangup, hangup_found, HangupError}
use air_whatsbot.Calls.Manager.Sessions.Effects.{finished}
use air_whatsbot.Calls.Manager.Sessions.Lifecycle.{Inv, cleanup-eq, cleanup-absent}
use air_whatsbot.Calls.Manager.Sessions.Ending.{Shrinks}
use air_whatsbot.Calls.Manager.Total.{logged_cleanup-Shrinks}

module _ {Err File : Type 0} where
  -- What `Hangup` leaves: without an error the call was active and has left the map, every other
  -- call as it was or ended; with an error all calls and sessions are as they were.
  abbrev pub HangupLeaves :
      String → Manager Err File → Option (HangupError Err) × Manager Err File → Type 0
  HangupLeaves id m (none, m') =
      Shrinks m m' × (lookup id m'.active ≡ none) × ((p : ℕ) × (lookup id m.active ≡ some p))
  HangupLeaves id m (some e, m') = (m'.active ≡ m.active) × (m'.sessions ≡ m.sessions)

module _ {Err File : Type 0} (host : Host Err File) where
  -- In a manager that keeps the invariant, the first `cleanup` of an active call ends it: its
  -- context is cancelled, `call_ended` goes through its hub and to its handler, the hub and the
  -- source are closed, the realtime session is closed if it runs, and the call leaves the map. A
  -- second `cleanup` of it changes nothing.
  cleanup_once :
      (id : String) (p : ℕ) (m : Manager Err File)
      → Inv m
      → lookup id m.active ≡ some p
      → (cleanup host id m >>= λ m'. cleanup host id m') ≡ done (finished host id p m)
  cleanup_once id p m v a = rw (cleanup-eq host id p m v a) (
      cleanup-absent host id (finished host id p m)
        (lookup-delete id id m.active ∙ rw (beq_refl id) refl))

  hangup_found-leaves :
      (id : String) (o : Option ℕ) (e : Option Err) (m : Manager Err File)
      → Inv m
      → lookup id m.active ≡ o
      → Returns (hangup_found host id o e m) (HangupLeaves id m)
  hangup_found-leaves id none e m v a = (refl, refl)
  hangup_found-leaves id (some p) (some e) m v a = (refl, refl)
  hangup_found-leaves id (some p) none m v a =
      Returns-bind (cleanup host id (log (hangs_up id) m)) _
        (λ m'. Shrinks m m' × (lookup id m'.active ≡ none)) (HangupLeaves id m)
        (logged_cleanup-Shrinks host id (hangs_up id) m v) (λ m' (s, gone). (s, gone, (p, a)))

  -- In a manager that keeps the invariant, `Hangup` returns, without a panic and without blocking.
  -- If it reports no error, the call was active and is not any more, every other call is as before
  -- or has ended, and no call has started; if it reports one, every call and every session is as
  -- before.
  pub hangup_lem :
      (id : String) (m : Manager Err File) → Inv m → Returns (hangup host id m) (HangupLeaves id m)
  unfolding hangup
  hangup_lem id m v = elim (Bool-cases (id == "")) [
    | inl e ↦ rw e (refl, refl)
    | inr e ↦ rw e (hangup_found-leaves id (lookup id m.active) (host.hangup_err id) m v refl)
  ]
