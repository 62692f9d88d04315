-- ===== src/Facade/Routed.antt =====
-- A routed call reaches the bot of its user only.
use air_whatsbot.Common.{
  ℕ, ◌≡◌, refl, sym, subst, String, Bool, false, Option, none, some, ◌⊎◌, nat_eq, nat_beq,
  nat_beq_refl, Run, done, Returns, Returns-bind,
}
use air_whatsbot.Common.Map.{lookup}
use air_whatsbot.Bots.Lifecycle.{Users}
use air_whatsbot.Calls.Manager.State.{Manager, Host, Jid}
use air_whatsbot.Calls.Manager.Sessions.{hangup}
use air_whatsbot.Calls.Manager.Sessions.Lifecycle.{Inv}
use air_whatsbot.Calls.Manager.Realtime.{Core}
use air_whatsbot.Calls.Manager.Outgoing.{
  OutgoingError, Placed, not_placed, outgoing_guard, initiate_outgoing,
}
use air_whatsbot.Calls.Manager.Single.{LeavesOne, Attempted, initiate_outgoing_lem}
use air_whatsbot.Calls.Manager.Hanging.{HangupLeaves, hangup_lem}
use air_whatsbot.Facade.Routing.{
  Routed, no_bot, no_calls, answered, Managers, keep_manager, on_manager, on_bot, for_user,
  hangup_call, initiate_outgoing_call,
}

module _ {Err File : Type 0} where
  keep-other :
      (p q : ℕ) (m : Manager Err File) (managers : Managers Err File)
      → nat_beq p q ≡ false
      → keep_manager p m managers q ≡ managers q
  keep-other p q m managers e = rw e refl

  keep-own :
      (p : ℕ) (m : Manager Err File) (managers : Managers Err File)
      → keep_manager p m managers p ≡ some m
  keep-own p m managers = rw (nat_beq_refl p) refl

module _ {Err File A : Type 0} (Leaves : Manager Err File → A × Manager Err File → Type 0) where
  -- What the manager of the user's bot leaves: no manager, or what its own operation leaves.
  abbrev pub OwnLeaves : Option (Manager Err File) → Routed A → Option (Manager Err File) → Type 0
  OwnLeaves none r now = (r ≡ no_calls) × (now ≡ none)
  OwnLeaves (some m) r now =
      (a : A) × (m' : Manager Err File) × (r ≡ answered a) × (now ≡ some m') × Leaves m (a, m')

  -- What a routed operation leaves: the user's bot is asked, and only it.
  abbrev pub RoutedLeaves : Option ℕ → Managers Err File → Routed A × Managers Err File → Type 0
  RoutedLeaves none managers (r, managers') = (r ≡ no_bot) × (managers' ≡ managers)
  RoutedLeaves (some p) managers (r, managers') =
      OwnLeaves (managers p) r (managers' p)
      × ((q : ℕ) → nat_beq p q ≡ false → managers' q ≡ managers q)

  -- The same for a manager that is given
  abbrev AskedLeaves :
      ℕ → Option (Manager Err File) → Managers Err File → Routed A × Managers Err File → Type 0
  AskedLeaves p o managers (r, managers') =
      OwnLeaves o r (managers' p) × ((q : ℕ) → nat_beq p q ≡ false → managers' q ≡ managers q)

  module _ (f : Manager Err File → Run (A × Manager Err File))
      (works : (m : Manager Err File) → Inv m → Returns (f m) (Leaves m)) where
    manager-leaves :
        (p : ℕ) (o : Option (Manager Err File)) (managers : Managers Err File)
        → managers p ≡ o
        → ((m : Manager Err File) → o ≡ some m → Inv m)
        → Returns (on_manager f p o managers) (AskedLeaves p o managers)
    manager-leaves p none managers here inv = ((refl, here), λ q e. refl)
    manager-leaves p (some m) managers here inv =
        Returns-bind (f m) (λ r. done (answered r.0, keep_manager p r.1 managers)) (Leaves m)
          (AskedLeaves p (some m) managers) (works m (inv m refl))
          (λ r l.
            ((r.0, r.1, refl, keep-own p r.1 managers, l), λ q e. keep-other p q r.1 managers e))

    bot-leaves :
        (o : Option ℕ) (managers : Managers Err File)
        → ((p : ℕ) (m : Manager Err File) → managers p ≡ some m → Inv m)
        → Returns (on_bot f o managers) (RoutedLeaves o managers)
    bot-leaves none managers inv = (refl, refl)
    bot-leaves (some p) managers inv = manager-leaves p (managers p) managers refl (inv p)

module _ {Err File : Type 0} (host : Host Err File) where
  -- Where every manager of calls keeps its invariant, `HangupCall` returns, without a panic and without
  -- blocking. Without a bot of the user it reports that and changes nothing; with one, the manager of
  -- the bot, if there is one, does its own hangup, and the calls of every other bot stay as they are.
  pub hangup_call_lem :
      (user : ℕ) (id : String) (users : Users) (managers : Managers Err File)
      → ((p : ℕ) (m : Manager Err File) → managers p ≡ some m → Inv m)
      → Returns
          (hangup_call host user id users managers)
          (RoutedLeaves (HangupLeaves id) (lookup user users.u_bot) managers)
  unfolding hangup_call for_user
  hangup_call_lem user id users managers inv =
      bot-leaves (HangupLeaves id) (hangup host id) (hangup_lem host id) (lookup user users.u_bot)
        managers inv

module _ {Err File : Type 0} where
  -- What an attempt to call leaves, by the guard of it.
  abbrev pub GuardLeaves :
      Option (OutgoingError Err) → Manager Err File → Placed Err × Manager Err File → Type 0
  GuardLeaves none m out = LeavesOne out
  GuardLeaves (some e) m out = out ≡ (not_placed e, m)

module _ {Err Ch File : Type 0} (host : Host Err File) (core : Core Err Ch) where
  Attempted-leaves :
      (o : Option (OutgoingError Err)) (m : Manager Err File)
      (r : Run (Placed Err × Manager Err File))
      → Attempted m o r
      → Returns r (GuardLeaves o m)
  Attempted-leaves none m r h = h
  Attempted-leaves (some e) m r h = subst (λ s. Returns s (GuardLeaves (some e) m)) (sym h) refl

  -- Where every manager of calls keeps its invariant, `InitiateOutgoingCall` returns, without a panic
  -- and without blocking, and reaches the manager of the user's bot only: after a guard of
  -- InitiateOutgoing that fails it is as before, else it has the new call or none.
  pub initiate_outgoing_call_lem :
      (user : ℕ) (target : String) (ctx_err : Option Err) (handler : Bool)
      (answer : Err ⊎ (String × Jid)) (users : Users) (managers : Managers Err File)
      → ((p : ℕ) (m : Manager Err File) → managers p ≡ some m → Inv m)
      → Returns
          (initiate_outgoing_call host core user target ctx_err handler answer users managers)
          (RoutedLeaves
            (GuardLeaves (outgoing_guard host core target ctx_err))
            (lookup user users.u_bot)
            managers)
  unfolding initiate_outgoing_call for_user
  initiate_outgoing_call_lem user target ctx_err handler answer users managers inv =
      bot-leaves (GuardLeaves (outgoing_guard host core target ctx_err))
        (initiate_outgoing host core target ctx_err handler answer)
        (λ m v.
          Attempted-leaves (outgoing_guard host core target ctx_err) m _
            (initiate_outgoing_lem host core target ctx_err handler answer m v))
        (lookup user users.u_bot) managers inv
