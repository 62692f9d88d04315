-- ===== src/Facade/Routing.antt =====
-- internal/whatsapp/user_calls.go and the calls of internal/whatsapp/bot_calls.go: a call of a user
-- goes to the manager of the user's bot.
use air_whatsbot.Common.{
  ℕ, String, Bool, Option, none, some, List, ◌⊎◌, nat_eq, nat_beq, if◌then◌else◌, Run, done, ◌>>=◌,
}
use air_whatsbot.Common.Map.{lookup}
use air_whatsbot.Bots.Lifecycle.{Users}
use air_whatsbot.Calls.Manager.State.{Jid, Manager, Host}
use air_whatsbot.Calls.Manager.Sessions.{
  HangupError, SubscribeResult, active_call_ids, hangup, subscribe_call,
}
use air_whatsbot.Calls.Manager.Realtime.{Core}
use air_whatsbot.Calls.Manager.Outgoing.{Placed, initiate_outgoing}

-- What a routed call gives: no bot of the user, no manager of the calls, or the manager's answer
pub data Routed (A : Type 0) : Type 0 where
  no_bot : Routed A
  no_calls : Routed A
  answered : A → Routed A

-- b.calls of each bot; `none` is nil
abbrev pub Managers : Type 0 → Type 0 → Type 0
Managers Err File = ℕ → Option (Manager Err File)

module _ {Err File : Type 0} where
  abbrev pub keep_manager : ℕ → Manager Err File → Managers Err File → Managers Err File
  keep_manager p m managers q = if nat_beq p q then some m else managers q

  -- An operation on the manager of the bot `p`
  abbrev pub on_manager :
      {A : Type 0}
      → (Manager Err File → Run (A × Manager Err File))
      → ℕ
      → Option (Manager Err File)
      → Managers Err File
      → Run (Routed A × Managers Err File)
  on_manager f p none managers = done (no_calls, managers)
  on_manager f p (some m) managers = f m >>= λ r. done (answered r.0, keep_manager p r.1 managers)

  abbrev pub on_bot :
      {A : Type 0}
      → (Manager Err File → Run (A × Manager Err File))
      → Option ℕ
      → Managers Err File
      → Run (Routed A × Managers Err File)
  on_bot f none managers = done (no_bot, managers)
  on_bot f (some p) managers = on_manager f p (managers p) managers

  -- u.botForUser(userID), and the method of the bot
  unfoldable pub for_user :
      {A : Type 0}
      → (Manager Err File → Run (A × Manager Err File))
      → ℕ
      → Users
      → Managers Err File
      → Run (Routed A × Managers Err File)
  for_user f user users managers = on_bot f (lookup user users.u_bot) managers

module _ {Err File : Type 0} (host : Host Err File) where
  -- u.HangupCall(userID, callID)
  unfoldable pub hangup_call :
      ℕ
      → String
      → Users
      → Managers Err File
      → Run (Routed (Option (HangupError Err)) × Managers Err File)
  hangup_call user call_id users managers = for_user (hangup host call_id) user users managers

  -- u.ActiveCallIDs(userID)
  unfoldable pub user_active_call_ids :
      ℕ → Users → Managers Err File → Run (Routed (List String) × Managers Err File)
  user_active_call_ids user users managers =
      for_user (λ m. done (active_call_ids host m, m)) user users managers

  -- u.SubscribeCallEvents(ctx, userID, callID, afterSequence)
  unfoldable pub subscribe_call_events :
      ℕ
      → String
      → ℕ
      → Users
      → Managers Err File
      → Run (Routed (SubscribeResult Err File) × Managers Err File)
  subscribe_call_events user call_id after users managers =
      for_user (subscribe_call host call_id after) user users managers

module _ {Err File Ch : Type 0} (host : Host Err File) (core : Core Err Ch) where
  -- u.InitiateOutgoingCall(ctx, userID, target, handlers...)
  unfoldable pub initiate_outgoing_call :
      ℕ
      → String
      → Option Err
      → Bool
      → Err ⊎ (String × Jid)
      → Users
      → Managers Err File
      → Run (Routed (Placed Err) × Managers Err File)
  initiate_outgoing_call user target ctx_err handler answer users managers =
      for_user (initiate_outgoing host core target ctx_err handler answer) user users managers
