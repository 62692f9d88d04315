-- ===== src/Servers/Guarded.antt =====
-- What a hangup through the RPC server does.
use air_whatsbot.Common.{◌≡◌, true, false, Option, none, some, nat_eq}
use air_whatsbot.Common.Map.{lookup}
use air_whatsbot.Bots.Lifecycle.{Users}
use air_whatsbot.Calls.Manager.State.{Manager, Host}
use air_whatsbot.Calls.Manager.Sessions.{HangupError}
use air_whatsbot.Facade.Routing.{Routed, Managers}
use air_whatsbot.Calls.Manager.Hanging.{HangupLeaves}
use air_whatsbot.Facade.Routed.{RoutedLeaves}
use air_whatsbot.Servers.Rpc.{
  trim_space, CallRequest, RpcAnswer, invalid_argument, is_invalid, hangup_answer,
}

module _ {Err File : Type 0} (host : Host Err File) (users : Users)
    (managers : Managers Err File) where
  -- Nothing is done
  abbrev pub IsRejected : RpcAnswer Err × Managers Err File → Type 0
  IsRejected (answer, managers') = (answer ≡ invalid_argument) × (managers' ≡ managers)

  -- The call of the user is hung up, and the answer is that of the hangup
  abbrev pub IsPassed : CallRequest → RpcAnswer Err × Managers Err File → Type 0
  IsPassed r (answer, managers') =
      (routed : Routed (Option (HangupError Err))) × (answer ≡ hangup_answer r.call_id routed)
      × RoutedLeaves (HangupLeaves (trim_space r.call_id)) (lookup r.user_id users.u_bot) managers
          (routed, managers')

  abbrev pub RequestLeaves : Option CallRequest → RpcAnswer Err × Managers Err File → Type 0
  RequestLeaves none out = IsRejected out
  RequestLeaves (some r) out =
      (is_invalid r ≡ true → IsRejected out) × (is_invalid r ≡ false → IsPassed r out)
