-- ===== src/Servers/Rpc.antt =====
-- `StartOutgoingCall` and `HangupCall` of internal/delivery/rpc/server.go.
use Prim.Native.Char.{code}
use air_whatsbot.Common.{
  ℕ, String, ◌⊎◌, Bool, false, Option, none, some, nat_beq, string_eq, ◌==◌, ◌||◌, ◌&&◌,
  if◌then◌else◌, Run, done, ◌>>=◌,
}
use air_whatsbot.Bots.Allowed.{is_space}
use air_whatsbot.Bots.Lifecycle.{Users}
use air_whatsbot.Calls.Manager.State.{Host, Jid}
use air_whatsbot.Calls.Manager.Sessions.{HangupError}
use air_whatsbot.Calls.Manager.Realtime.{Core}
use air_whatsbot.Calls.Manager.Outgoing.{OutgoingError, Placed, call_placed, not_placed}
use air_whatsbot.Facade.Routing.{
  Routed, no_bot, no_calls, answered, Managers, hangup_call, initiate_outgoing_call,
}

-- strings.TrimSpace(s)
unfoldable pub trim_left : String → String
trim_left String.[] = ""
trim_left (String.◌∷◌ c s) = if is_space (code c) then trim_left s else String.◌∷◌ c s

unfoldable pub trim_right : String → String
trim_right String.[] = ""
trim_right (String.◌∷◌ c s) =
    let rest = trim_right s in if (rest == "") && is_space (code c) then "" else String.◌∷◌ c rest

abbrev pub trim_space : String → String
trim_space s = trim_right (trim_left s)

-- HangupCallRequest, as far as it is read
pub record CallRequest : Type 0 where
  pub user_id : ℕ
  pub call_id : String

pub data RpcAnswer (Err : Type 0) : Type 0 where
  invalid_argument : RpcAnswer Err
  no_user_bot : RpcAnswer Err
  call_not_found : RpcAnswer Err
  failed : HangupError Err → RpcAnswer Err
  hangup_requested : String → RpcAnswer Err

-- `req == nil || req.GetUserId() == 0 || strings.TrimSpace(req.GetCallId()) == ""`
abbrev pub is_invalid : CallRequest → Bool
is_invalid r = nat_beq r.user_id 0 || (trim_space r.call_id == "")

module _ {Err : Type 0} where
  abbrev pub hangup_answer : String → Routed (Option (HangupError Err)) → RpcAnswer Err
  hangup_answer id no_bot = no_user_bot
  hangup_answer id no_calls = call_not_found
  hangup_answer id (answered (some e)) = failed e
  hangup_answer id (answered none) = hangup_requested id

module _ {Err File : Type 0} (host : Host Err File) (users : Users)
    (managers : Managers Err File) where
  abbrev pub hangup_valid : CallRequest → Run (RpcAnswer Err × Managers Err File)
  hangup_valid r = hangup_call host r.user_id (trim_space r.call_id) users managers >>= λ out.
      done (hangup_answer r.call_id out.0, out.1)

  abbrev pub hangup_checked : Option CallRequest → Run (RpcAnswer Err × Managers Err File)
  hangup_checked none = done (invalid_argument, managers)
  hangup_checked (some r) =
      if is_invalid r then done (invalid_argument, managers) else hangup_valid r

  -- s.HangupCall(ctx, req); `none` is a nil request
  unfoldable pub hangup_rpc : Option CallRequest → Run (RpcAnswer Err × Managers Err File)
  hangup_rpc req = hangup_checked req

-- StartOutgoingCallRequest, as far as it is read
pub record StartRequest : Type 0 where
  pub user_id : ℕ
  pub target : String

pub data StartAnswer (Err : Type 0) : Type 0 where
  bad_request : StartAnswer Err
  without_bot : StartAnswer Err
  without_calls : StartAnswer Err
  not_started : OutgoingError Err → StartAnswer Err
  starting : String → String → StartAnswer Err  -- CallId and AiProvider

-- `req.GetUserId() == 0 || strings.TrimSpace(req.GetTarget()) == ""`
abbrev pub is_unusable : StartRequest → Bool
is_unusable r = nat_beq r.user_id 0 || (trim_space r.target == "")

module _ {Err : Type 0} where
  -- The provider's name is taken whether or not GetActiveProvider reports an error.
  abbrev pub start_answer : String → Routed (Placed Err) → StartAnswer Err
  start_answer provider no_bot = without_bot
  start_answer provider no_calls = without_calls
  start_answer provider (answered (not_placed e)) = not_started e
  start_answer provider (answered (call_placed id)) = starting id provider

-- `provider` is the name of what GetActiveProvider gives for a user, `answer` what the call client
-- answers to the offer
module _ {Err Ch File : Type 0} (host : Host Err File) (core : Core Err Ch) (users : Users)
    (managers : Managers Err File) (provider : ℕ → String) (answer : Err ⊎ (String × Jid)) where
  -- Without the cancellation of the request, and without a handler
  abbrev pub start_valid : StartRequest → Run (StartAnswer Err × Managers Err File)
  start_valid r =
      initiate_outgoing_call host core r.user_id (trim_space r.target) none false answer users
        managers
      >>= λ out. done (start_answer (provider r.user_id) out.0, out.1)

  abbrev pub start_checked : Option StartRequest → Run (StartAnswer Err × Managers Err File)
  start_checked none = done (bad_request, managers)
  start_checked (some r) = if is_unusable r then done (bad_request, managers) else start_valid r

  -- s.StartOutgoingCall(ctx, req); `none` is a nil request
  unfoldable pub start_rpc : Option StartRequest → Run (StartAnswer Err × Managers Err File)
  start_rpc req = start_checked req
