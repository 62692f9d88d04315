-- ===== src/Calls/Manager/State.antt =====
-- The state of the manager (`Manager`, `callSession`) and what its methods use of the bot and of the
-- libraries (`Host`, `*meowcaller.Call`, `*whatsmeow.Client`).
use air_whatsbot.Common.{ℕ, String, Bool, Option, none, List, [], ◌∷◌, ◌++◌, nat_beq, if◌then◌else◌}
use air_whatsbot.Common.Map.{Map}
use air_whatsbot.Calls.Hub.{CallEvent, World}

pub data Direction : Type 0 where
  incoming outgoing : Direction

-- types.JID, as far as the program reads it.
pub record Jid : Type 0 where
  pub user : String
  pub server : String

pub record Session (Err File : Type 0) : Type 0 where
  pub call_id : String
  pub peer : Jid
  pub direction : Direction
  pub cancelled : Bool  -- the context of the call
  pub ended : Bool  -- whether `once` has run
  pub resp_id : ℕ  -- uint64; not 0 once the realtime session runs
  pub source_closed : Option Bool  -- `none` is a nil source
  pub ready : Bool
  pub on_event : Bool  -- whether a handler was given
  pub event_hub : World Err File
  pub last_activity : ℕ

pub data Effect : Type 0 where
  counts : Direction → String → Effect  -- metrics.WhatsAppCalls
  counts_error : String → Effect  -- metrics.WhatsAppCallErrors
  counts_response : String → Effect  -- metrics.WhatsAppCallResponses
  notifies : String → String → Effect  -- go session.onEvent(event): its type and call
  starts_session : ℕ → Effect
  closes_session : ℕ → Effect
  dials : String → Effect
  hangs_up : String → Effect
  rejects : String → Effect
  answers : String → Effect

pub record Manager (Err File : Type 0) : Type 0 where
  pub sessions : ℕ → Session Err File
  pub next_session : ℕ  -- the sessions made so far are those below it
  pub active : Map String ℕ
  pub active_gauge : ℕ  -- metrics.ActiveWhatsAppCalls
  pub effects : List Effect

-- What the bot and the libraries answer. `none` for an error is nil.
pub record Host (Err File : Type 0) : Type 0 where
  pub now : Manager Err File → ℕ
  pub voice_calls_enabled : Bool
  pub voice_call_mode : Bool
  pub is_call_allowed : String → Bool
  pub stopped : Bool
  pub has_call_client : Bool
  pub logged_in : Bool  -- the WhatsApp client is there and is logged in
  pub hangup_err : String → Option Err
  pub answer_err : String → Option Err
  -- Store.GetAltJID; `none` where the client has no store and where it answers an error
  pub alt_jid : Jid → Option Jid
  pub default_user_server : String  -- types.DefaultUserServer

module _ {Err File : Type 0} where
  abbrev pub log : Effect → Manager Err File → Manager Err File
  log e m = record m { effects = m.effects ++ e ∷ [] }

  abbrev pub put_session : ℕ → Session Err File → Manager Err File → Manager Err File
  put_session p s m = record m { sessions = λ q. if nat_beq p q then s else m.sessions q }

  abbrev pub blank_event : String → CallEvent Err File
  blank_event kind = record {
    call_id = "";
    kind = kind;
    delta = "";
    text = "";
    response_id = "";
    err = none;
    sequence = 0;
    timestamp = 0;
    bytes = [];
    files = [];
  }
