-- ===== src/Calls/Manager/Examples.antt =====
-- Tests of the manager, and its theorems on concrete calls.
use air_whatsbot.Common.{
  ℕ, ◌≡◌, refl, String, true, false, none, some, [], inr, string_eq, Returns, ◌*◌,
}
use air_whatsbot.Common.Map.{lookup, insert}
use air_whatsbot.Calls.Hub.{new_world}
use air_whatsbot.Calls.Hub.Invariant.{new_world-IsSafe}
use air_whatsbot.Calls.Manager.State.{Manager, Session, Host, Jid, incoming}
use air_whatsbot.Calls.Manager.Sessions.{register_session, stop}
use air_whatsbot.Calls.Manager.Sessions.Lifecycle.{Inv}
use air_whatsbot.Calls.Manager.Sessions.Ending.{stop_lem}
use air_whatsbot.Calls.Manager.Realtime.{Core}
use air_whatsbot.Calls.Manager.Outgoing.{outgoing_guard, initiate_outgoing}
use air_whatsbot.Calls.Manager.Single.{Attempted, initiate_outgoing_lem}
use air_whatsbot.Calls.Manager.Total.{register_session-Inv}
use air_whatsbot.Calls.Manager.History.{new_manager, new_manager-Inv}
use air_whatsbot.Calls.Manager.Watch.{second}

abbrev pub host : Host String String
host = record {
  now = λ m. 7 * 60 * second;
  voice_calls_enabled = true;
  voice_call_mode = true;
  is_call_allowed = λ user. true;
  stopped = false;
  has_call_client = true;
  logged_in = true;
  hangup_err = λ id. none;
  answer_err = λ id. none;
  alt_jid = λ peer. none;
  default_user_server = "s.whatsapp.net";
}

abbrev pub core : Core String String
core = record {
  realtime_provider = true;
  get_ch = λ attempt resp_id. inr "dialog";
  ensure_user_channels = λ resp_id. none;
  get_or_set_resp = λ ch resp_id. (true, none);
  is_empty_data = λ e. false;
  start_session = λ ch resp_id. (true, none);
}

abbrev pub ann : Jid
ann = record { user = "79001112233"; server = "s.whatsapp.net" }

abbrev unused : Session String String
unused = record {
  call_id = "";
  peer = ann;
  direction = incoming;
  cancelled = false;
  ended = false;
  resp_id = 0;
  source_closed = none;
  ready = false;
  on_event = false;
  event_hub = new_world;
  last_activity = 0;
}

abbrev empty : Manager String String
empty = new_manager unused

abbrev pub one_call : Manager String String
one_call = (register_session host "A" ann incoming false empty).1

empty-Inv : Inv empty
empty-Inv = new_manager-Inv host core unused new_world-IsSafe

pub one_call-Inv : Inv one_call
one_call-Inv = register_session-Inv host "A" ann incoming false empty empty-Inv

one_call-lookup : lookup "A" one_call.active ≡ some 0
unfolding register_session new_manager insert lookup
one_call-lookup = refl

initiate_outgoing_lem_example :
    Attempted one_call
      (outgoing_guard host core "79001112234" none)
      (initiate_outgoing host core "79001112234" none true (inr ("B", ann)) one_call)
initiate_outgoing_lem_example =
    initiate_outgoing_lem host core "79001112234" none true (inr ("B", ann)) one_call one_call-Inv

stop_lem_example : Returns (stop host one_call) (λ m'.
    (m'.active ≡ [])
    × (m'.active_gauge ≡ 0)
    × ((id : String) (q : ℕ) → lookup id one_call.active ≡ some q → (m'.sessions q).ended ≡ true)
    × ((q : ℕ) → (one_call.sessions q).ended ≡ true → m'.sessions q ≡ one_call.sessions q))
stop_lem_example = stop_lem host one_call one_call-Inv
