-- ===== src/Calls/Manager/History.antt =====
-- A whole history of a bot's calls: every entry point of the manager in any order and number.
use air_whatsbot.Common.{
  ℕ, refl, String, Bool, Option, List, [], ◌∷◌, ◌⊎◌, string_eq, Run, done, ◌>>=◌, none≢some,
}
use air_whatsbot.Common.Map.{lookup}
use air_whatsbot.Calls.Hub.{CallEvent}
use air_whatsbot.Calls.Hub.Safe.{IsSafe}
use air_whatsbot.Calls.Manager.State.{Manager, Session, Host, Jid}
use air_whatsbot.Calls.Manager.Sessions.{cleanup, hangup, stop, subscribe_call}
use air_whatsbot.Calls.Manager.Sessions.Lifecycle.{Inv}
use air_whatsbot.Calls.Manager.Realtime.{Core, realtime_event}
use air_whatsbot.Calls.Manager.Outgoing.{initiate_outgoing, handle_incoming, on_ready}
use air_whatsbot.Calls.Manager.Watch.{Watch, Tick, watch_step}

-- What may happen to a manager.
pub data Happens (Err File : Type 0) : Type 0 where
  call_arrives : String → Jid → Happens Err File
  media_ready : ℕ → Happens Err File
  dials_out : String → Option Err → Bool → Err ⊎ (String × Jid) → Happens Err File
  event_comes : ℕ → CallEvent Err File → Happens Err File
  call_ends : String → Happens Err File
  hangs : String → Happens Err File
  timer_fires : ℕ → Tick → Watch → Happens Err File
  subscribes_call : String → ℕ → Happens Err File
  stops : Happens Err File

module _ {Err Ch File : Type 0} (host : Host Err File) (core : Core Err Ch) where
  unfoldable pub happen : Happens Err File → Manager Err File → Run (Manager Err File)
  happen (call_arrives id peer) m = handle_incoming host core id peer m
  happen (media_ready p) m = on_ready host core p m
  happen (dials_out target ctx_err handler answer) m =
      initiate_outgoing host core target ctx_err handler answer m >>= λ r. done r.1
  happen (event_comes p event) m = realtime_event host p event m >>= λ r. done r.1
  happen (call_ends id) m = cleanup host id m
  happen (hangs id) m = hangup host id m >>= λ r. done r.1
  happen (timer_fires p t w) m = watch_step host p t w m >>= λ r. done r.1
  happen (subscribes_call id after) m = subscribe_call host id after m >>= λ r. done r.1
  happen stops m = stop host m

  unfoldable pub history : List (Happens Err File) → Manager Err File → Run (Manager Err File)
  history [] m = done m
  history (h ∷ hs) m = happen h m >>= λ m'. history hs m'

module _ {Err File : Type 0} where
  -- NewManager(host); the sessions that are not made yet are never read.
  unfoldable pub new_manager : Session Err File → Manager Err File
  new_manager unused = record {
    sessions = λ _. unused;
    next_session = 0;
    active = [];
    active_gauge = 0;
    effects = [];
  }

module _ {Err Ch File : Type 0} (host : Host Err File) (core : Core Err Ch) where
  pub new_manager-Inv :
      (unused : Session Err File) → IsSafe unused.event_hub → Inv (new_manager unused)
  unfolding new_manager lookup
  new_manager-Inv unused safe = record {
    live = λ id p a. absurd (none≢some a);
    safe = λ p. safe;
    gauge = refl;
  }
