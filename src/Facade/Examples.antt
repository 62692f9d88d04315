-- ===== src/Facade/Examples.antt =====
-- Tests of the object of all users, and its theorems on concrete ones.
use air_whatsbot.Common.{ℕ, ◌≡◌, refl, String, true, false, none, some, List, [], ◌∷◌, inr, nat_eq}
use air_whatsbot.Bots.Examples.{one_bot}
use air_whatsbot.Facade.Operator.{Modes, Answers, disable_operator_mode}
use air_whatsbot.Facade.Modes.{
  Command, set, disable, view, switched, run_commands, all_specified, modes_refine, IsFull,
  disable_operator_mode_lem,
}
use air_whatsbot.Facade.Shutdown.{Shutdown, Reach, here, next, stops, closes, begins, stop_bot}
use air_whatsbot.Facade.Stopped.{Among, is_stopped, shutdown_lem, returns_unsaved}

-- The dialogue's responder is found, and the message to it cannot be sent.
abbrev answers : Answers String
answers = record {
  resp_id = λ dialog. inr 79;
  has_client = λ p. true;
  parse_jid = λ resp. none;
  send = some "offline";
  has_operator = true;
  close_sse = none;
}

abbrev commands : List (Command String)
commands = set 5 true ∷ set 6 true ∷ disable answers 7 5 [] one_bot ∷ []

abbrev no_modes : Modes
no_modes = []

modes_refine_example :
    view (run_commands commands no_modes) ≡ all_specified commands (view no_modes)
modes_refine_example = modes_refine commands no_modes

disable_operator_mode_lem_example :
    (view (disable_operator_mode answers 7 5 [] one_bot no_modes).0
      ≡ switched 5 false (view no_modes))
    × IsFull answers 7 5 false (disable_operator_mode answers 7 5 [] one_bot no_modes).1
disable_operator_mode_lem_example = disable_operator_mode_lem answers 7 5 [] one_bot no_modes

abbrev bots : List ℕ
bots = 0 ∷ []

abbrev all_done : Shutdown
all_done = record {
  waiting = [];
  users = stop_bot 0 one_bot;
  done_closed = true;
  saved = false;
  returned = false;
}

stops_one : Reach (begins bots one_bot) all_done
stops_one =
    next (next here (stops (begins bots one_bot) [] [] 0 refl))
      (closes (record all_done { done_closed = false }) refl refl)

shutdown_lem_example :
    (true ≡ true → (p : ℕ) → Among p bots → is_stopped (stop_bot 0 one_bot) p ≡ true)
    × (false ≡ true → true ≡ true)
shutdown_lem_example = shutdown_lem bots one_bot stops_one

returns_unsaved_example :
    (s : Shutdown) × Reach (begins bots one_bot) s
    × (s.returned ≡ true)
    × (s.done_closed ≡ true)
    × (s.saved ≡ false)
    × ((p : ℕ) → Among p bots → is_stopped s.users p ≡ true)
returns_unsaved_example = returns_unsaved bots one_bot
