-- ===== src/Facade/Modes.antt =====
-- The operator mode as the set of the dialogues in which an operator answers.
use air_whatsbot.Common.{
  ℕ, ◌≡◌, refl, ap, ◌∙◌, fun_ext, Bool, true, false, Option, none, some, List, [], ◌∷◌, ◌⊎◌, inl,
  inr, nat_eq, ◌==◌, Bool-cases, if◌then◌else◌,
}
use air_whatsbot.Common.Map.{lookup, lookup-insert, lookup-delete}
use air_whatsbot.Messages.{is_there}
use air_whatsbot.Bots.Lifecycle.{Users}
use air_whatsbot.Facade.Operator.{
  Modes, is_operator_mode, set_operator_mode, Answers, Effect, tracks, notifies, closes_sse,
  Outcome, is_silent, told, with_jid, with_bot, with_resp, no_client, disable_operator_mode,
}

-- The specification: a set of dialogues.
abbrev pub Dialogs : Type 0
Dialogs = ℕ → Bool

abbrev pub switched : ℕ → Bool → Dialogs → Dialogs
switched dialog on dialogs d = if dialog == d then on else dialogs d

-- What the map of the program stands for.
abbrev pub view : Modes → Dialogs
view modes d = is_operator_mode d modes

set-view :
    (dialog : ℕ) (on : Bool) (modes : Modes) (d : ℕ)
    → view (set_operator_mode dialog on modes) d ≡ switched dialog on (view modes) d
unfolding is_operator_mode set_operator_mode
set-view dialog true modes d = elim (Bool-cases (dialog == d)) [
  | inl y ↦ rw (lookup-insert dialog d true modes) (rw y refl)
  | inr n ↦ rw (lookup-insert dialog d true modes) (rw n refl)
]
set-view dialog false modes d = elim (Bool-cases (dialog == d)) [
  | inl y ↦ rw (lookup-delete dialog d modes) (rw y refl)
  | inr n ↦ rw (lookup-delete dialog d modes) (rw n refl)
]

-- One command of the program: a switch, or the end of an operator's work with what its calls answer.
pub data Command (Err : Type 0) : Type 0 where
  set : ℕ → Bool → Command Err
  disable : Answers Err → ℕ → ℕ → List Bool → Users → Command Err

module _ {Err : Type 0} where
  abbrev pub run_command : Command Err → Modes → Modes
  run_command (set dialog on) modes = set_operator_mode dialog on modes
  run_command (disable answers user dialog silent users) modes =
      (disable_operator_mode answers user dialog silent users modes).0

  abbrev pub specified : Command Err → Dialogs → Dialogs
  specified (set dialog on) dialogs = switched dialog on dialogs
  specified (disable answers user dialog silent users) dialogs = switched dialog false dialogs

  unfoldable pub run_commands : List (Command Err) → Modes → Modes
  run_commands [] modes = modes
  run_commands (c ∷ cs) modes = run_commands cs (run_command c modes)

  unfoldable pub all_specified : List (Command Err) → Dialogs → Dialogs
  all_specified [] dialogs = dialogs
  all_specified (c ∷ cs) dialogs = all_specified cs (specified c dialogs)

  command-view :
      (c : Command Err) (modes : Modes) → view (run_command c modes) ≡ specified c (view modes)
  unfolding disable_operator_mode
  command-view (set dialog on) modes = fun_ext (set-view dialog on modes)
  command-view (disable answers user dialog silent users) modes =
      fun_ext (set-view dialog false modes)

  -- The map of the operator modes implements the set of the dialogues in which an operator answers:
  -- after any commands, IsOperatorMode answers for every dialogue what the set does after the same
  -- commands, where DisableOperatorMode takes its dialogue out of the set whatever its calls answer,
  -- its errors included.
  pub modes_refine :
      (commands : List (Command Err)) (modes : Modes)
      → view (run_commands commands modes) ≡ all_specified commands (view modes)
  unfolding run_commands all_specified
  modes_refine [] modes = refl
  modes_refine (c ∷ cs) modes =
      modes_refine cs (run_command c modes) ∙ ap (all_specified cs) (command-view c modes)

-- Whether the connection of the operator is closed, and whether the responder is told.
abbrev pub closes : List Effect → Bool
closes [] = false
closes (closes_sse u d ∷ es) = true
closes (tracks u n ∷ es) = closes es
closes (notifies r ∷ es) = closes es

abbrev pub tells : List Effect → Bool
tells [] = false
tells (notifies r ∷ es) = true
tells (tracks u n ∷ es) = tells es
tells (closes_sse u d ∷ es) = tells es

module _ {Err : Type 0} (answers : Answers Err) (user dialog : ℕ) where
  -- The operator's connection is closed exactly if there is no error, and a silent end tells nobody.
  abbrev pub IsFull : Bool → Outcome Err → Type 0
  IsFull silent out =
      (closes out.0 ≡ (if is_there out.1 then false else answers.has_operator))
      × (silent ≡ true → tells out.0 ≡ false)
      × (silent ≡ false → is_there out.1 ≡ false → tells out.0 ≡ true)

  closing-closes : (b : Bool) → closes (if b then closes_sse user dialog ∷ [] else []) ≡ b
  closing-closes true = refl
  closing-closes false = refl

  closing-tells : (b : Bool) → tells (if b then closes_sse user dialog ∷ [] else []) ≡ false
  closing-tells true = refl
  closing-tells false = refl

  told-IsFull : (resp : ℕ) (o : Option Err) → IsFull false (told answers user dialog resp o)
  told-IsFull resp (some e) = (refl, λ h. cc, λ h n. cc)
  told-IsFull resp none = (closing-closes answers.has_operator, λ h. cc, λ h n. refl)

  silent-IsFull :
      (resp : ℕ) (silent : Bool) → IsFull silent (with_jid answers user dialog resp silent none)
  silent-IsFull resp true =
      (closing-closes answers.has_operator, λ h. closing-tells answers.has_operator, λ h n. cc)
  silent-IsFull resp false = told-IsFull resp answers.send

  jid-IsFull :
      (resp : ℕ) (silent : Bool) (o : Option Err)
      → IsFull silent (with_jid answers user dialog resp silent o)
  jid-IsFull resp silent (some e) = (refl, λ h. refl, λ h n. cc)
  jid-IsFull resp silent none = silent-IsFull resp silent

  client-IsFull :
      (resp : ℕ) (silent has : Bool)
      → IsFull silent (
          if has
          then with_jid answers user dialog resp silent (answers.parse_jid resp)
          else ([], some no_client))
  client-IsFull resp silent true = jid-IsFull resp silent (answers.parse_jid resp)
  client-IsFull resp silent false = (refl, λ h. refl, λ h n. cc)

  bot-IsFull :
      (resp : ℕ) (silent : Bool) (o : Option ℕ)
      → IsFull silent (with_bot answers user dialog resp silent o)
  bot-IsFull resp silent none = (refl, λ h. refl, λ h n. cc)
  bot-IsFull resp silent (some p) = client-IsFull resp silent (answers.has_client p)

  resp-IsFull :
      (silent : Bool) (bot : Option ℕ) (o : Err ⊎ ℕ)
      → IsFull silent (with_resp answers user dialog silent bot o)
  resp-IsFull silent bot (inl e) = (refl, λ h. refl, λ h n. cc)
  resp-IsFull silent bot (inr resp) = bot-IsFull resp silent bot

  -- DisableOperatorMode takes the dialogue out of the operator mode on every path, and leaves the other
  -- dialogues as they are. Where there is an operator service, it closes the connection of the operator
  -- exactly if it returns no error. Where it is silent it sends the responder nothing; where it is not
  -- and returns no error, it does.
  pub disable_operator_mode_lem :
      (silent : List Bool) (users : Users) (modes : Modes)
      → (view (disable_operator_mode answers user dialog silent users modes).0
          ≡ switched dialog false (view modes))
        × IsFull (is_silent silent) (disable_operator_mode answers user dialog silent users modes).1
  unfolding disable_operator_mode
  disable_operator_mode_lem silent users modes = (
    fun_ext (set-view dialog false modes),
    resp-IsFull (is_silent silent) (lookup user users.u_bot) (answers.resp_id dialog),
  )
