-- ===== src/Facade/Operator.antt =====
-- `SetOperatorMode`, `IsOperatorMode` and `DisableOperatorMode` of internal/whatsapp/whatsapp.go.
use air_whatsbot.Common.{
  ℕ, Bool, true, false, Option, none, some, List, [], ◌∷◌, ◌++◌, ◌⊎◌, inl, inr, nat_eq, length,
  if◌then◌else◌,
}
use air_whatsbot.Common.Map.{Map, lookup, insert, delete, keys}
use air_whatsbot.Bots.Lifecycle.{Users}

-- u.operatorModeByDialog
abbrev pub Modes : Type 0
Modes = Map ℕ Bool

abbrev pub is_stored : Option Bool → Bool
is_stored none = false
is_stored (some b) = true

-- u.IsOperatorMode(dialogId)
unfoldable pub is_operator_mode : ℕ → Modes → Bool
is_operator_mode dialog modes = is_stored (lookup dialog modes)

-- u.SetOperatorMode(dialogId, operator)
unfoldable pub set_operator_mode : ℕ → Bool → Modes → Modes
set_operator_mode dialog true modes = insert dialog true modes
set_operator_mode dialog false modes = delete dialog modes

pub data DisableError (Err : Type 0) : Type 0 where
  no_responder : Err → DisableError Err
  no_bot : DisableError Err
  no_client : DisableError Err
  bad_jid : Err → DisableError Err
  not_sent : Err → DisableError Err

-- What the calls of `DisableOperatorMode` answer
pub record Answers (Err : Type 0) : Type 0 where
  pub resp_id : ℕ → Err ⊎ ℕ  -- GetRespIdByDialogID
  pub has_client : ℕ → Bool  -- the bot and its client are not nil
  pub parse_jid : ℕ → Option Err  -- ParseJID of the responder's number
  pub send : Option Err  -- SendMessage
  pub has_operator : Bool  -- u.op is not nil
  pub close_sse : Option Err  -- only logged

pub data Effect : Type 0 where
  tracks : ℕ → ℕ → Effect  -- TrackOperatorModeDialogs(userId, count)
  notifies : ℕ → Effect  -- the message to the responder
  closes_sse : ℕ → ℕ → Effect  -- CloseOperatorSSE(userId, dialogId)

abbrev pub Outcome : Type 0 → Type 0
Outcome Err = List Effect × Option (DisableError Err)

abbrev pub after {ℓ κ} : {A : Type ℓ} {B : Type κ} → List A → List A × B → List A × B
after es out = (es ++ out.0, out.1)

-- The parameter `silent ...bool`
abbrev pub is_silent : List Bool → Bool
is_silent [] = false
is_silent (b ∷ rest) = b

module _ {Err : Type 0} (answers : Answers Err) where
  open answers use {resp_id, has_client, parse_jid, send, has_operator, close_sse}

  abbrev pub closing : ℕ → ℕ → Outcome Err
  closing user dialog = (if has_operator then closes_sse user dialog ∷ [] else [], none)

  abbrev pub told : ℕ → ℕ → ℕ → Option Err → Outcome Err
  told user dialog resp (some e) = (notifies resp ∷ [], some (not_sent e))
  told user dialog resp none = after (notifies resp ∷ []) (closing user dialog)

  abbrev pub with_jid : ℕ → ℕ → ℕ → Bool → Option Err → Outcome Err
  with_jid user dialog resp silent (some e) = ([], some (bad_jid e))
  with_jid user dialog resp silent none =
      if silent then closing user dialog else told user dialog resp send

  abbrev pub with_bot : ℕ → ℕ → ℕ → Bool → Option ℕ → Outcome Err
  with_bot user dialog resp silent none = ([], some no_bot)
  with_bot user dialog resp silent (some p) =
      if has_client p
      then with_jid user dialog resp silent (parse_jid resp)
      else ([], some no_client)

  abbrev pub with_resp : ℕ → ℕ → Bool → Option ℕ → Err ⊎ ℕ → Outcome Err
  with_resp user dialog silent bot (inl e) = ([], some (no_responder e))
  with_resp user dialog silent bot (inr resp) = with_bot user dialog resp silent bot

  -- u.DisableOperatorMode(userId, dialogId, silent...): the modes, what it does, and its error
  unfoldable pub disable_operator_mode : ℕ → ℕ → List Bool → Users → Modes → Modes × Outcome Err
  disable_operator_mode user dialog silent users modes =
      let modes' = set_operator_mode dialog false modes in
      (
        modes',
        after (tracks user (length (keys modes')) ∷ [])
            (with_resp user dialog (is_silent silent) (lookup user users.u_bot) (resp_id dialog)),
      )
