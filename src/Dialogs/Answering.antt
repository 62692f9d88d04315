-- ===== src/Dialogs/Answering.antt =====
-- `startResponseListener` of internal/whatsapp/bot_channels.go: what the bot does with the answers of
-- the assistant.
use Prim.Native.String.{◌++◌ as ◌<>◌}
use air_whatsbot.Common.{
  ℕ, ◌+◌, String, Bool, Option, none, some, List, [], ◌∷◌, ◌++◌, string_eq, ◌==◌, if◌then◌else◌,
}
use air_whatsbot.Common.Decimal.{uint_text}
use air_whatsbot.Calls.Manager.State.{Jid}
use air_whatsbot.Responder.{Info}
use air_whatsbot.Dialogs.Listener.{
  Answer, Heard, operator_mode, assist_answer, channel_closed, run_response_listener,
}

-- Where the answers go: to WhatsApp, and the phone for the CRM
pub record Target : Type 0 where
  pub jid : Jid
  pub phone : String

pub data Done : Type 0 where
  sends_answer : Jid → Answer → Done  -- b.sendMessage(jid, msg)
  counts_send : Bool → Done  -- the metric, by its success
  tells_crm : String → Answer → Done  -- b.c.SendMessage(csg), with the phone
  counts_crm : Bool → Done
  sets_operator : ℕ → Done  -- b.parent.SetOperatorMode(dialogID, true)
  counts_closed : Done

abbrev pub phone_of : ℕ → Option Info → String
phone_of resp_id none = uint_text resp_id
phone_of resp_id (some info) = if info.real_phone == "" then uint_text resp_id else info.real_phone

module _ (parse_jid : String → Option Jid) where
  abbrev pub parsed_target : String → Option Jid → Option Target
  parsed_target phone none = none
  parsed_target phone (some jid) = some (record { jid = jid; phone = phone })

  -- The JID by the phone
  abbrev pub made_target : String → Option Target
  made_target phone = parsed_target phone (parse_jid (phone <> "@s.whatsapp.net"))

  -- The JID of the responder, or else by the phone; `none` where it does not parse
  unfoldable pub target_of : ℕ → Option Info → Option Target
  target_of resp_id none = made_target (phone_of resp_id none)
  target_of resp_id (some info) =
      if info.jid.user == ""
      then made_target (phone_of resp_id (some info))
      else some (record { jid = info.jid; phone = phone_of resp_id (some info) })

-- Whether WhatsApp and the CRM take the answer, by its place among what was heard
module _ (taken told : ℕ → Bool) where
  abbrev pub react : Target → ℕ → Heard → List Done
  react t n (operator_mode dialog) = sets_operator dialog ∷ []
  react t n (assist_answer a) =
      sends_answer t.jid a ∷ counts_send (taken n) ∷ tells_crm t.phone a ∷ counts_crm (told n) ∷ []
  react t n channel_closed = counts_closed ∷ []

  unfoldable pub respond : Target → ℕ → List Heard → List Done
  respond t n [] = []
  respond t n (h ∷ hs) = react t n h ++ respond t (n + 1) hs

  abbrev pub listen : ℕ → List Answer → Option Target → List Done
  listen dialog answers none = []
  listen dialog answers (some t) = respond t 0 (run_response_listener dialog answers)

  -- b.startResponseListener(respId, usrCh), with the record of the responder
  unfoldable pub start_response_listener :
      (String → Option Jid) → ℕ → Option Info → ℕ → List Answer → List Done
  start_response_listener parse_jid resp_id info dialog answers =
      listen dialog answers (target_of parse_jid resp_id info)
