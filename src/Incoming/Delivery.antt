-- ===== src/Incoming/Delivery.antt =====
-- `processMessage` of internal/whatsapp/bot_message.go.
use air_whatsbot.Common.{
  ℕ, String, Bool, Option, none, some, List, [], ◌∷◌, ◌++◌, ◌⊎◌, inl, inr, map, if◌then◌else◌,
}
use air_whatsbot.Messages.{Media, sender_id}
use air_whatsbot.Messages.Files.{FileUpload, extract_files_from_message}
use air_whatsbot.Responder.{Info, Items, load}
use air_whatsbot.Incoming.Effects.{
  Incoming, MessageContent, CrmMessage, UserMessage, Effect, makes_channels, reads, types,
  tells_crm, delivers, is_refused,
}

-- Errors, with the text of what they wrap
pub data HandleError : Type 0 where
  bad_sender : HandleError
  no_first_channels : String → HandleError
  voice_disabled : HandleError
  no_channels : String → HandleError
  no_channel : String → HandleError
  no_responder : HandleError
  no_new_channels : String → HandleError
  no_new_channel : String → HandleError
  not_delivered : String → HandleError

-- What the calls of `processMessage` answer, in its order. GetCh gives the ID of the dialogue.
pub record Answers : Type 0 where
  pub get_ch : String ⊎ ℕ
  pub make : Option String  -- initializeUserChannels, when the channel is not found
  pub get_ch_made : String ⊎ ℕ
  pub operator_before : ℕ → Bool  -- IsOperatorMode, before the typing
  pub operator_now : ℕ → Bool  -- IsOperatorMode, when the message is built
  pub download : Media → Option (List ℕ)
  pub send : Option String  -- SendToRx
  pub remake : Option String  -- initializeUserChannels, when the channel is closed
  pub get_ch_remade : String ⊎ ℕ
  pub resend : Option String

abbrev pub Outcome : Type 0
Outcome = List Effect × Option HandleError

abbrev pub after : List Effect → Outcome → Outcome
after es out = (es ++ out.0, out.1)

abbrev file_name : FileUpload → String
file_name file = file.name

abbrev pub crm_message : MessageContent → Incoming → Info → List FileUpload → CrmMessage
crm_message message msg info files = record {
  name = msg.push_name;
  text = message.text;
  phone = info.real_phone;
  new_dialog = message.first;
  voice = message.voice;
  files = map file_name files;
}

abbrev pub user_message : MessageContent → Incoming → Bool → List FileUpload → UserMessage
user_message message msg operator files = record {
  set_operator = operator;
  name = msg.push_name;
  text = message.text;
  files = map file_name files;
}

module _ (answers : Answers) where
  open answers use {
    get_ch, make, get_ch_made, operator_before, operator_now, download, send, remake, get_ch_remade,
    resend,
  }

  -- The second SendToRx
  abbrev pub retried : ℕ → UserMessage → Option String → Outcome
  retried id m none = (delivers id m ∷ [], none)
  retried id m (some e) = (is_refused id m ∷ [], some (not_delivered e))

  abbrev pub refetched : UserMessage → String ⊎ ℕ → Outcome
  refetched m (inl e) = ([], some (no_new_channel e))
  refetched m (inr id) = retried id m resend

  abbrev pub remade : UserMessage → Option String → Outcome
  remade m (some e) = ([], some (no_new_channels e))
  remade m none = refetched m get_ch_remade

  -- The first SendToRx
  abbrev pub sent : ℕ → ℕ → String → UserMessage → Option String → Outcome
  sent id sender name m none = (delivers id m ∷ [], none)
  sent id sender name m (some e) =
      after (is_refused id m ∷ makes_channels sender name ∷ []) (remade m remake)

  abbrev pub tell : ℕ → ℕ → MessageContent → Incoming → List FileUpload → Option Info → Outcome
  tell id sender message msg files none = ([], some no_responder)
  tell id sender message msg files (some info) =
      after (tells_crm (crm_message message msg info files) ∷ [])
        (sent id sender msg.push_name (user_message message msg (operator_now id) files) send)

  -- With a channel: typing, the files, the CRM, and the delivery
  abbrev pub with_channel : ℕ → ℕ → MessageContent → Incoming → Option Info → Outcome
  with_channel id sender message msg info =
      after (if operator_before id then [] else types sender ∷ []) (
        tell id sender message msg (extract_files_from_message (some msg.event) (some download))
          info)

  abbrev pub fetched_again : ℕ → MessageContent → Incoming → Option Info → String ⊎ ℕ → Outcome
  fetched_again sender message msg info (inl e) = ([], some (no_channel e))
  fetched_again sender message msg info (inr id) = with_channel id sender message msg info

  abbrev pub made_channels : ℕ → MessageContent → Incoming → Option Info → Option String → Outcome
  made_channels sender message msg info (some e) = ([], some (no_channels e))
  made_channels sender message msg info none = fetched_again sender message msg info get_ch_made

  abbrev pub fetched : ℕ → MessageContent → Incoming → Option Info → String ⊎ ℕ → Outcome
  fetched sender message msg info (inr id) = with_channel id sender message msg info
  fetched sender message msg info (inl e) =
      after (makes_channels sender msg.push_name ∷ []) (made_channels sender message msg info make)

  abbrev pub from_sender : MessageContent → Incoming → Items → Option ℕ → Outcome
  from_sender message msg items none = ([], some bad_sender)
  from_sender message msg items (some sender) =
      after (reads msg.event.id ∷ []) (fetched sender message msg (load sender items) get_ch)

  -- b.processMessage(message, msg)
  unfoldable pub process_message : MessageContent → Incoming → Items → Outcome
  process_message message msg items = from_sender message msg items (sender_id (some msg.event))
