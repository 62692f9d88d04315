-- ===== src/Incoming/Receive.antt =====
-- `handleMessage` and `processVoiceMessage` of internal/whatsapp/bot_message.go. `*Info` is shared
-- through the map: what is written through the pointer is written to the map's entry.
use air_whatsbot.Common.{
  ℕ, String, Bool, true, false, Option, none, some, List, [], ◌∷◌, string_eq, nat_eq, ◌==◌, not,
  if◌then◌else◌,
}
use air_whatsbot.Common.Int.{ℤ}
use air_whatsbot.Common.Decimal.{codes, parse_uint, uint_text}
use air_whatsbot.Calls.Manager.State.{Jid}
use air_whatsbot.Bots.Allowed.{listed}
use air_whatsbot.Messages.{Content, Media, message_text, extract_real_phone}
use air_whatsbot.Messages.Rules.{contains, should_ignore_message}
use air_whatsbot.Responder.{Info, Items, int64, store, load_or_store, restore_responder_fields}
use air_whatsbot.Incoming.Effects.{Incoming, first_contact, makes_channels}
use air_whatsbot.Incoming.Delivery.{
  Answers, Outcome, bad_sender, no_first_channels, voice_disabled, after, process_message,
}

-- The bot, and what the calls of `handleMessage` answer
pub record Setup : Type 0 where
  pub uids : List ℤ
  pub connected_at : ℕ
  pub now : ℕ
  pub later : ℕ
  pub user_server : String  -- types.DefaultUserServer
  pub parse_jid : String → Option Jid
  pub first_make : Option String  -- initializeUserChannels at the first contact
  pub audio_mode : Bool  -- mode.IsAudioModeEnabled()
  pub download : Media → Option (List ℕ)
  pub transcribe : List ℕ → Option String
  pub answers : Answers

-- Is the sender in the list, or the list empty?
abbrev pub is_allowed : List ℤ → ℕ → Bool
is_allowed [] sender = true
is_allowed (u ∷ uids) sender = listed (int64 sender) (u ∷ uids)

abbrev pub empty_data : String
empty_data = "получены пустые данные"

abbrev pub audio_of : Option Content → Option Media
audio_of none = none
audio_of (some c) = c.audio

abbrev pub new_info : Incoming → String → Info
new_info msg phone = record { jid = msg.event.sender; real_phone = phone; known = false }

abbrev pub or_else : String → String → String
or_else phone next = if phone == "" then next else phone

-- An error that is not about empty data
abbrev pub is_serious : Option String → Option String
is_serious none = none
is_serious (some e) = if contains e empty_data then none else some e

abbrev pub make_known : Info → Info
make_known info = record info { known = true }

abbrev pub parsed_sender : Incoming → Option ℕ
parsed_sender msg = parse_uint 64 (codes msg.event.sender.user)

module _ (setup : Setup) where
  open setup use {
    uids, connected_at, now, later, user_server, parse_jid, first_make, audio_mode, download,
    transcribe, answers,
  }

  -- The phone by the alternative sender, by the sender, or the ID
  abbrev pub alt_phone : Incoming → String
  alt_phone msg =
      if not (msg.alt_user == "")
      then extract_real_phone user_server parse_jid msg.alt_text ""
      else ""

  abbrev pub sender_phone : ℕ → Incoming → String
  sender_phone sender msg =
      extract_real_phone user_server parse_jid msg.event.sender_text (uint_text sender)

  unfoldable pub real_phone : ℕ → Incoming → String
  real_phone sender msg =
      or_else (or_else (alt_phone msg) (sender_phone sender msg)) (uint_text sender)

  -- The record of the sender, completed, and the map with it
  unfoldable pub register : ℕ → Incoming → Items → Info × Items
  register sender msg items =
      let phone = real_phone sender msg in
      let loaded = load_or_store sender (new_info msg phone) items in
      let restored =
        restore_responder_fields loaded.0.0 msg.event.sender phone (uint_text sender) in
      (restored.1, store sender restored.1 loaded.1)

  abbrev pub voice_text : Bool → Incoming → Items → Option String → Outcome
  voice_text first msg items none = ([], none)
  voice_text first msg items (some text) =
      process_message answers (record { text = text; voice = true; first = first }) msg items

  abbrev pub voice_bytes : Bool → Incoming → Items → Option (List ℕ) → Outcome
  voice_bytes first msg items none = ([], none)
  voice_bytes first msg items (some bytes) = voice_text first msg items (transcribe bytes)

  abbrev pub voice_audio : Bool → Incoming → Items → Option Media → Outcome
  voice_audio first msg items none = ([], none)
  voice_audio first msg items (some audio) = voice_bytes first msg items (download audio)

  -- b.processVoiceMessage(first, msg)
  unfoldable pub process_voice_message : Bool → Incoming → Items → Outcome
  process_voice_message first msg items = voice_audio first msg items (audio_of msg.event.message)

  abbrev pub voice_when : Bool → Bool → Incoming → Items → Outcome
  voice_when false first msg items = ([], some voice_disabled)
  voice_when true first msg items = process_voice_message first msg items

  -- The switch on the content
  unfoldable pub dispatch : Bool → String → Incoming → Items → Outcome
  dispatch first content msg items =
      if content == "[Голосовое сообщение]"
      then voice_when audio_mode first msg items
      else process_message answers (record { text = content; voice = false; first = first }) msg
          items

  -- After the channels of the first contact are made
  abbrev pub introduced : ℕ → Info → String → Incoming → Items → Option String → Items × Outcome
  introduced sender info content msg items (some e) = (items, ([], some (no_first_channels e)))
  introduced sender info content msg items none =
      let items' = store sender (make_known info) items in
      (items', dispatch true content msg items')

  abbrev pub greet : ℕ → Info → String → Incoming → Items → Items × Outcome
  greet sender info content msg items =
      let done = introduced sender info content msg items (is_serious first_make) in
      (
        done.0,
        after (first_contact sender msg.push_name ∷ makes_channels sender msg.push_name ∷ [])
            done.1,
      )

  abbrev pub with_info : ℕ → String → Incoming → Info × Items → Items × Outcome
  with_info sender content msg (info, items) =
      if info.known
      then (items, dispatch false content msg items)
      else greet sender info content msg items

  abbrev pub with_content : ℕ → String → Incoming → Items → Items × Outcome
  with_content sender content msg items =
      if content == "[Неподдерживаемый тип сообщения]"
      then (items, ([], none))
      else with_info sender content msg (register sender msg items)

  abbrev pub with_sender : Incoming → Items → Option ℕ → Items × Outcome
  with_sender msg items none = (items, ([], some bad_sender))
  with_sender msg items (some sender) =
      if is_allowed uids sender
      then with_content sender (message_text (some msg.event)) msg items
      else (items, ([], none))

  abbrev pub is_ignored : Incoming → Bool
  is_ignored msg = (should_ignore_message connected_at now later (some msg.event)).0.0

  -- b.handleMessage(msg), after the synchronisation of the offline messages: the map of responders,
  -- the effects and the error
  unfoldable pub handle_message : Incoming → Items → Items × Outcome
  handle_message msg items =
      if is_ignored msg then (items, ([], none)) else with_sender msg items (parsed_sender msg)
