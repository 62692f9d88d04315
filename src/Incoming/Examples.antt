-- ===== src/Incoming/Examples.antt =====
-- Tests of the handling of messages, and its theorems on a concrete one.
use air_whatsbot.Common.{
  ◌*◌, ◌≤◌, ◌≡◌, refl, String, true, false, Bool, none, some, List, [], ◌∷◌, inr, string_eq, nat_eq,
  ◌==◌, if◌then◌else◌,
}
use air_whatsbot.Common.Map.{lookup, insert, delete}
use air_whatsbot.Common.Decimal.{parse_uint, digits_value, uint_text, format_uint, format_rounds}
use air_whatsbot.Calls.Manager.State.{Jid}
use air_whatsbot.Messages.{Event, Content, is_there, message_text, sender_id, extract_real_phone}
use air_whatsbot.Messages.Rules.{second, should_ignore_message}
use air_whatsbot.Messages.Files.{extract_files_from_message}
use air_whatsbot.Responder.{
  Items, int64, load, store, load_or_store, restore_responder_fields, Exists, exists_mark,
  start_notification, set_known, known_in_memory, send_first_contact_message,
}
use air_whatsbot.Responder.FirstContact.{IsKnown}
use air_whatsbot.Incoming.Effects.{Incoming, MessageContent, delivered}
use air_whatsbot.Incoming.Delivery.{Answers, process_message}
use air_whatsbot.Incoming.Found.{is_missing}
use air_whatsbot.Incoming.Receive.{
  Setup, is_ignored, parsed_sender, register, real_phone, dispatch, handle_message,
}
use air_whatsbot.Incoming.Received.{handle_message_lem}
use air_whatsbot.Incoming.Texts.{handle_message-delivers}
use air_whatsbot.Incoming.Opened.{rank, opened, opened_lem}
use air_whatsbot.Incoming.Announced.{first_contact_race}
use air_whatsbot.Incoming.Events.{Session, message, mac_text}

abbrev ann : Jid
ann = record { user = "79"; server = "s.whatsapp.net" }

abbrev content_of_text : String → Content
content_of_text text = record {
  conversation = text;
  extended = none;
  audio = none;
  image = none;
  video = none;
  document = none;
}

abbrev event_of : String → Event
event_of text = record {
  sender = ann;
  chat = ann;
  sender_text = "79@s.whatsapp.net";
  chat_text = "79@s.whatsapp.net";
  is_from_me = false;
  is_incoming_broadcast = false;
  category = "";
  id = "3A77";
  timestamp = 900 * second;
  message = some (content_of_text text);
}

abbrev incoming : String → Incoming
incoming text = record { event = event_of text; alt_user = ""; alt_text = ""; push_name = "Ann" }

-- The first channel is closed, and the channel that is made then takes the message.
abbrev answers : Answers
answers = record {
  get_ch = inr 5;
  make = none;
  get_ch_made = inr 5;
  operator_before = λ id. false;
  operator_now = λ id. false;
  download = λ media. none;
  send = some "closed";
  remake = none;
  get_ch_remade = inr 6;
  resend = none;
}

abbrev setup : Setup
setup = record {
  uids = [];
  connected_at = 0;
  now = 901 * second;
  later = 901 * second;
  user_server = "s.whatsapp.net";
  parse_jid = λ text. some ann;
  first_make = none;
  audio_mode = true;
  download = λ media. none;
  transcribe = λ bytes. none;
  answers = answers;
}

abbrev hello : Incoming
hello = incoming "hello"

abbrev content : MessageContent
content = record { text = "hello"; voice = false; first = true }

abbrev nobody : Items
nobody = []

handle_message_lem_example :
    (delivered (handle_message setup hello nobody).1.0 ≤ 1)
    × (is_there (handle_message setup hello nobody).1.1 ≡ true
        → delivered (handle_message setup hello nobody).1.0 ≡ 0)
    × (is_missing (handle_message setup hello nobody).1.1 ≡ false)
handle_message_lem_example = handle_message_lem setup hello nobody

passes : is_ignored setup hello ≡ false
unfolding should_ignore_message
passes = refl

parses : parsed_sender hello ≡ some 79
unfolding parse_uint digits_value
parses = refl

readable : (message_text (some (event_of "hello")) == "[Неподдерживаемый тип сообщения]") ≡ false
unfolding message_text
readable = refl

written : (message_text (some (event_of "hello")) == "[Голосовое сообщение]") ≡ false
unfolding message_text
written = refl

handle_message-delivers_example :
    delivered (handle_message setup hello nobody).1.0
    ≡ (if is_there (handle_message setup hello nobody).1.1 then 0 else 1)
handle_message-delivers_example =
    handle_message-delivers setup 79 hello nobody passes parses refl readable written

-- The message reaches the assistant through the channel that is made again.
delivers_hello : delivered (handle_message setup hello nobody).1.0 ≡ 1
unfolding delivered handle_message should_ignore_message parse_uint digits_value message_text
    register real_phone extract_real_phone uint_text format_uint format_rounds load_or_store
    restore_responder_fields store load lookup insert delete dispatch process_message sender_id
    extract_files_from_message
delivers_hello = refl

abbrev twice : List (Setup × Incoming)
twice = (setup, hello) ∷ (setup, incoming "again") ∷ []

opened_lem_example :
    ((opened 79 twice nobody).0 ≤ 1)
    × (IsKnown 79 nobody → (opened 79 twice nobody).0 ≡ 0)
    × ((opened 79 twice nobody).0 ≡ 1 → rank 79 (opened 79 twice nobody).1 ≡ 1)
opened_lem_example = opened_lem 79 twice nobody

unknown_79 : known_in_memory (lookup 79 nobody) ≡ false
unfolding lookup
unknown_79 = refl

first_contact_race_example :
    ((events_start : Bool) (exists : Exists)
      → (send_first_contact_message events_start 79 "Ann" exists
          (handle_message setup hello nobody).0).0
        ≡ set_known (int64 79) ∷ [])
    × ((send_first_contact_message true 79 "Ann"
          (exists_mark false)
          (register setup 79 hello nobody).1).0
        ≡ start_notification 79 "Ann" ∷ set_known (int64 79) ∷ [])
first_contact_race_example =
    first_contact_race setup 79 hello nobody refl passes parses refl readable unknown_79

abbrev session : Session
session = record {
  text_message = true;
  connected_at = 0;
  offline_synced = true;
  responders = nobody;
}

abbrev attack : Incoming
attack = incoming mac_text
