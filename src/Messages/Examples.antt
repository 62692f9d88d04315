-- ===== src/Messages/Examples.antt =====
-- Tests of the reading of messages, and its theorems on concrete ones.
use air_whatsbot.Common.{◌*◌, ◌≡◌, refl, String, false, none, some, [], ◌∷◌, string_eq}
use air_whatsbot.Calls.Manager.State.{Jid}
use air_whatsbot.Common.Decimal.{parse_uint}
use air_whatsbot.Messages.{Event, Content, Media, message_text, message_type, sender_id}
use air_whatsbot.Messages.Rules.{second, should_ignore_message}
use air_whatsbot.Messages.Files.{extract_files_from_message}

abbrev ann : Jid
ann = record { user = "79001112233"; server = "s.whatsapp.net" }

abbrev clip : Media
clip = record { mimetype = "video/mp4"; file_name = ""; ptt = false }

abbrev video_content : Content
video_content = record {
  conversation = "";
  extended = none;
  audio = none;
  image = none;
  video = some clip;
  document = none;
}

abbrev video_event : Event
video_event = record {
  sender = ann;
  chat = ann;
  sender_text = "79001112233@s.whatsapp.net";
  chat_text = "79001112233@s.whatsapp.net";
  is_from_me = false;
  is_incoming_broadcast = false;
  category = "";
  id = "3A77";
  timestamp = 900 * second;
  message = some video_content;
}

passes : (should_ignore_message 0 (901 * second) (901 * second) (some video_event)).0.0 ≡ false
unfolding should_ignore_message
passes = refl

ignores_history :
    (should_ignore_message 0
      (901 * second)
      (901 * second)
      (some (record video_event { id = "3BAE5" }))).0.1
    ≡ "history_id"
unfolding should_ignore_message
ignores_history = refl

reads_video :
    (message_type (some video_event) ≡ "video")
    × (message_text (some video_event) ≡ "[Неподдерживаемый тип сообщения]")
    × (sender_id (some video_event) ≡ some 79001112233)
unfolding message_type message_text sender_id parse_uint
reads_video = (refl, refl, refl)

names_video :
    extract_files_from_message (some video_event) (some (λ m. some (1 ∷ [])))
    ≡ record { name = "video_3A77.mp4"; content = 1 ∷ []; mimetype = "video/mp4" } ∷ []
unfolding extract_files_from_message
names_video = refl

abbrev lid_text : String
lid_text = "79001112233@lid"
