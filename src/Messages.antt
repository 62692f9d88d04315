-- ===== src/Messages.antt =====
-- internal/whatsapp/messages: what the bot reads off an incoming message. The protobuf getters are
-- fields; what the libraries compute from a message is a field too: the text of a JID, whether it is an
-- incoming broadcast, and the printed `ContextInfo`.
pub mod Rules
pub mod Filter
pub mod Files
pub mod Reading
pub mod Examples
use air_whatsbot.Common.{
  ℕ, ◌+◌, ◌-◌, ◌*◌, String, Bool, true, false, Option, none, some, List, [], ◌∷◌, ◌++◌, ◌⊎◌, inl,
  inr, string_eq, ◌==◌, ◌&&◌, ◌||◌, not, if◌then◌else◌, ltb,
}
use text.Mathlib.Text.{find?}
use Prim.Native.String.{◌++◌ as ◌<>◌}
use air_whatsbot.Common.Decimal.{codes, parse_uint}
use air_whatsbot.Calls.Manager.State.{Jid}

pub record Extended : Type 0 where
  pub text : String
  pub context_info : Option String  -- fmt.Sprintf("%+v", ContextInfo); none is nil

pub record Media : Type 0 where
  pub mimetype : String
  pub file_name : String  -- of a document
  pub ptt : Bool  -- of an audio message: a voice message

-- msg.Message: the empty text for no conversation, `none` for a nil part
pub record Content : Type 0 where
  pub conversation : String
  pub extended : Option Extended
  pub audio : Option Media
  pub image : Option Media
  pub video : Option Media
  pub document : Option Media

-- events.Message
pub record Event : Type 0 where
  pub sender : Jid
  pub chat : Jid
  pub sender_text : String  -- Info.Sender.String()
  pub chat_text : String
  pub is_from_me : Bool
  pub is_incoming_broadcast : Bool
  pub category : String
  pub id : String
  pub timestamp : ℕ
  pub message : Option Content

abbrev pub phone_or : String → String → Jid → String
phone_or default_user_server fallback jid =
    if (jid.server == "lid") && not (jid.user == "")
    then jid.user
    else if (jid.server == default_user_server) && not (jid.user == "")
    then jid.user
    else if jid.user == ""
    then fallback
    else jid.user

abbrev pub phone_of : String → String → Option Jid → String
phone_of server fallback none = fallback
phone_of server fallback (some jid) = phone_or server fallback jid

-- ExtractRealPhone(jidString, fallback); `parse_jid` is types.ParseJID, `none` for an error,
-- and `server` is types.DefaultUserServer
unfoldable pub extract_real_phone : String → (String → Option Jid) → String → String → String
extract_real_phone server parse_jid jid_string fallback =
    if jid_string == "" then fallback else phone_of server fallback (parse_jid jid_string)

abbrev pub is_there {ℓ} : {A : Type ℓ} → Option A → Bool
is_there none = false
is_there (some a) = true

abbrev pub is_voice : Option Media → Bool
is_voice none = false
is_voice (some audio) = audio.ptt

abbrev pub content_type : Content → String
content_type c =
    if not (c.conversation == "")
    then "text"
    else if is_there c.extended
    then "extended_text"
    else if is_there c.audio
    then "audio"
    else if is_there c.image
    then "image"
    else if is_there c.video
    then "video"
    else if is_there c.document
    then "document"
    else "other"

abbrev pub content_of : Option Event → Option Content
content_of none = none
content_of (some e) = e.message

abbrev pub type_of : Option Content → String
type_of none = "unknown"
type_of (some c) = content_type c

-- MessageType(msg)
unfoldable pub message_type : Option Event → String
message_type msg = type_of (content_of msg)

abbrev pub extended_or : Option Extended → String → String
extended_or none rest = rest
extended_or (some ext) rest = ext.text

abbrev pub kind_text : Bool → Bool → Bool → String
kind_text voice document image =
    if voice
    then "[Голосовое сообщение]"
    else if document
    then "[Документ]"
    else if image
    then "[Изображение]"
    else "[Неподдерживаемый тип сообщения]"

abbrev pub content_text : Content → String
content_text c =
    if not (c.conversation == "")
    then c.conversation
    else extended_or c.extended
        (kind_text (is_voice c.audio) (is_there c.document) (is_there c.image))

abbrev pub text_of : Option Content → String
text_of none = ""
text_of (some c) = content_text c

-- MessageText(msg)
unfoldable pub message_text : Option Event → String
message_text msg = text_of (content_of msg)

-- SenderID(msg); `none` is an error
unfoldable pub sender_id : Option Event → Option ℕ
sender_id none = none
sender_id (some e) = parse_uint 64 (codes e.sender.user)
