-- ===== src/Sending/Message.antt =====
-- `sendMessage` of internal/whatsapp/bot_media.go and `getAndRemoveTypingCancel` of
-- internal/whatsapp/bot_typing.go.
use air_whatsbot.Common.{
  ℕ, ◌+◌, ◌*◌, ◌-◌, ◌^◌, String, Option, none, some, List, [], ◌∷◌, ◌++◌, map, nat_eq, string_eq,
  ◌==◌, ◌&&◌, leb, ltb, if◌then◌else◌,
}
use air_whatsbot.Common.Map.{Map, lookup, delete}
use air_whatsbot.Common.Decimal.{codes}
use air_whatsbot.Sending.Files.{Payload, text_message, File, FileAnswers, send_file}

-- strconv.ParseUint(s, 10, 64) with its error left out: 0 for what is no number, and the largest
-- number when the digits so far are too many
unfoldable pub parse_saturated : ℕ → List ℕ → ℕ
parse_saturated n [] = n
parse_saturated n (c ∷ cs) =
    let m = n * 10 + (c - 48) in
    let rest = parse_saturated m cs in
    if leb 48 c && leb c 57 then if ltb m (2 ^ 64) then rest else 2 ^ 64 - 1 else 0

abbrev pub sender_of : String → ℕ
sender_of user = parse_saturated 0 (codes user)

-- model.Message, as far as it is sent, with what the calls for each file answer
pub record Outgoing (Err Up : Type 0) : Type 0 where
  pub text : String
  pub files : List (File × FileAnswers Err Up)
  pub send_text : Option Err

pub data Effect (Up : Type 0) : Type 0 where
  sends : Payload Up → Effect Up
  cancels_typing : ℕ → Effect Up
  pauses : Effect Up  -- SendChatPresence(ChatPresencePaused)

abbrev pub cancelled : {Up : Type 0} → Option ℕ → List (Effect Up)
cancelled none = []
cancelled (some context) = cancels_typing context ∷ []

module _ {Err Up : Type 0} where
  -- The loop over the files; the error of a file is only logged
  unfoldable pub send_files : List (File × FileAnswers Err Up) → List (Payload Up)
  send_files [] = []
  send_files ((f, answers) ∷ files) = (send_file answers f).0 ++ send_files files

  abbrev pub after_text : Outgoing Err Up → Option Err → List (Payload Up) × Option Err
  after_text m (some e) = (text_message m.text ∷ [], some e)
  after_text m none = (text_message m.text ∷ send_files m.files, none)

  -- What is sent, and the error, before the deferred function
  abbrev pub sent : Outgoing Err Up → List (Payload Up) × Option Err
  sent m = if m.text == "" then (send_files m.files, none) else after_text m m.send_text

  -- b.sendMessage(jid, message), for the user of the JID; the map has the typing contexts of the
  -- senders
  unfoldable pub send_message :
      String → Outgoing Err Up → Map ℕ ℕ → (List (Effect Up) × Option Err) × Map ℕ ℕ
  send_message user m typing =
      let sender = sender_of user in
      (
        (map sends (sent m).0 ++ cancelled (lookup sender typing) ++ pauses ∷ [], (sent m).1),
        delete sender typing,
      )
