-- ===== src/Incoming/Events.antt =====
-- `handleEvent`, `isDecryptionError` and `triggerReauth` of internal/whatsapp/bot_event.go. The
-- metrics and the log are left out.
use air_whatsbot.Common.{
  ℕ, String, Bool, true, false, Option, none, some, List, [], ◌∷◌, string_eq, ◌==◌, ◌&&◌, ◌||◌, not,
  if◌then◌else◌,
}
use air_whatsbot.Messages.{Event, Content, is_there, message_text}
use air_whatsbot.Responder.{Items}
use air_whatsbot.Incoming.Effects.{Incoming, Effect, reauthorises}
use air_whatsbot.Incoming.Receive.{Setup, handle_message}

-- The events that the switch tells apart; the time of a connection is that of the clock.
pub data BotEvent : Type 0 where
  message : Incoming → BotEvent
  connected : ℕ → BotEvent
  disconnected : BotEvent
  logged_out : BotEvent
  offline_sync_completed : BotEvent
  unknown : BotEvent

-- What the handler changes of a bot: `offline_synced` is that the channel offlineMsgSync is closed.
pub record Session : Type 0 where
  pub text_message : Bool
  pub connected_at : ℕ
  pub offline_synced : Bool
  pub responders : Items

-- Is there a conversation or an extended text?
abbrev pub is_text : Option Content → Bool
is_text none = false
is_text (some c) = not (c.conversation == "") || is_there c.extended

-- b.isDecryptionError(msg)
unfoldable pub is_decryption_error : Event → Bool
is_decryption_error e =
    not (is_there e.message) || (e.category == "error" || e.category == "decrypt")

abbrev pub mac_text : String
mac_text = "[Ошибка: mismatching MAC]"

module _ (setup : Setup) (is_logged_in : Bool) where
  abbrev pub handled : Session → Incoming → List Effect × Session
  handled session msg =
      let done =
        handle_message (record setup { connected_at = session.connected_at }) msg
          session.responders in
      (done.1.0, record session { responders = done.0 })

  unfoldable pub handle_received : Session → Incoming → List Effect × Session
  handle_received session msg =
      if not session.text_message && is_text msg.event.message
      then ([], session)
      else if is_decryption_error msg.event
      then ([], session)
      else if message_text (some msg.event) == mac_text
      then (reauthorises "mismatching_mac" ∷ [], session)
      else handled session msg

  -- b.handleEvent(evt)
  unfoldable pub handle_event : Session → BotEvent → List Effect × Session
  handle_event session (message msg) = handle_received session msg
  handle_event session (connected time) = ([], record session { connected_at = time })
  handle_event session disconnected =
      (if is_logged_in then [] else reauthorises "disconnected_not_logged_in" ∷ [], session)
  handle_event session logged_out = (reauthorises "logged_out" ∷ [], session)
  handle_event session offline_sync_completed = ([], record session { offline_synced = true })
  handle_event session unknown = ([], session)
