-- ===== src/Incoming/Openings.antt =====
-- A dialogue is reported to the CRM as new at most once for a sender.
use air_whatsbot.Common.{
  ℕ, ◌+◌, ◌≤◌, String, Bool, true, false, Option, none, some, List, [], ◌∷◌, ◌⊎◌, inl, inr, arith,
  Bool-cases, if◌then◌else◌, string_eq, ◌==◌,
}
use air_whatsbot.Messages.Files.{FileUpload, extract_files_from_message}
use air_whatsbot.Messages.{Media, sender_id}
use air_whatsbot.Responder.{Info, Items, load}
use air_whatsbot.Incoming.Effects.{
  Incoming, MessageContent, Effect, first_contact, makes_channels, reads, types, tells_crm,
  delivers, is_refused, reauthorises, told,
}
use air_whatsbot.Incoming.Delivery.{
  Answers, Outcome, user_message, sent, tell, after, with_channel, fetched_again, made_channels,
  fetched, from_sender, process_message,
}
use air_whatsbot.Incoming.Delivered.{sent-IsOnce}
use air_whatsbot.Incoming.Receive.{
  Setup, audio_of, voice_text, voice_bytes, voice_audio, voice_when, process_voice_message,
  dispatch,
}

-- How often the CRM is told of a new dialogue.
unfoldable pub new_dialogs : List Effect → ℕ
new_dialogs [] = 0
new_dialogs (tells_crm m ∷ es) = (if m.new_dialog then 1 else 0) + new_dialogs es
new_dialogs (first_contact s n ∷ es) = new_dialogs es
new_dialogs (makes_channels s n ∷ es) = new_dialogs es
new_dialogs (reads i ∷ es) = new_dialogs es
new_dialogs (types s ∷ es) = new_dialogs es
new_dialogs (delivers id m ∷ es) = new_dialogs es
new_dialogs (is_refused id m ∷ es) = new_dialogs es
new_dialogs (reauthorises r ∷ es) = new_dialogs es

new_dialogs-le-told : (es : List Effect) → new_dialogs es ≤ told es
unfolding new_dialogs told
new_dialogs-le-told [] = omega arith
new_dialogs-le-told (tells_crm m ∷ es) = ground (arith, new_dialogs-le-told es)
new_dialogs-le-told (first_contact s n ∷ es) = new_dialogs-le-told es
new_dialogs-le-told (makes_channels s n ∷ es) = new_dialogs-le-told es
new_dialogs-le-told (reads i ∷ es) = new_dialogs-le-told es
new_dialogs-le-told (types s ∷ es) = new_dialogs-le-told es
new_dialogs-le-told (delivers id m ∷ es) = new_dialogs-le-told es
new_dialogs-le-told (is_refused id m ∷ es) = new_dialogs-le-told es
new_dialogs-le-told (reauthorises r ∷ es) = new_dialogs-le-told es

abbrev one_if : Bool → ℕ
one_if b = if b then 1 else 0

-- At most one new dialogue where the message is the first, none where it is not.
abbrev pub IsCounted : Bool → Outcome → Type 0
IsCounted first out = new_dialogs out.0 ≤ (if first then 1 else 0)

module _ (answers : Answers) (message : MessageContent) (msg : Incoming) (o : Option Info) where
  tell-IsCounted :
      (id sender : ℕ) (files : List FileUpload) (i : Option Info)
      → IsCounted message.first (tell answers id sender message msg files i)
  unfolding new_dialogs
  tell-IsCounted id sender files none = omega arith
  tell-IsCounted id sender files (some info) =
      let m = user_message message msg (answers.operator_now id) files in
      let rest = sent answers id sender msg.push_name m answers.send in
      let none_told = (sent-IsOnce answers id sender msg.push_name m answers.send).1 in
      omega (arith, new_dialogs-le-told rest.0, none_told)

  typed-IsCounted :
      (b first : Bool) (sender : ℕ) (out : Outcome)
      → IsCounted first out
      → IsCounted first (after (if b then [] else types sender ∷ []) out)
  unfolding new_dialogs
  typed-IsCounted true first sender out h = h
  typed-IsCounted false first sender out h = h

  with_channel-IsCounted :
      (id sender : ℕ) → IsCounted message.first (with_channel answers id sender message msg o)
  with_channel-IsCounted id sender =
      let files = extract_files_from_message (some msg.event) (some answers.download) in
      typed-IsCounted (answers.operator_before id) message.first sender
        (tell answers id sender message msg files o) (tell-IsCounted id sender files o)

  again-IsCounted :
      (sender : ℕ) (c : String ⊎ ℕ)
      → IsCounted message.first (fetched_again answers sender message msg o c)
  unfolding new_dialogs
  again-IsCounted sender (inl e) = omega arith
  again-IsCounted sender (inr id) = with_channel-IsCounted id sender

  made-IsCounted :
      (sender : ℕ) (c : Option String)
      → IsCounted message.first (made_channels answers sender message msg o c)
  unfolding new_dialogs
  made-IsCounted sender (some e) = omega arith
  made-IsCounted sender none = again-IsCounted sender answers.get_ch_made

  fetched-IsCounted :
      (sender : ℕ) (c : String ⊎ ℕ)
      → IsCounted message.first (fetched answers sender message msg o c)
  unfolding new_dialogs
  fetched-IsCounted sender (inr id) = with_channel-IsCounted id sender
  fetched-IsCounted sender (inl e) = made-IsCounted sender answers.make

module _ (setup : Setup) (msg : Incoming) (items : Items) where
  from-IsCounted :
      (message : MessageContent) (s : Option ℕ)
      → IsCounted message.first (from_sender setup.answers message msg items s)
  unfolding new_dialogs
  from-IsCounted message none = omega arith
  from-IsCounted message (some sender) =
      fetched-IsCounted setup.answers message msg (load sender items) sender setup.answers.get_ch

  process-IsCounted :
      (message : MessageContent)
      → IsCounted message.first (process_message setup.answers message msg items)
  unfolding process_message
  process-IsCounted message = from-IsCounted message (sender_id (some msg.event))

  module _ (first : Bool) where
    text-IsCounted : (o : Option String) → IsCounted first (voice_text setup first msg items o)
    unfolding new_dialogs
    text-IsCounted none = omega arith
    text-IsCounted (some text) =
        process-IsCounted (record { text = text; voice = true; first = first })

    bytes-IsCounted : (o : Option (List ℕ)) → IsCounted first (voice_bytes setup first msg items o)
    unfolding new_dialogs
    bytes-IsCounted none = omega arith
    bytes-IsCounted (some bytes) = text-IsCounted (setup.transcribe bytes)

    audio-IsCounted : (o : Option Media) → IsCounted first (voice_audio setup first msg items o)
    unfolding new_dialogs
    audio-IsCounted none = omega arith
    audio-IsCounted (some audio) = bytes-IsCounted (setup.download audio)

    voice-IsCounted : (on : Bool) → IsCounted first (voice_when setup on first msg items)
    unfolding process_voice_message new_dialogs
    voice-IsCounted false = omega arith
    voice-IsCounted true = audio-IsCounted (audio_of msg.event.message)

    pub dispatch-IsCounted :
        (content : String) → IsCounted first (dispatch setup first content msg items)
    unfolding dispatch
    dispatch-IsCounted content = elim (Bool-cases (content == "[Голосовое сообщение]")) [
      | inl y ↦ rw y (voice-IsCounted setup.audio_mode)
      | inr n ↦ rw n (process-IsCounted (record { text = content; voice = false; first = first }))
    ]
