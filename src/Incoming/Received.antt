-- ===== src/Incoming/Received.antt =====
-- What `handleMessage` does with any message.
use air_whatsbot.Common.{
  ℕ, ◌≤◌, ◌≡◌, refl, ap, sym, ◌∙◌, subst, String, Bool, true, false, Option, none, some, List, [],
  inl, inr, arith, Bool-cases, if◌then◌else◌, string_eq, nat_eq, ◌==◌,
}
use air_whatsbot.Messages.{Media, is_there, message_text, sender_id}
use air_whatsbot.Responder.{Info, Items, load, store}
use air_whatsbot.Common.Map.{lookup-insert_self}
use air_whatsbot.Incoming.Effects.{Incoming, MessageContent, delivered}
use air_whatsbot.Incoming.Delivery.{
  Outcome, HandleError, bad_sender, voice_disabled, no_first_channels, process_message,
}
use air_whatsbot.Incoming.Delivered.{process_message_lem}
use air_whatsbot.Incoming.Found.{is_missing, process_message-IsFound}
use air_whatsbot.Incoming.Registered.{register-loads}
use air_whatsbot.Incoming.Receive.{
  Setup, is_allowed, audio_of, voice_text, voice_bytes, voice_audio, process_voice_message,
  dispatch, voice_when, is_serious, make_known, introduced, greet, register, with_info,
  with_content, with_sender, is_ignored, parsed_sender, handle_message,
}

-- The assistant gets the message at most once, and not at all if there is an error, which is not that
-- the record of the sender is missing.
abbrev pub IsClean : Outcome → Type 0
IsClean out =
    (delivered out.0 ≤ 1)
    × (is_there out.1 ≡ true → delivered out.0 ≡ 0)
    × (is_missing out.1 ≡ false)

-- Nothing is sent.
silent-IsClean : (e : Option HandleError) → is_missing e ≡ false → IsClean ([], e)
unfolding delivered
silent-IsClean e h = (omega arith, λ _. refl, h)

load-store : (s : ℕ) (info : Info) (items : Items) → load s (store s info items) ≡ some info
unfolding load store
load-store s info items = lookup-insert_self s info items

module _ (setup : Setup) (sender : ℕ) (msg : Incoming)
    (parsed : parsed_sender msg ≡ some sender) where
  process-IsClean :
      (message : MessageContent) (items : Items) (info : Info)
      → load sender items ≡ some info
      → IsClean (process_message setup.answers message msg items)
  unfolding sender_id
  process-IsClean message items info l =
      let out = process_message setup.answers message msg items in
      let once = process_message_lem setup.answers message msg items in
      (
        (let n = once.0 in ground arith),
        (λ h. once.0 ∙ ap (λ b. if b then 0 else 1) h),
        process_message-IsFound setup.answers message msg items sender info parsed l,
      )

  module _ (first : Bool) (items : Items) (info : Info) (l : load sender items ≡ some info) where
    text-IsClean : (o : Option String) → IsClean (voice_text setup first msg items o)
    text-IsClean none = silent-IsClean none refl
    text-IsClean (some text) = process-IsClean _ items info l

    bytes-IsClean : (o : Option (List ℕ)) → IsClean (voice_bytes setup first msg items o)
    bytes-IsClean none = silent-IsClean none refl
    bytes-IsClean (some bytes) = text-IsClean (setup.transcribe bytes)

    audio-IsClean : (o : Option Media) → IsClean (voice_audio setup first msg items o)
    audio-IsClean none = silent-IsClean none refl
    audio-IsClean (some audio) = bytes-IsClean (setup.download audio)

    voice-IsClean : (on : Bool) → IsClean (voice_when setup on first msg items)
    unfolding process_voice_message
    voice-IsClean false = silent-IsClean (some voice_disabled) refl
    voice-IsClean true = audio-IsClean (audio_of msg.event.message)

    dispatch-IsClean : (content : String) → IsClean (dispatch setup first content msg items)
    unfolding dispatch
    dispatch-IsClean content = elim (Bool-cases (content == "[Голосовое сообщение]")) [
      | inl y ↦ rw y (voice-IsClean setup.audio_mode)
      | inr n ↦ rw n (process-IsClean _ items info l)
    ]

  -- The channels of the first contact are made, and the record is known.
  introduced-IsClean :
      (info : Info) (content : String) (items : Items) (o : Option String)
      → IsClean (introduced setup sender info content msg items o).1
  introduced-IsClean info content items (some e) = silent-IsClean (some (no_first_channels e)) refl
  introduced-IsClean info content items none =
      dispatch-IsClean true (store sender (make_known info) items) (make_known info)
        (load-store sender (make_known info) items) content

  with_info-IsClean :
      (content : String) (info : Info) (items : Items)
      → load sender items ≡ some info
      → IsClean (with_info setup sender content msg (info, items)).1
  unfolding delivered
  with_info-IsClean content info items l = elim (Bool-cases info.known) [
    | inl k ↦
        subst
          (λ (b : Bool).
            IsClean
              (if b
                then (items, dispatch setup false content msg items)
                else greet setup sender info content msg items).1)
          (sym k) (dispatch-IsClean false items info l content)
    | inr k ↦
        subst
          (λ (b : Bool).
            IsClean
              (if b
                then (items, dispatch setup false content msg items)
                else greet setup sender info content msg items).1)
          (sym k) (introduced-IsClean info content items (is_serious setup.first_make))
  ]

  with_content-IsClean :
      (content : String) (items : Items) → IsClean (with_content setup sender content msg items).1
  with_content-IsClean content items =
      elim (Bool-cases (content == "[Неподдерживаемый тип сообщения]")) [
        | inl y ↦ rw y (silent-IsClean none refl)
        | inr n ↦ rw n (
            with_info-IsClean content (register setup sender msg items).0
              (register setup sender msg items).1 (register-loads setup sender msg items))
      ]

module _ (setup : Setup) (msg : Incoming) (items : Items) where
  with_sender-IsClean :
      (o : Option ℕ) → parsed_sender msg ≡ o → IsClean (with_sender setup msg items o).1
  with_sender-IsClean none p = silent-IsClean (some bad_sender) refl
  with_sender-IsClean (some s) p = elim (Bool-cases (is_allowed setup.uids s)) [
    | inl y ↦ rw y (with_content-IsClean setup s msg p (message_text (some msg.event)) items)
    | inr n ↦ rw n (silent-IsClean none refl)
  ]

  -- Whatever the message and whatever the calls answer, `handleMessage` gives the message to the
  -- assistant at most once, and not at all if it returns an error; and its error is never that the
  -- record of the sender is not found.
  pub handle_message_lem :
      (delivered (handle_message setup msg items).1.0 ≤ 1)
      × (is_there (handle_message setup msg items).1.1 ≡ true
          → delivered (handle_message setup msg items).1.0 ≡ 0)
      × (is_missing (handle_message setup msg items).1.1 ≡ false)
  unfolding handle_message
  handle_message_lem = elim (Bool-cases (is_ignored setup msg)) [
    | inl y ↦ rw y (silent-IsClean none refl)
    | inr n ↦ rw n (with_sender-IsClean (parsed_sender msg) refl)
  ]
