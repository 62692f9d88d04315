-- ===== src/Incoming/Texts.antt =====
-- A text message of an allowed sender is not lost without an error.
use air_whatsbot.Common.{
  ℕ, ◌≡◌, refl, sym, subst, String, Bool, true, false, Option, none, some, if◌then◌else◌, string_eq,
  ◌==◌,
}
use air_whatsbot.Messages.{is_there, message_text}
use air_whatsbot.Responder.{Info, Items}
use air_whatsbot.Incoming.Effects.{Incoming, delivered}
use air_whatsbot.Incoming.Delivery.{Outcome}
use air_whatsbot.Incoming.Delivered.{process_message_lem}
use air_whatsbot.Incoming.Receive.{
  Setup, is_allowed, dispatch, is_serious, introduced, greet, register, with_sender, is_ignored,
  parsed_sender, handle_message,
}

abbrev IsSure : Outcome → Type 0
IsSure out = delivered out.0 ≡ (if is_there out.1 then 0 else 1)

module _ (setup : Setup) (msg : Incoming) (content : String)
    (written : (content == "[Голосовое сообщение]") ≡ false) where
  dispatch-IsSure : (first : Bool) (items : Items) → IsSure (dispatch setup first content msg items)
  unfolding dispatch
  dispatch-IsSure first items = rw written (process_message_lem setup.answers _ msg items).0

  introduced-IsSure :
      (sender : ℕ) (info : Info) (items : Items) (o : Option String)
      → IsSure (introduced setup sender info content msg items o).1
  unfolding delivered
  introduced-IsSure sender info items (some e) = refl
  introduced-IsSure sender info items none = dispatch-IsSure true _

  with_info-IsSure :
      (sender : ℕ) (info : Info) (items : Items) (known : Bool)
      → IsSure
          (if known
            then (items, dispatch setup false content msg items)
            else greet setup sender info content msg items).1
  unfolding delivered
  with_info-IsSure sender info items true = dispatch-IsSure false items
  with_info-IsSure sender info items false =
      introduced-IsSure sender info items (is_serious setup.first_make)

module _ (setup : Setup) (sender : ℕ) (msg : Incoming) (items : Items)
    (fresh : is_ignored setup msg ≡ false) (parsed : parsed_sender msg ≡ some sender)
    (allowed : is_allowed setup.uids sender ≡ true) where
  -- A message that passes the filter and comes from an allowed sender is, if its text is neither that
  -- of a voice message nor that of an unsupported one, given to the assistant exactly once where
  -- `handleMessage` returns no error, and not at all where it returns one.
  pub handle_message-delivers :
      ((message_text (some msg.event) == "[Неподдерживаемый тип сообщения]") ≡ false)
      → ((message_text (some msg.event) == "[Голосовое сообщение]") ≡ false)
      → delivered (handle_message setup msg items).1.0
        ≡ (if is_there (handle_message setup msg items).1.1 then 0 else 1)
  unfolding handle_message
  handle_message-delivers supported written = rw fresh (
      subst (λ o. IsSure (with_sender setup msg items o).1) (sym parsed)
        (rw allowed (
          rw supported (
            with_info-IsSure setup msg (message_text (some msg.event)) written sender
              (register setup sender msg items).0 (register setup sender msg items).1
              (register setup sender msg items).0.known))))
