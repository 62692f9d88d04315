-- ===== src/Incoming/Announced.antt =====
-- The goroutine of the first contact against the handler that starts it.
use air_whatsbot.Common.{
  ℕ, ◌≡◌, refl, ap, sym, ◌∙◌, subst, String, Bool, true, false, none, some, [], ◌∷◌, nat_eq,
  string_eq, ◌==◌, if◌then◌else◌,
}
use air_whatsbot.Common.Map.{lookup}
use air_whatsbot.Messages.{message_text}
use air_whatsbot.Responder.{
  Info, Items, load, int64, Exists, exists_mark, start_notification, set_known, known_in_memory,
  send_first_contact_message,
}
use air_whatsbot.Responder.FirstContact.{IsKnown, store-own}
use air_whatsbot.Incoming.Effects.{Incoming}
use air_whatsbot.Incoming.Registered.{register-loads, register-known}
use air_whatsbot.Incoming.Receive.{
  Setup, is_allowed, dispatch, is_serious, make_known, introduced, greet, register, with_sender,
  is_ignored, parsed_sender, handle_message,
}

send-known :
    (events_start : Bool) (s : ℕ) (name : String) (exists : Exists) (items : Items)
    → IsKnown s items
    → (send_first_contact_message events_start s name exists items).0 ≡ set_known (int64 s) ∷ []
unfolding send_first_contact_message load
send-known events_start s name exists items k = rw k refl

send-unknown :
    (s : ℕ) (name : String) (items : Items)
    → known_in_memory (load s items) ≡ false
    → (send_first_contact_message true s name (exists_mark false) items).0
      ≡ start_notification s name ∷ set_known (int64 s) ∷ []
unfolding send_first_contact_message
send-unknown s name items k = rw k refl

module _ (setup : Setup) (sender : ℕ) (msg : Incoming) (items : Items)
    (made : is_serious setup.first_make ≡ none) where
  greeted :
      (content : String) (info : Info) (items' : Items)
      → IsKnown sender (greet setup sender info content msg items').0
  greeted content info items' =
      subst (λ o. IsKnown sender (introduced setup sender info content msg items' o).0) (sym made)
        (store-own sender (make_known info) items' refl)

  informed :
      (content : String) (info : Info) (items' : Items) (known : Bool)
      → known ≡ false
      → IsKnown sender
          (if known
            then (items', dispatch setup false content msg items')
            else greet setup sender info content msg items').0
  informed content info items' known k =
      subst
        (λ b.
          IsKnown sender
            (if b
              then (items', dispatch setup false content msg items')
              else greet setup sender info content msg items').0)
        (sym k) (greeted content info items')

  -- At the first message of a sender, which passes the filter and comes from an allowed sender that is
  -- not known, with a supported content and with channels that are made without a serious error: if
  -- the goroutine of the first contact runs when `handleMessage` is done, it announces nobody,
  -- whatever Redis answers; if it runs right after the sender is registered, with the notifications
  -- enabled and no mark in Redis, it announces the sender.
  pub first_contact_race :
      is_ignored setup msg ≡ false
      → parsed_sender msg ≡ some sender
      → is_allowed setup.uids sender ≡ true
      → ((message_text (some msg.event) == "[Неподдерживаемый тип сообщения]") ≡ false)
      → known_in_memory (lookup sender items) ≡ false
      → ((events_start : Bool) (exists : Exists)
          → (send_first_contact_message events_start sender msg.push_name exists
              (handle_message setup msg items).0).0
            ≡ set_known (int64 sender) ∷ [])
        × ((send_first_contact_message true sender msg.push_name
              (exists_mark false)
              (register setup sender msg items).1).0
            ≡ start_notification sender msg.push_name ∷ set_known (int64 sender) ∷ [])
  unfolding handle_message
  first_contact_race fresh parsed allowed supported unknown =
      let here = register-known setup sender msg items ∙ unknown in
      let done : IsKnown sender (handle_message setup msg items).0 = rw fresh (
        subst (λ o. IsKnown sender (with_sender setup msg items o).0) (sym parsed)
          (rw allowed (
            rw supported (
              informed (message_text (some msg.event)) (register setup sender msg items).0
                (register setup sender msg items).1 (register setup sender msg items).0.known
                here)))) in
      (
        λ events_start exists. send-known events_start sender msg.push_name exists _ done,
        send-unknown sender msg.push_name _
            (ap known_in_memory (register-loads setup sender msg items) ∙ here),
      )
