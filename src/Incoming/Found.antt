-- ===== src/Incoming/Found.antt =====
-- `processMessage` finds the record of a sender that is in the map.
use air_whatsbot.Common.{
  ℕ, ◌≡◌, refl, sym, subst, String, Bool, true, false, Option, none, some, ◌⊎◌, inl, inr,
}
use air_whatsbot.Messages.{sender_id}
use air_whatsbot.Responder.{Info, Items, load}
use air_whatsbot.Incoming.Effects.{Incoming, MessageContent, UserMessage}
use air_whatsbot.Incoming.Delivery.{
  Answers, HandleError, no_responder, bad_sender, no_first_channels, voice_disabled, no_channels,
  no_channel, no_new_channels, no_new_channel, not_delivered, Outcome, retried, refetched, remade,
  sent, with_channel, fetched_again, made_channels, fetched, from_sender, process_message,
}

-- Is the error that the record of the sender is missing?
abbrev pub is_missing : Option HandleError → Bool
is_missing none = false
is_missing (some no_responder) = true
is_missing (some bad_sender) = false
is_missing (some voice_disabled) = false
is_missing (some (no_first_channels e)) = false
is_missing (some (no_channels e)) = false
is_missing (some (no_channel e)) = false
is_missing (some (no_new_channels e)) = false
is_missing (some (no_new_channel e)) = false
is_missing (some (not_delivered e)) = false

abbrev IsFound : Outcome → Type 0
IsFound out = is_missing out.1 ≡ false

module _ (answers : Answers) where
  retried-IsFound :
      (id : ℕ) (m : UserMessage) (o : Option String) → IsFound (retried answers id m o)
  retried-IsFound id m none = refl
  retried-IsFound id m (some e) = refl

  refetched-IsFound : (m : UserMessage) (o : String ⊎ ℕ) → IsFound (refetched answers m o)
  refetched-IsFound m (inl e) = refl
  refetched-IsFound m (inr id) = retried-IsFound id m answers.resend

  remade-IsFound : (m : UserMessage) (o : Option String) → IsFound (remade answers m o)
  remade-IsFound m (some e) = refl
  remade-IsFound m none = refetched-IsFound m answers.get_ch_remade

  sent-IsFound :
      (id sender : ℕ) (name : String) (m : UserMessage) (o : Option String)
      → IsFound (sent answers id sender name m o)
  sent-IsFound id sender name m none = refl
  sent-IsFound id sender name m (some e) = remade-IsFound m answers.remake

  with_channel-IsFound :
      (id sender : ℕ) (message : MessageContent) (msg : Incoming) (info : Info)
      → IsFound (with_channel answers id sender message msg (some info))
  with_channel-IsFound id sender message msg info =
      sent-IsFound id sender msg.push_name _ answers.send

  again-IsFound :
      (sender : ℕ) (message : MessageContent) (msg : Incoming) (info : Info) (c : String ⊎ ℕ)
      → IsFound (fetched_again answers sender message msg (some info) c)
  again-IsFound sender message msg info (inl e) = refl
  again-IsFound sender message msg info (inr id) = with_channel-IsFound id sender message msg info

  made-IsFound :
      (sender : ℕ) (message : MessageContent) (msg : Incoming) (info : Info) (c : Option String)
      → IsFound (made_channels answers sender message msg (some info) c)
  made-IsFound sender message msg info (some e) = refl
  made-IsFound sender message msg info none =
      again-IsFound sender message msg info answers.get_ch_made

  fetched-IsFound :
      (sender : ℕ) (message : MessageContent) (msg : Incoming) (info : Info) (c : String ⊎ ℕ)
      → IsFound (fetched answers sender message msg (some info) c)
  fetched-IsFound sender message msg info (inr id) = with_channel-IsFound id sender message msg info
  fetched-IsFound sender message msg info (inl e) =
      made-IsFound sender message msg info answers.make

  pub process_message-IsFound :
      (message : MessageContent) (msg : Incoming) (items : Items) (sender : ℕ) (info : Info)
      → sender_id (some msg.event) ≡ some sender
      → load sender items ≡ some info
      → IsFound (process_message answers message msg items)
  unfolding process_message
  process_message-IsFound message msg items sender info p l =
      subst (λ o. IsFound (from_sender answers message msg items o)) (sym p)
        (subst (λ o. IsFound (fetched answers sender message msg o answers.get_ch)) (sym l)
          (fetched-IsFound sender message msg info answers.get_ch))
