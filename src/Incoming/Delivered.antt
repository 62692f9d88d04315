-- ===== src/Incoming/Delivered.antt =====
-- Whether `processMessage` succeeds and whether the assistant got the message is the same.
use air_whatsbot.Common.{
  ℕ, ◌≤◌, ◌≡◌, String, Bool, true, false, Option, none, some, List, [], ◌∷◌, ◌⊎◌, inl, inr, arith,
  if◌then◌else◌,
}
use air_whatsbot.Messages.{is_there, sender_id}
use air_whatsbot.Messages.Files.{FileUpload}
use air_whatsbot.Responder.{Info, Items, load}
use air_whatsbot.Incoming.Effects.{
  Incoming, MessageContent, UserMessage, types, delivered, told, made, early,
}
use air_whatsbot.Incoming.Delivery.{
  Answers, Outcome, retried, refetched, remade, sent, tell, with_channel, fetched_again,
  made_channels, fetched, from_sender, after, process_message,
}

-- The assistant got the message once exactly if there is no error; the CRM was told at most `t` times
-- and before the assistant was tried, and the channels were made at most `k` times.
abbrev pub IsOnce : ℕ → ℕ → Outcome → Type 0
IsOnce t k out =
    (delivered out.0 ≡ (if is_there out.1 then 0 else 1)) × (told out.0 ≤ t) × (made out.0 ≤ k)

abbrev pub IsOrderly : ℕ → Outcome → Type 0
IsOrderly k out = IsOnce 1 k out × (early out.0 ≡ 0)

module _ (answers : Answers) where
  retried-IsOnce :
      (id : ℕ) (m : UserMessage) (o : Option String) → IsOnce 0 0 (retried answers id m o)
  unfolding delivered told made
  retried-IsOnce id m none = omega arith
  retried-IsOnce id m (some e) = omega arith

  refetched-IsOnce : (m : UserMessage) (o : String ⊎ ℕ) → IsOnce 0 0 (refetched answers m o)
  unfolding delivered told made
  refetched-IsOnce m (inl e) = omega arith
  refetched-IsOnce m (inr id) = retried-IsOnce id m answers.resend

  remade-IsOnce : (m : UserMessage) (o : Option String) → IsOnce 0 0 (remade answers m o)
  unfolding delivered told made
  remade-IsOnce m (some e) = omega arith
  remade-IsOnce m none = refetched-IsOnce m answers.get_ch_remade

  pub sent-IsOnce :
      (id sender : ℕ) (name : String) (m : UserMessage) (o : Option String)
      → IsOnce 0 1 (sent answers id sender name m o)
  unfolding delivered told made
  sent-IsOnce id sender name m none = omega arith
  sent-IsOnce id sender name m (some e) = omega (arith, remade-IsOnce m answers.remake)

  tell-IsOrderly :
      (id sender : ℕ) (message : MessageContent) (msg : Incoming) (files : List FileUpload)
      (o : Option Info)
      → IsOrderly 1 (tell answers id sender message msg files o)
  unfolding delivered told made early
  tell-IsOrderly id sender message msg files none = omega arith
  tell-IsOrderly id sender message msg files (some info) =
      omega (arith, sent-IsOnce id sender msg.push_name _ answers.send)

  typed-IsOrderly :
      (b : Bool) (sender k : ℕ) (out : Outcome)
      → IsOrderly k out
      → IsOrderly k (after (if b then [] else types sender ∷ []) out)
  unfolding delivered told made early
  typed-IsOrderly true sender k out h = h
  typed-IsOrderly false sender k out h = h

  with_channel-IsOrderly :
      (id sender : ℕ) (message : MessageContent) (msg : Incoming) (o : Option Info)
      → IsOrderly 1 (with_channel answers id sender message msg o)
  with_channel-IsOrderly id sender message msg o =
      typed-IsOrderly (answers.operator_before id) sender 1 _
        (tell-IsOrderly id sender message msg _ o)

  again-IsOrderly :
      (sender : ℕ) (message : MessageContent) (msg : Incoming) (o : Option Info) (c : String ⊎ ℕ)
      → IsOrderly 1 (fetched_again answers sender message msg o c)
  unfolding delivered told made early
  again-IsOrderly sender message msg o (inl e) = omega arith
  again-IsOrderly sender message msg o (inr id) = with_channel-IsOrderly id sender message msg o

  made-IsOrderly :
      (sender : ℕ) (message : MessageContent) (msg : Incoming) (o : Option Info) (c : Option String)
      → IsOrderly 1 (made_channels answers sender message msg o c)
  unfolding delivered told made early
  made-IsOrderly sender message msg o (some e) = omega arith
  made-IsOrderly sender message msg o none =
      again-IsOrderly sender message msg o answers.get_ch_made

  fetched-IsOrderly :
      (sender : ℕ) (message : MessageContent) (msg : Incoming) (o : Option Info) (c : String ⊎ ℕ)
      → IsOrderly 2 (fetched answers sender message msg o c)
  unfolding delivered told made early
  fetched-IsOrderly sender message msg o (inr id) =
      omega (arith, with_channel-IsOrderly id sender message msg o)
  fetched-IsOrderly sender message msg o (inl e) =
      omega (arith, made-IsOrderly sender message msg o answers.make)

  from-IsOrderly :
      (message : MessageContent) (msg : Incoming) (items : Items) (o : Option ℕ)
      → IsOrderly 2 (from_sender answers message msg items o)
  unfolding delivered told made early
  from-IsOrderly message msg items none = omega arith
  from-IsOrderly message msg items (some sender) =
      fetched-IsOrderly sender message msg (load sender items) answers.get_ch

  -- Whatever the calls answer, `processMessage` returns no error exactly if the assistant got the
  -- message, and then it got it once; an error means that it did not get it. The CRM is told of the
  -- message at most once and before the assistant is tried, and the channels of the sender are made at
  -- most twice.
  pub process_message_lem :
      (message : MessageContent) (msg : Incoming) (items : Items)
      → (delivered (process_message answers message msg items).0
          ≡ (if is_there (process_message answers message msg items).1 then 0 else 1))
        × (told (process_message answers message msg items).0 ≤ 1)
        × (early (process_message answers message msg items).0 ≡ 0)
        × (made (process_message answers message msg items).0 ≤ 2)
  unfolding process_message
  process_message_lem message msg items =
      let all = from-IsOrderly message msg items (sender_id (some msg.event)) in
      (all.0.0, all.0.1, all.1, all.0.2)
