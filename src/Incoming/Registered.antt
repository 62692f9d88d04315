-- ===== src/Incoming/Registered.antt =====
-- The record of a sender while `handleMessage` runs: it is found, and what is known stays known.
use air_whatsbot.Common.{
  ℕ, ◌≡◌, refl, ap, sym, ◌∙◌, subst, String, true, false, Option, none, some, nat_eq, ◌==◌,
  nat_beq_iff, Bool-cases, inl, inr, string_eq,
}
use air_whatsbot.Common.Map.{lookup, lookup-insert, lookup-insert_self}
use air_whatsbot.Common.Decimal.{uint_text}
use air_whatsbot.Calls.Manager.State.{Jid}
use air_whatsbot.Responder.{
  Info, Items, load, store, load_or_store, or_store, known_in_memory, restore_responder_fields,
}
use air_whatsbot.Responder.FirstContact.{IsKnown}
use air_whatsbot.Incoming.Effects.{Incoming}
use air_whatsbot.Incoming.Receive.{Setup, register, real_phone, new_info}

restore-known :
    (info : Info) (j : Jid) (phone text : String)
    → (restore_responder_fields info j phone text).1.known ≡ info.known
unfolding restore_responder_fields
restore-known info j phone text = elim (Bool-cases (info.real_phone == "")) [
  | inl e ↦ rw e refl
  | inr e ↦ rw e refl
]

or_store-known :
    (id : ℕ) (info : Info) (items : Items) (o : Option Info)
    → info.known ≡ false
    → (or_store id info items o).0.0.known ≡ known_in_memory o
or_store-known id info items none n = n
or_store-known id info items (some got) n = refl

or_store-IsKnown :
    (id s : ℕ) (info : Info) (items : Items) (o : Option Info)
    → lookup id items ≡ o
    → IsKnown s items
    → IsKnown s (or_store id info items o).1
or_store-IsKnown id s info items (some got) e h = h
or_store-IsKnown id s info items none e h = elim (Bool-cases (id == s)) [
  | inl y ↦
      (let same : lookup s items ≡ none =
          ap (λ k. lookup k items) (sym ((nat_beq_iff id s).0 y)) ∙ e in
        absurd (let bad : true ≡ false = sym h ∙ ap known_in_memory same in cc))
  | inr n ↦ rw (lookup-insert id s info items) (rw n h)
]

module _ (setup : Setup) where
  pub register-loads :
      (sender : ℕ) (msg : Incoming) (items : Items)
      → load sender (register setup sender msg items).1 ≡ some (register setup sender msg items).0
  unfolding register load store
  register-loads sender msg items = lookup-insert_self sender _ _

  -- The record is known exactly if the sender was.
  pub register-known :
      (sender : ℕ) (msg : Incoming) (items : Items)
      → (register setup sender msg items).0.known ≡ known_in_memory (lookup sender items)
  unfolding register load_or_store
  register-known sender msg items =
      restore-known _ msg.event.sender (real_phone setup sender msg) (uint_text sender)
      ∙ or_store-known sender (new_info msg (real_phone setup sender msg)) items
          (lookup sender items) refl

  register_other :
      (sender s : ℕ) (msg : Incoming) (items : Items)
      → (sender == s) ≡ false
      → IsKnown s items
      → IsKnown s (register setup sender msg items).1
  unfolding register load_or_store store
  register_other sender s msg items n h =
      rw (lookup-insert sender s _ _) (
        rw n
          (or_store-IsKnown sender s (new_info msg (real_phone setup sender msg)) items _ refl h))

  -- A sender that is known stays known.
  pub register-IsKnown :
      (sender s : ℕ) (msg : Incoming) (items : Items)
      → IsKnown s items
      → IsKnown s (register setup sender msg items).1
  unfolding load
  register-IsKnown sender s msg items h = elim (Bool-cases (sender == s)) [
    | inl y ↦
        (let here = (nat_beq_iff sender s).0 y in
          subst (λ i. IsKnown i (register setup sender msg items).1) here
            (own (subst (λ i. IsKnown i items) (sym here) h)))
    | inr n ↦ other n
  ]
    where
      own : IsKnown sender items → IsKnown sender (register setup sender msg items).1
      own k =
          ap known_in_memory (register-loads sender msg items)
          ∙ (register-known sender msg items ∙ k)

      other : (sender == s) ≡ false → IsKnown s (register setup sender msg items).1
      other n = register_other sender s msg items n h
