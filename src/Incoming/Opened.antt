-- ===== src/Incoming/Opened.antt =====
-- The messages of many senders, one after another: a sender's dialogue is new once.
use air_whatsbot.Common.{
  ℕ, ◌+◌, ◌≤◌, ◌≡◌, refl, ap, sym, subst, String, Bool, true, false, Option, none, some, List, [],
  ◌∷◌, inl, inr, arith, nat_beq, nat_beq_iff, nat_eq, string_eq, ◌==◌, Bool-cases, if◌then◌else◌,
}
use air_whatsbot.Common.Map.{lookup}
use air_whatsbot.Messages.{message_text}
use air_whatsbot.Responder.{Info, Items, store, known_in_memory}
use air_whatsbot.Responder.FirstContact.{IsKnown, store-IsKnown, store-own}
use air_whatsbot.Incoming.Effects.{Incoming}
use air_whatsbot.Incoming.Delivery.{Outcome}
use air_whatsbot.Incoming.Registered.{register-known, register-IsKnown}
use air_whatsbot.Incoming.Openings.{new_dialogs, dispatch-IsCounted}
use air_whatsbot.Incoming.Receive.{
  Setup, is_allowed, dispatch, is_serious, make_known, introduced, greet, register, with_content,
  with_sender, is_ignored, parsed_sender, handle_message,
}

-- 1 where the sender is known
abbrev pub rank : ℕ → Items → ℕ
rank s items = if known_in_memory (lookup s items) then 1 else 0

rank-known : (s : ℕ) (items : Items) → IsKnown s items → rank s items ≡ 1
rank-known s items h = rw h refl

rank_mono :
    (s : ℕ) (before now : Items) → (IsKnown s before → IsKnown s now) → rank s before ≤ rank s now
rank_mono s before now h = elim (Bool-cases (known_in_memory (lookup s before))) [
  | inl y ↦ rw y (rw (h y) (omega arith))
  | inr n ↦ rw n (omega arith)
]

rank_most : (s : ℕ) (items : Items) → rank s items ≤ 1
rank_most s items = elim (Bool-cases (known_in_memory (lookup s items))) [
  | inl y ↦ rw y (omega arith)
  | inr n ↦ rw n (omega arith)
]

-- A new dialogue makes its sender known, and a known sender stays known.
abbrev Grows : ℕ → Items → Items × Outcome → Type 0
Grows s items done = new_dialogs done.1.0 + rank s items ≤ rank s done.0

-- A known sender stays known.
abbrev Keeps : ℕ → Items → Items × Outcome → Type 0
Keeps s items done = IsKnown s items → IsKnown s done.0

module _ (setup : Setup) (msg : Incoming) (content : String) where
  introduced-Grows :
      (sender : ℕ) (info : Info) (items before : Items) (o : Option String)
      → rank sender before ≡ 0
      → Grows sender before (introduced setup sender info content msg items o)
  unfolding new_dialogs
  introduced-Grows sender info items before (some e) r = omega arith
  introduced-Grows sender info items before none r =
      let items' = store sender (make_known info) items in
      let counted = dispatch-IsCounted setup msg items' true content in
      let known = rank-known sender items' (store-own sender (make_known info) items refl) in
      omega arith

  introduced-Keeps :
      (sender s : ℕ) (info : Info) (items : Items) (o : Option String)
      → Keeps s items (introduced setup sender info content msg items o)
  introduced-Keeps sender s info items (some e) k = k
  introduced-Keeps sender s info items none k =
      store-IsKnown sender s (make_known info) items refl k

  informed-Grows :
      (sender : ℕ) (info : Info) (items before : Items) (known : Bool)
      → rank sender before ≡ (if known then 1 else 0)
      → rank sender before ≤ rank sender items
      → Grows sender before (
          if known
          then (items, dispatch setup false content msg items)
          else greet setup sender info content msg items)
  unfolding new_dialogs
  informed-Grows sender info items before true r m =
      let counted = dispatch-IsCounted setup msg items false content in omega arith
  informed-Grows sender info items before false r m =
      introduced-Grows sender info items before (is_serious setup.first_make) r

  informed-Keeps :
      (sender s : ℕ) (info : Info) (items : Items) (known : Bool)
      → Keeps s items (
          if known
          then (items, dispatch setup false content msg items)
          else greet setup sender info content msg items)
  informed-Keeps sender s info items true k = k
  informed-Keeps sender s info items false k =
      introduced-Keeps sender s info items (is_serious setup.first_make) k

module _ (setup : Setup) (msg : Incoming) (items : Items) where
  content-Grows :
      (sender : ℕ) (content : String)
      → Grows sender items (with_content setup sender content msg items)
  unfolding new_dialogs
  content-Grows sender content =
      let (info, items') = register setup sender msg items in
      elim (Bool-cases (content == "[Неподдерживаемый тип сообщения]")) [
        | inl y ↦ rw y (omega arith)
        | inr n ↦ rw n (
            informed-Grows setup msg content sender (register setup sender msg items).0
              (register setup sender msg items).1 items (register setup sender msg items).0.known
              (ap (λ b. if b then 1 else 0) (sym (register-known setup sender msg items)))
              (rank_mono sender items (register setup sender msg items).1
                (register-IsKnown setup sender sender msg items)))
      ]

  content-Keeps :
      (sender s : ℕ) (content : String)
      → Keeps s items (with_content setup sender content msg items)
  content-Keeps sender s content k =
      elim (Bool-cases (content == "[Неподдерживаемый тип сообщения]")) [
        | inl y ↦ rw y k
        | inr n ↦ rw n (
            informed-Keeps setup msg content sender s (register setup sender msg items).0
              (register setup sender msg items).1 (register setup sender msg items).0.known
              (register-IsKnown setup sender s msg items k))
      ]

  sender-Grows : (sender : ℕ) → Grows sender items (with_sender setup msg items (some sender))
  unfolding new_dialogs
  sender-Grows sender = elim (Bool-cases (is_allowed setup.uids sender)) [
    | inl y ↦ rw y (content-Grows sender (message_text (some msg.event)))
    | inr n ↦ rw n (omega arith)
  ]

  sender-Keeps : (s : ℕ) (o : Option ℕ) → Keeps s items (with_sender setup msg items o)
  sender-Keeps s none k = k
  sender-Keeps s (some sender) k = elim (Bool-cases (is_allowed setup.uids sender)) [
    | inl y ↦ rw y (content-Keeps sender s (message_text (some msg.event)) k)
    | inr n ↦ rw n k
  ]

  handle-Grows :
      (sender : ℕ)
      → parsed_sender msg ≡ some sender
      → Grows sender items (handle_message setup msg items)
  unfolding handle_message new_dialogs
  handle-Grows sender p = elim (Bool-cases (is_ignored setup msg)) [
    | inl y ↦ rw y (omega arith)
    | inr n ↦ rw n (
        subst (λ o. Grows sender items (with_sender setup msg items o)) (sym p)
          (sender-Grows sender))
  ]

  handle-Keeps : (s : ℕ) → Keeps s items (handle_message setup msg items)
  unfolding handle_message
  handle-Keeps s k = elim (Bool-cases (is_ignored setup msg)) [
    | inl y ↦ rw y k
    | inr n ↦ rw n (sender-Keeps s (parsed_sender msg) k)
  ]

abbrev is_from : ℕ → Option ℕ → Bool
is_from s none = false
is_from s (some sender) = nat_beq sender s

-- How often the CRM is told of a new dialogue for messages of one sender, with the map at the end.
unfoldable pub opened : ℕ → List (Setup × Incoming) → Items → ℕ × Items
opened s [] items = (0, items)
opened s ((setup, msg) ∷ rest) items =
    let done = handle_message setup msg items in
    let later = opened s rest done.0 in
    ((if is_from s (parsed_sender msg) then new_dialogs done.1.0 else 0) + later.0, later.1)

own_sender : (s : ℕ) (o : Option ℕ) → is_from s o ≡ true → o ≡ some s
own_sender s none h = cc
own_sender s (some t) h = ap some ((nat_beq_iff t s).0 h)

opened_bound :
    (s : ℕ) (messages : List (Setup × Incoming)) (items : Items)
    → (opened s messages items).0 + rank s items ≤ rank s (opened s messages items).1
unfolding opened
opened_bound s [] items = omega arith
opened_bound s ((setup, msg) ∷ rest) items =
    let done = handle_message setup msg items in
    let later = opened_bound s rest done.0 in
    elim (Bool-cases (is_from s (parsed_sender msg))) [
      | inl y ↦
          (let now = handle-Grows setup msg items s (own_sender s (parsed_sender msg) y) in
            rw y (omega arith))
      | inr n ↦
          (let kept = rank_mono s items done.0 (handle-Keeps setup msg items s) in
            rw n (omega arith))
    ]

-- However many messages arrive from whatever senders, and whatever each call answers, the CRM is told
-- at most once that the dialogue of a sender is new, and never for a sender that was known; where it is
-- told, the sender is known at the end.
pub opened_lem :
    (s : ℕ) (messages : List (Setup × Incoming)) (items : Items)
    → ((opened s messages items).0 ≤ 1)
      × (IsKnown s items → (opened s messages items).0 ≡ 0)
      × ((opened s messages items).0 ≡ 1 → rank s (opened s messages items).1 ≡ 1)
opened_lem s messages items =
    let bound = opened_bound s messages items in
    let most = rank_most s (opened s messages items).1 in
    (omega arith, λ k. omega (arith, rank-known s items k), λ h. omega arith)
