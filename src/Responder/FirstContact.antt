-- ===== src/Responder/FirstContact.antt =====
-- A sender is announced at most once, a preloaded sender never, and a restored record is complete.
use air_whatsbot.Common.{
  ℕ, suc, ◌+◌, ◌≤◌, ◌≡◌, refl, ap, String, Bool, true, false, Option, none, some, List, [], ◌∷◌,
  ◌++◌, arith, nat_beq, nat_beq_iff, ne→nat_beq, subst, nat_eq, string_eq, ◌==◌, if◌then◌else◌,
  Bool-cases, inl, inr,
}
use air_whatsbot.Common.Map.{lookup, lookup-insert, beq_refl}
use air_whatsbot.Responder.{
  Info, Items, load, store, Exists, Contact, start_notification, set_known, known_in_memory,
  make_known, send_first_contact_message,
}

-- A message of a sender, with the sender's name and what Redis answers.
abbrev pub Arrival : Type 0
Arrival = ℕ × String × Exists

module _ (events_start : Bool) where
  -- The first contacts of the messages, one after another.
  unfoldable pub contacts : List Arrival → Items → List Contact × Items
  contacts [] items = ([], items)
  contacts ((sender, name, exists) ∷ rest) items =
      let first = send_first_contact_message events_start sender name exists items in
      let later = contacts rest first.1 in (first.0 ++ later.0, later.1)

-- How often a sender is announced.
unfoldable pub announced : ℕ → List Contact → ℕ
announced sender [] = 0
announced sender (start_notification s name ∷ cs) =
    let rest = announced sender cs in if nat_beq s sender then suc rest else rest
announced sender (set_known z ∷ cs) = announced sender cs

announced-append :
    (sender : ℕ) (xs ys : List Contact)
    → announced sender (xs ++ ys) ≡ announced sender xs + announced sender ys
unfolding announced
announced-append sender [] ys = omega arith
announced-append sender (start_notification s name ∷ xs) ys =
    ground (arith, announced-append sender xs ys)
announced-append sender (set_known z ∷ xs) ys = announced-append sender xs ys

abbrev pub IsKnown : ℕ → Items → Type 0
IsKnown sender items = known_in_memory (lookup sender items) ≡ true

make_known-known : (o : Option Info) → (make_known o).known ≡ true
make_known-known none = refl
make_known-known (some info) = refl

pub store-IsKnown :
    (s sender : ℕ) (info : Info) (items : Items)
    → info.known ≡ true
    → IsKnown sender items
    → IsKnown sender (store s info items)
unfolding store
store-IsKnown s sender info items k h = elim (Bool-cases (s == sender)) [
  | inl e ↦ rw (lookup-insert s sender info items) (rw e k)
  | inr e ↦ rw (lookup-insert s sender info items) (rw e h)
]

pub store-own :
    (s : ℕ) (info : Info) (items : Items) → info.known ≡ true → IsKnown s (store s info items)
unfolding store
store-own s info items k = rw (lookup-insert s s info items) (rw (beq_refl s) k)

-- A sender that is known is not one that is not known.
other_sender :
    (s sender : ℕ) (items : Items)
    → IsKnown sender items
    → known_in_memory (lookup s items) ≡ false
    → nat_beq s sender ≡ false
other_sender s sender items h k = ne→nat_beq s sender (λ e.
    let same : known_in_memory (lookup s items) ≡ known_in_memory (lookup sender items) =
      ap (λ i. known_in_memory (lookup i items)) e in
    cc)

module _ (events_start : Bool) where
  -- A known sender is not announced, and any sender stays known.
  send-IsKnown :
      (s sender : ℕ) (name : String) (exists : Exists) (items : Items)
      → IsKnown sender items
      → (announced sender (send_first_contact_message events_start s name exists items).0 ≡ 0)
        × IsKnown sender (send_first_contact_message events_start s name exists items).1
  unfolding send_first_contact_message load announced
  send-IsKnown s sender name exists items h = elim (Bool-cases (known_in_memory (lookup s items))) [
    | inl k ↦ rw k (refl, h)
    | inr k ↦ rw k (
      (let n = other_sender s sender items h k in ground arith),
      store-IsKnown s sender (make_known (lookup s items)) items (make_known-known (lookup s items))
          h,
    )
  ]

  send-then-IsKnown :
      (s : ℕ) (name : String) (exists : Exists) (items : Items)
      → IsKnown s (send_first_contact_message events_start s name exists items).1
  unfolding send_first_contact_message load
  send-then-IsKnown s name exists items = elim (Bool-cases (known_in_memory (lookup s items))) [
    | inl k ↦ rw k k
    | inr k ↦
        rw k (store-own s (make_known (lookup s items)) items (make_known-known (lookup s items)))
  ]

  send-at_most_once :
      (s sender : ℕ) (name : String) (exists : Exists) (items : Items)
      → announced sender (send_first_contact_message events_start s name exists items).0
        ≤ (if nat_beq s sender then 1 else 0)
  unfolding send_first_contact_message load announced
  send-at_most_once s sender name exists items = ground arith

  contacts_known :
      (sender : ℕ) (arrivals : List Arrival) (items : Items)
      → IsKnown sender items
      → announced sender (contacts events_start arrivals items).0 ≡ 0
  unfolding contacts announced
  contacts_known sender [] items h = refl
  contacts_known sender ((s, name, exists) ∷ rest) items h =
      let first = send_first_contact_message events_start s name exists items in
      let (none_now, still) = send-IsKnown s sender name exists items h in
      omega (
        arith,
        announced-append sender first.0 (contacts events_start rest first.1).0,
        none_now,
        contacts_known sender rest first.1 still,
      )

  contacts-once :
      (sender : ℕ) (arrivals : List Arrival) (items : Items)
      → announced sender (contacts events_start arrivals items).0 ≤ 1
  unfolding contacts announced
  contacts-once sender [] items = omega arith
  contacts-once sender ((s, name, exists) ∷ rest) items =
      let first = send_first_contact_message events_start s name exists items in
      let now = send-at_most_once s sender name exists items in
      let both = announced-append sender first.0 (contacts events_start rest first.1).0 in
      elim (Bool-cases (nat_beq s sender)) [
        | inl e ↦
            (let known =
                subst (λ i. IsKnown i first.1) ((nat_beq_iff s sender).0 e)
                  (send-then-IsKnown s name exists items) in
              let none_later = contacts_known sender rest first.1 known in ground arith)
        | inr e ↦ (let later = contacts-once sender rest first.1 in ground arith)
      ]

  pub contacts_lem :
      (sender : ℕ) (arrivals : List Arrival) (items : Items)
      → (announced sender (contacts events_start arrivals items).0 ≤ 1)
        × (IsKnown sender items → announced sender (contacts events_start arrivals items).0 ≡ 0)
  contacts_lem sender arrivals items =
      (contacts-once sender arrivals items, contacts_known sender arrivals items)
