-- ===== src/Responder.antt =====
-- internal/whatsapp/responder/store.go and internal/whatsapp/bot_responder.go: the people who write to
-- the bot, in memory and in Redis. `*Info` is shared through the map: what is written through the
-- pointer is written to the map's entry.
pub mod FirstContact
pub mod Restore
pub mod Cache
pub mod Examples
use air_whatsbot.Common.{
  ℕ, suc, ◌-◌, ◌^◌, String, Bool, true, false, Option, none, some, List, [], ◌∷◌, ◌++◌, ◌⊎◌, inl,
  inr, nat_eq, string_eq, ◌==◌, ◌&&◌, not, ltb, if◌then◌else◌, length,
}
use air_whatsbot.Common.Map.{Map, lookup, insert, keys}
use air_whatsbot.Common.Int.{ℤ, pos, negsuc}
use air_whatsbot.Calls.Manager.State.{Jid}

pub record Info : Type 0 where
  pub jid : Jid
  pub real_phone : String
  pub known : Bool

-- Store.items
abbrev pub Items : Type 0
Items = Map ℕ Info

-- int64(u) of a uint64, and uint64(z) of an int64
unfoldable pub int64 : ℕ → ℤ
int64 u = if ltb u (2 ^ 63) then pos u else negsuc (2 ^ 64 - 1 - u)

unfoldable pub uint64 : ℤ → ℕ
uint64 (pos n) = n
uint64 (negsuc n) = 2 ^ 64 - 1 - n

abbrev pub no_jid : Jid
no_jid = record { user = ""; server = "" }

-- &responder.Info{Known: true}
abbrev pub only_known : Info
only_known = record { jid = no_jid; real_phone = ""; known = true }

-- s.Load(id), s.Store(id, info)
unfoldable pub load : ℕ → Items → Option Info
load id items = lookup id items

unfoldable pub store : ℕ → Info → Items → Items
store id info items = insert id info items

abbrev pub or_store : ℕ → Info → Items → Option Info → (Info × Bool) × Items
or_store id info items none = ((info, false), insert id info items)
or_store id info items (some got) = ((got, true), items)

-- s.LoadOrStore(id, info)
unfoldable pub load_or_store : ℕ → Info → Items → (Info × Bool) × Items
load_or_store id info items = or_store id info items (lookup id items)

-- s.Count()
unfoldable pub count : Items → ℕ
count items = length (keys items)

-- What Redis answers to one Exists: no cache is configured, an error, or whether the mark is there.
pub data Exists : Type 0 where
  no_cache : Exists
  exists_error : Exists
  exists_mark : Bool → Exists

-- s.Known(ctx, userID, senderID); an error comes with false and is only logged
abbrev pub known_mark : Exists → Bool
known_mark no_cache = false
known_mark exists_error = false
known_mark (exists_mark b) = b

pub data Contact : Type 0 where
  start_notification : ℕ → String → Contact  -- SendNotification, event "start": sender and its name
  set_known : ℤ → Contact  -- Store.SetKnown

-- Does the loaded record say that the sender is known?
abbrev pub known_in_memory : Option Info → Bool
known_in_memory none = false
known_in_memory (some info) = info.known

-- The record as known
abbrev pub make_known : Option Info → Info
make_known none = only_known
make_known (some info) = record info { known = true }

module _ (events_start : Bool) where
  -- b.sendFirstContactMessage(senderID, senderName), with what Redis answers to Exists. Errors of
  -- SetKnown and of the notification are only logged.
  unfoldable pub send_first_contact_message : ℕ → String → Exists → Items → List Contact × Items
  send_first_contact_message sender name exists items =
      if known_in_memory (load sender items) then (set_known (int64 sender) ∷ [], items) else (
        (if not (known_mark exists) && events_start
              then start_notification sender name ∷ []
              else [])
            ++ set_known (int64 sender) ∷ [],
        store sender (make_known (load sender items)) items,
      )

-- b.preloadFirstInteraction(), with the IDs that the cache lists; after an error there are none
unfoldable pub preload_first_interaction : List ℤ → Items → Items
preload_first_interaction [] items = items
preload_first_interaction (id ∷ ids) items =
    preload_first_interaction ids (store (uint64 id) only_known items)

abbrev pub filled_jid : Info → Jid → Jid
filled_jid info sender_jid = if info.jid.user == "" then sender_jid else info.jid

-- restoreResponderFields(info, senderJID, realPhone, senderID) of an info that is not nil, with the
-- text of the sender's ID
unfoldable pub restore_responder_fields : Info → Jid → String → String → Bool × Info
restore_responder_fields info sender_jid real_phone sender_text =
    let info' = record info { jid = filled_jid info sender_jid } in
    if not (info.real_phone == "") then (false, info') else (
      true,
      record info' { real_phone = if not (real_phone == "") then real_phone else sender_text },
    )
