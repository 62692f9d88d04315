-- ===== src/Messages/Rules.antt =====
-- `ShouldIgnoreMessage` of internal/whatsapp/messages/filter.go.
use air_whatsbot.Common.{
  ℕ, ◌-◌, ◌*◌, String, Bool, true, false, Option, none, some, List, [], ◌∷◌, string_eq, ◌==◌, ◌||◌,
  if◌then◌else◌, ltb,
}
use text.Mathlib.Text.{find?}
use air_whatsbot.Messages.{Event, Content, Extended}

-- strings.Contains(s, part)
abbrev pub is_found : Option ℕ → Bool
is_found none = false
is_found (some i) = true

abbrev pub contains : String → String → Bool
contains s part = is_found (find? s part)

abbrev pub second : ℕ
second = 1000000000

-- The conditions of `ShouldIgnoreMessage`, in its order.
abbrev pub in_ignore_window : ℕ → ℕ → Bool
in_ignore_window connected_at now = ltb (now - connected_at) (30 * second)

abbrev pub is_status : Event → Bool
is_status e = e.sender.server == "broadcast" || e.chat.user == "status"

abbrev pub is_status_text : Event → Bool
is_status_text e = e.chat_text == "status@broadcast" || e.sender_text == "status@broadcast"

abbrev pub is_own : Event → Bool
is_own e = e.is_from_me || e.is_incoming_broadcast

abbrev pub is_service : Event → Bool
is_service e = e.category == "peer" || e.category == "retry"

abbrev pub is_history : Event → Bool
is_history e = contains e.id "BAE" || contains e.id "_BAE"

abbrev pub is_metadata : Option String → Bool
is_metadata none = false
is_metadata (some text) =
    contains text "deviceListMetadata"
    || (contains text "messageSecret" || contains text "recipientTimestamp")

abbrev pub has_metadata : Option Extended → Bool
has_metadata none = false
has_metadata (some ext) = is_metadata ext.context_info

abbrev pub is_too_old : ℕ → Event → Bool
is_too_old now e = ltb e.timestamp (now - 5 * 60 * second)

abbrev pub ignored : String → (Bool × String) × List String
ignored rule = ((true, rule), rule ∷ [])

abbrev pub should_ignore_content :
    ℕ → ℕ → ℕ → Event → Option Content → (Bool × String) × List String
should_ignore_content connected_at now later e none = ((true, "nil_message"), [])
should_ignore_content connected_at now later e (some content) =
    if in_ignore_window connected_at now
    then ignored "message_ignore_window"
    else if is_status e
    then ignored "status_broadcast"
    else if is_status_text e
    then ignored "status_broadcast"
    else if is_own e
    then ignored "from_me_or_broadcast"
    else if is_service e
    then ignored "peer_or_retry"
    else if is_history e
    then ignored "history_id"
    else if has_metadata content.extended
    then ignored "context_info"
    else if is_too_old later e
    then ignored "too_old"
    else ((false, ""), [])

-- ShouldIgnoreMessage(msg, connectedAt, botLabel), with the labels that are counted; `now` and `later`
-- are the times of its two readings of the clock.
unfoldable pub should_ignore_message : ℕ → ℕ → ℕ → Option Event → (Bool × String) × List String
should_ignore_message connected_at now later none = ((true, "nil_message"), [])
should_ignore_message connected_at now later (some e) =
    should_ignore_content connected_at now later e e.message
