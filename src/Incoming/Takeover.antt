-- ===== src/Incoming/Takeover.antt =====
-- The text that resets the session.
use air_whatsbot.Common.{◌≡◌, String, Bool, some, ◌⊎◌, string_eq, if◌then◌else◌, not}
use air_whatsbot.Messages.{Content, Extended, extended_or, kind_text, is_there, is_voice}
use air_whatsbot.Incoming.Effects.{Incoming}

-- The text that a sender Wrote: a conversation, or an extended text.
abbrev pub Wrote : Content → String → Type 0
Wrote c text =
    (c.conversation ≡ text) ⊎ ((ext : Extended) × (c.extended ≡ some ext) × (ext.text ≡ text))

-- The text of a content, given whether its conversation is empty.
abbrev text_when : Content → Bool → String
text_when c b =
    if not b
    then c.conversation
    else extended_or c.extended
        (kind_text (is_voice c.audio) (is_there c.document) (is_there c.image))
