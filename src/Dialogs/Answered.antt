-- ===== src/Dialogs/Answered.antt =====
-- Where the answers of the assistant go, whatever fails.
use air_whatsbot.Common.{ℕ, ◌≡◌, String, Bool, Option, none, some, List, [], ◌∷◌, map, string_eq}
use air_whatsbot.Calls.Manager.State.{Jid}
use air_whatsbot.Dialogs.Listener.{Answer, assist_answers}
use air_whatsbot.Dialogs.Answering.{
  Target, Done, sends_answer, counts_send, tells_crm, counts_crm, sets_operator, counts_closed,
}

-- What WhatsApp is sent, and what the CRM is told.
unfoldable pub sent_out : List Done → List (Jid × Answer)
sent_out [] = []
sent_out (sends_answer jid a ∷ ds) = (jid, a) ∷ sent_out ds
sent_out (counts_send b ∷ ds) = sent_out ds
sent_out (tells_crm phone a ∷ ds) = sent_out ds
sent_out (counts_crm b ∷ ds) = sent_out ds
sent_out (sets_operator dialog ∷ ds) = sent_out ds
sent_out (counts_closed ∷ ds) = sent_out ds

unfoldable pub told_out : List Done → List (String × Answer)
told_out [] = []
told_out (sends_answer jid a ∷ ds) = told_out ds
told_out (counts_send b ∷ ds) = told_out ds
told_out (tells_crm phone a ∷ ds) = (phone, a) ∷ told_out ds
told_out (counts_crm b ∷ ds) = told_out ds
told_out (sets_operator dialog ∷ ds) = told_out ds
told_out (counts_closed ∷ ds) = told_out ds

module _ (taken told : ℕ → Bool) where
  -- Where the answers went.
  abbrev pub IsAnswered : Option Target → List Answer → List Done → Type 0
  IsAnswered none answers out = out ≡ []
  IsAnswered (some t) answers out =
      (sent_out out ≡ map (λ a. (t.jid, a)) (assist_answers answers))
      × (told_out out ≡ map (λ a. (t.phone, a)) (assist_answers answers))
