-- ===== src/Incoming/Effects.antt =====
-- What the handling of a message does, in order, and what it reads of one.
use air_whatsbot.Common.{ℕ, ◌+◌, String, Bool, List, [], ◌∷◌}
use air_whatsbot.Messages.{Event}

-- events.Message with its alternative sender and the name of the sender
pub record Incoming : Type 0 where
  pub event : Event
  pub alt_user : String  -- Info.MessageSource.SenderAlt.User
  pub alt_text : String  -- Info.MessageSource.SenderAlt.String()
  pub push_name : String

-- messages.MessageContent
pub record MessageContent : Type 0 where
  pub text : String
  pub voice : Bool
  pub first : Bool

-- A message to the CRM
pub record CrmMessage : Type 0 where
  pub name : String
  pub text : String
  pub phone : String
  pub new_dialog : Bool
  pub voice : Bool
  pub files : List String

-- A message to the assistant
pub record UserMessage : Type 0 where
  pub set_operator : Bool
  pub name : String
  pub text : String
  pub files : List String

pub data Effect : Type 0 where
  first_contact : ℕ → String → Effect  -- go sendFirstContactMessage(sender, name)
  makes_channels : ℕ → String → Effect  -- initializeUserChannels(sender, name)
  reads : String → Effect  -- the goroutine that sets the presence and marks the message as read
  types : ℕ → Effect  -- go setTyping(sender)
  tells_crm : CrmMessage → Effect
  delivers : ℕ → UserMessage → Effect  -- SendToRx that took the message, with the dialogue
  is_refused : ℕ → UserMessage → Effect  -- SendToRx that failed
  reauthorises : String → Effect  -- triggerReauth(reason)

-- How often the assistant got a message, and how often the CRM was told of one.
unfoldable pub delivered : List Effect → ℕ
delivered [] = 0
delivered (delivers id m ∷ es) = 1 + delivered es
delivered (first_contact s n ∷ es) = delivered es
delivered (makes_channels s n ∷ es) = delivered es
delivered (reads i ∷ es) = delivered es
delivered (types s ∷ es) = delivered es
delivered (tells_crm m ∷ es) = delivered es
delivered (is_refused id m ∷ es) = delivered es
delivered (reauthorises r ∷ es) = delivered es

unfoldable pub told : List Effect → ℕ
told [] = 0
told (tells_crm m ∷ es) = 1 + told es
told (first_contact s n ∷ es) = told es
told (makes_channels s n ∷ es) = told es
told (reads i ∷ es) = told es
told (types s ∷ es) = told es
told (delivers id m ∷ es) = told es
told (is_refused id m ∷ es) = told es
told (reauthorises r ∷ es) = told es

-- How often the channels of the sender were made.
unfoldable pub made : List Effect → ℕ
made [] = 0
made (makes_channels s n ∷ es) = 1 + made es
made (first_contact s n ∷ es) = made es
made (reads i ∷ es) = made es
made (types s ∷ es) = made es
made (tells_crm m ∷ es) = made es
made (delivers id m ∷ es) = made es
made (is_refused id m ∷ es) = made es
made (reauthorises r ∷ es) = made es

-- How often the assistant was tried before the CRM was told.
unfoldable pub early : List Effect → ℕ
early [] = 0
early (tells_crm m ∷ es) = 0
early (delivers id m ∷ es) = 1 + early es
early (is_refused id m ∷ es) = 1 + early es
early (first_contact s n ∷ es) = early es
early (makes_channels s n ∷ es) = early es
early (reads i ∷ es) = early es
early (types s ∷ es) = early es
early (reauthorises r ∷ es) = early es
