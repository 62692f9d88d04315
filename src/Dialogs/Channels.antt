-- ===== src/Dialogs/Channels.antt =====
-- `validateResponder`, `dialogIDForUser` and `initUserChannels`.
use air_whatsbot.Common.{
  ℕ, Bool, true, false, Option, none, some, List, [], ◌∷◌, ◌++◌, ◌⊎◌, inl, inr, nat_beq, not,
  if◌then◌else◌,
}

pub data ChannelError (Err : Type 0) : Type 0 where
  invalid_user : ChannelError Err
  invalid_sender : ChannelError Err
  no_resolver : ChannelError Err
  no_model : ChannelError Err
  no_assistant : ChannelError Err
  dialog_failed : Err → ChannelError Err
  model_failed : Err → ChannelError Err
  channel_failed : Err → ChannelError Err
  start_failed : Err → ChannelError Err

-- What the database and the model answer. `none` for an error is nil.
pub record Provider (Err : Type 0) : Type 0 where
  pub resolver : Bool  -- db is not nil
  pub model : Bool  -- mod is not nil
  pub assistant : Bool  -- assist is not nil
  pub dialog_id : Err ⊎ ℕ  -- GetOrSetTreadAndResponder
  pub existing_ch : Err ⊎ Bool  -- the first GetCh: whether its Rx is open
  pub resp_model : Option Err  -- GetOrSetRespGPT
  pub user_ch : Option Err  -- the second GetCh
  pub is_empty_data : Err → Bool  -- the text of the error contains "получены пустые данные"
  pub on_listen : Bool  -- onListen is not nil
  pub on_start : Option (Option Err)  -- onStart: `none` where it is nil

-- What it does, in order
pub data Action : Type 0 where
  cleans_dialog : ℕ → Action
  listens : ℕ → Action  -- onListen, with the sender
  starts : ℕ → ℕ → Action  -- onStart, with the dialogue and the sender

-- validateResponder(userID, senderID)
unfoldable pub validate_responder : {Err : Type 0} → ℕ → ℕ → Option (ChannelError Err)
validate_responder user sender =
    if nat_beq user 0
    then some invalid_user
    else if nat_beq sender 0
    then some invalid_sender
    else none

abbrev start_actions {ℓ} : {Err : Type ℓ} → ℕ → ℕ → Option (Option Err) → List Action
start_actions id sender none = []
start_actions id sender (some o) = starts id sender ∷ []

-- The two callbacks, where they are given
abbrev pub begin_actions {ℓ} : {Err : Type ℓ} → ℕ → ℕ → Bool → Option (Option Err) → List Action
begin_actions id sender false start = start_actions id sender start
begin_actions id sender true start = listens sender ∷ start_actions id sender start

module _ {Err : Type 0} (provider : Provider Err) where
  open provider use {
    resolver, model, assistant, dialog_id, existing_ch, resp_model, user_ch, is_empty_data,
    on_listen, on_start,
  }

  abbrev dialog : Err ⊎ ℕ → ChannelError Err ⊎ ℕ
  dialog (inl e) = inl (dialog_failed e)
  dialog (inr id) = inr id

  -- dialogIDForUser(userID, senderID, senderName, db)
  unfoldable pub dialog_id_for_user : ℕ → ℕ → ChannelError Err ⊎ ℕ
  dialog_id_for_user user sender =
      if nat_beq user 0
      then inl invalid_user
      else if nat_beq sender 0
      then inl invalid_sender
      else if not resolver
      then inl no_resolver
      else dialog dialog_id

  -- An error that is not about empty data
  abbrev pub serious : Option Err → Option Err
  serious none = none
  serious (some e) = if is_empty_data e then none else some e

  abbrev pub start_answer : Option (Option Err) → Option (ChannelError Err)
  start_answer none = none
  start_answer (some none) = none
  start_answer (some (some e)) = some (start_failed e)

  abbrev pub begin_dialog : ℕ → ℕ → List Action → Option (ChannelError Err) × List Action
  begin_dialog id sender before =
      (start_answer on_start, before ++ begin_actions id sender on_listen on_start)

  abbrev pub with_channel :
      ℕ → ℕ → List Action → Option Err → Option (ChannelError Err) × List Action
  with_channel id sender before (some e) = (some (channel_failed e), before)
  with_channel id sender before none = begin_dialog id sender before

  abbrev pub with_model : ℕ → ℕ → List Action → Option Err → Option (ChannelError Err) × List Action
  with_model id sender before (some e) = (some (model_failed e), before)
  with_model id sender before none = with_channel id sender before (serious user_ch)

  abbrev pub with_existing : ℕ → ℕ → Err ⊎ Bool → Option (ChannelError Err) × List Action
  with_existing id sender (inl e) = with_model id sender [] (serious resp_model)
  with_existing id sender (inr true) = (none, [])
  with_existing id sender (inr false) =
      with_model id sender (cleans_dialog id ∷ []) (serious resp_model)

  abbrev pub with_dialog : ℕ → ChannelError Err ⊎ ℕ → Option (ChannelError Err) × List Action
  with_dialog sender (inl e) = (some e, [])
  with_dialog sender (inr id) = with_existing id sender existing_ch

  abbrev pub channel_guard : ℕ → ℕ → Option (ChannelError Err)
  channel_guard user sender =
      if nat_beq user 0
      then some invalid_user
      else if nat_beq sender 0
      then some invalid_sender
      else if not resolver
      then some no_resolver
      else if not model
      then some no_model
      else if not assistant
      then some no_assistant
      else none

  abbrev pub past_guard :
      ℕ → ℕ → Option (ChannelError Err) → Option (ChannelError Err) × List Action
  past_guard user sender (some e) = (some e, [])
  past_guard user sender none = with_dialog sender (dialog_id_for_user user sender)

  -- initUserChannels(…), by what the database, the model and the callbacks answer
  unfoldable pub init_user_channels : ℕ → ℕ → Option (ChannelError Err) × List Action
  init_user_channels user sender = past_guard user sender (channel_guard user sender)
