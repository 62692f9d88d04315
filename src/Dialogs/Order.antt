-- ===== src/Dialogs/Order.antt =====
-- In which order a dialogue begins, and that it begins at most once.
use air_whatsbot.Common.{
  ℕ, suc, ◌≤◌, ◌≡◌, refl, ap, Bool, true, false, Option, none, some, List, [], ◌∷◌, ◌++◌, ◌⊎◌, inl,
  inr, arith,
}
use air_whatsbot.Dialogs.Channels.{
  ChannelError, Provider, Action, cleans_dialog, listens, starts, begin_actions, with_channel,
  with_model, with_existing, with_dialog, past_guard, channel_guard, dialog_id_for_user, serious,
  init_user_channels,
}

-- How often the core is started.
unfoldable pub start_count : List Action → ℕ
start_count [] = 0
start_count (starts id sender ∷ actions) = suc (start_count actions)
start_count (cleans_dialog id ∷ actions) = start_count actions
start_count (listens sender ∷ actions) = start_count actions

-- The place of an action: the old dialogue is cleaned, then the answers are listened to, then the
-- core is started.
abbrev pub rank : Action → ℕ
rank (cleans_dialog id) = 1
rank (listens sender) = 2
rank (starts id sender) = 3

-- The actions come by their places, from a place on.
abbrev pub IsRanked : ℕ → List Action → Type 0
IsRanked n [] = Unit
IsRanked n (a ∷ actions) = (suc n ≤ rank a) × IsRanked (rank a) actions

abbrev pub Begins : List Action → Type 0
Begins actions = (start_count actions ≤ 1) × IsRanked 0 actions

module _ {Err : Type 0} (provider : Provider Err) where
  begin-fresh :
      (id sender : ℕ) (listen : Bool) (start : Option (Option Err))
      → Begins ([] ++ begin_actions id sender listen start)
  unfolding start_count
  begin-fresh id sender false none = (omega arith, tt)
  begin-fresh id sender false (some o) = (omega arith, (omega arith, tt))
  begin-fresh id sender true none = (omega arith, (omega arith, tt))
  begin-fresh id sender true (some o) = (omega arith, (omega arith, (omega arith, tt)))

  begin-cleaned :
      (id sender : ℕ) (listen : Bool) (start : Option (Option Err))
      → Begins ((cleans_dialog id ∷ []) ++ begin_actions id sender listen start)
  unfolding start_count
  begin-cleaned id sender false none = (omega arith, (omega arith, tt))
  begin-cleaned id sender false (some o) = (omega arith, (omega arith, (omega arith, tt)))
  begin-cleaned id sender true none = (omega arith, (omega arith, (omega arith, tt)))
  begin-cleaned id sender true (some o) =
      (omega arith, (omega arith, (omega arith, (omega arith, tt))))

  channel-Begins :
      (id sender : ℕ) (before : List Action) (o : Option Err)
      → Begins before
      → Begins (before ++ begin_actions id sender provider.on_listen provider.on_start)
      → Begins (with_channel provider id sender before o).1
  channel-Begins id sender before (some e) b g = b
  channel-Begins id sender before none b g = g

  model-Begins :
      (id sender : ℕ) (before : List Action) (o : Option Err)
      → Begins before
      → Begins (before ++ begin_actions id sender provider.on_listen provider.on_start)
      → Begins (with_model provider id sender before o).1
  model-Begins id sender before (some e) b g = b
  model-Begins id sender before none b g =
      channel-Begins id sender before (serious provider provider.user_ch) b g

  existing-Begins : (id sender : ℕ) (r : Err ⊎ Bool) → Begins (with_existing provider id sender r).1
  unfolding start_count
  existing-Begins id sender (inl e) =
      model-Begins id sender [] _ (omega arith, tt)
        (begin-fresh id sender provider.on_listen provider.on_start)
  existing-Begins id sender (inr true) = (omega arith, tt)
  existing-Begins id sender (inr false) =
      model-Begins id sender (cleans_dialog id ∷ []) _ (omega arith, (omega arith, tt))
        (begin-cleaned id sender provider.on_listen provider.on_start)

  dialog-Begins : (sender : ℕ) (r : ChannelError Err ⊎ ℕ) → Begins (with_dialog provider sender r).1
  unfolding start_count
  dialog-Begins sender (inl e) = (omega arith, tt)
  dialog-Begins sender (inr id) = existing-Begins id sender provider.existing_ch

  guard-Begins :
      (user sender : ℕ) (o : Option (ChannelError Err))
      → Begins (past_guard provider user sender o).1
  unfolding start_count
  guard-Begins user sender (some e) = (omega arith, tt)
  guard-Begins user sender none = dialog-Begins sender _

  open-channel :
      (user sender : ℕ)
      → provider.existing_ch ≡ inr true
      → (o : Option (ChannelError Err)) → (past_guard provider user sender o).1 ≡ []
  open-channel user sender e (some x) = refl
  open-channel user sender e none = nothing (dialog_id_for_user provider user sender)
    where
      nothing : (r : ChannelError Err ⊎ ℕ) → (with_dialog provider sender r).1 ≡ []
      nothing (inl x) = refl
      nothing (inr id) = ap (λ x. (with_existing provider id sender x).1) e

  -- Whatever the database and the model answer, a dialogue starts the core at most once; the old
  -- dialogue is cleaned before the answers are listened to, and they are listened to before the core
  -- is started, as far as these things are done; and if the sender has an open channel, nothing is.
  init_user_channels_lem :
      (user sender : ℕ)
      → Begins (init_user_channels provider user sender).1
        × (provider.existing_ch ≡ inr true → (init_user_channels provider user sender).1 ≡ [])
  unfolding init_user_channels
  init_user_channels_lem user sender = (
    guard-Begins user sender (channel_guard provider user sender),
    λ e. open-channel user sender e (channel_guard provider user sender),
  )
