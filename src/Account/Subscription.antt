-- ===== src/Account/Subscription.antt =====
-- `checkUserSubscription` of internal/whatsapp/user_subscription.go.
use air_whatsbot.Common.{ℕ, ◌≡◌, ◌↔◌, refl, Bool, true, false, Option, none, some, List, [], ◌∷◌}

-- What com.CheckUserSubscription answers: no error, a subscription error with its code, another error.
pub data Check (Err : Type 0) : Type 0 where
  subscribed : Check Err
  expired : ℕ → Check Err
  check_failed : Err → Check Err

pub data SubscriptionError (Err : Type 0) : Type 0 where
  notification_failed : Err → SubscriptionError Err
  disable_failed : Err → SubscriptionError Err
  not_subscribed : ℕ → SubscriptionError Err
  unknown_check : Err → SubscriptionError Err

-- What it does: the notification with its code, and the channels switched off.
pub data Action : Type 0 where
  notifies_code : ℕ → Action
  disables_channels : Action

-- Whether the channels are switched off.
abbrev pub disables : List Action → Bool
disables [] = false
disables (notifies_code code ∷ actions) = disables actions
disables (disables_channels ∷ actions) = true

module _ {Err : Type 0} where
  abbrev disable_answer : ℕ → Option Err → Option (SubscriptionError Err)
  disable_answer code none = some (not_subscribed code)
  disable_answer code (some e) = some (disable_failed e)

  abbrev notify_answer : ℕ → Option Err → Option Err → Option (SubscriptionError Err) × List Action
  notify_answer code (some e) disable_err = (some (notification_failed e), notifies_code code ∷ [])
  notify_answer code none disable_err =
      (disable_answer code disable_err, notifies_code code ∷ disables_channels ∷ [])

  -- u.checkUserSubscription(userId), by what the check, SendNotification and DisableAllUserChannel
  -- answer
  unfoldable pub check_user_subscription :
      Check Err → Option Err → Option Err → Option (SubscriptionError Err) × List Action
  check_user_subscription subscribed notify_err disable_err = (none, [])
  check_user_subscription (expired code) notify_err disable_err =
      notify_answer code notify_err disable_err
  check_user_subscription (check_failed e) notify_err disable_err = (some (unknown_check e), [])

  -- The check answers no error exactly if the subscription is there; then nothing is sent or switched
  -- off, and the channels are switched off only for an expired subscription whose notification was
  -- sent.
  check_user_subscription_lem :
      (c : Check Err) (notify_err disable_err : Option Err)
      → (((check_user_subscription c notify_err disable_err).0 ≡ none) ↔ (c ≡ subscribed))
        × (c ≡ subscribed → (check_user_subscription c notify_err disable_err).1 ≡ [])
        × (disables (check_user_subscription c notify_err disable_err).1 ≡ true
            → (notify_err ≡ none) × ((code : ℕ) × (c ≡ expired code)))
  unfolding check_user_subscription
  check_user_subscription_lem subscribed notify_err disable_err =
      (((λ h. refl), (λ h. refl)), (λ h. refl), λ h. absurd cc)
  check_user_subscription_lem (expired code) none none =
      (((λ h. absurd cc), (λ h. absurd cc)), (λ h. absurd cc), λ h. (refl, (code, refl)))
  check_user_subscription_lem (expired code) none (some e) =
      (((λ h. absurd cc), (λ h. absurd cc)), (λ h. absurd cc), λ h. (refl, (code, refl)))
  check_user_subscription_lem (expired code) (some e) disable_err =
      (((λ h. absurd cc), (λ h. absurd cc)), (λ h. absurd cc), λ h. absurd cc)
  check_user_subscription_lem (check_failed e) notify_err disable_err =
      (((λ h. absurd cc), (λ h. absurd cc)), (λ h. absurd cc), λ h. absurd cc)
