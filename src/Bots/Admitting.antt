-- ===== src/Bots/Admitting.antt =====
-- Which errors `StartUserBot` can give a user with no bot.
use air_whatsbot.Common.{
  ℕ, ◌≡◌, ◌≢◌, refl, ap, sym, subst, String, Bool, true, false, not, Option, none, some, ◌⊎◌, inl,
  inr, nat_eq, if◌then◌else◌,
}
use air_whatsbot.Common.Map.{lookup}
use air_whatsbot.Bots.Lifecycle.{
  Users, UserData, Container, Answers, BotError, not_found, already_running, database_failed,
  bot_disabled, subscription_failed, decryption_failed, token_failed, stop_failed, token,
  decryption, container_of, started, start_subscribed, start_data, start_found, start_user_bot,
}

-- Is the start refused because a bot is running?
abbrev is_busy : {Err : Type 0} → Option (BotError Err) → Bool
is_busy none = false
is_busy (some already_running) = true
is_busy (some not_found) = false
is_busy (some bot_disabled) = false
is_busy (some (database_failed e)) = false
is_busy (some (subscription_failed e)) = false
is_busy (some (decryption_failed e)) = false
is_busy (some (token_failed e)) = false
is_busy (some (stop_failed e)) = false

module _ {Err : Type 0} (answers : Answers Err) where
  token-admits :
      (id user : ℕ) (r : Err ⊎ Container) (u : Users)
      → is_busy (started answers id (token answers r) u).0 ≡ false
  token-admits id user (inl e) u = refl
  token-admits id user (inr c) u = refl

  decrypted-admits :
      (id user : ℕ) (r : Err ⊎ String) (u : Users)
      → is_busy (started answers id (container_of answers user (decryption answers r)) u).0 ≡ false
  decrypted-admits id user (inl e) u = refl
  decrypted-admits id user (inr s) u = token-admits id user (answers.parse_container user s) u

  plain-admits :
      (d : UserData) (b : Bool) (u : Users)
      → is_busy
          (started answers d.user_id
            (container_of answers d.user_id (
              if b
              then decryption answers (answers.decrypt_session_data d.user_id d.session_data)
              else inr d.session_data))
            u).0
        ≡ false
  plain-admits d true u = decrypted-admits d.user_id d.user_id _ u
  plain-admits d false u = token-admits d.user_id d.user_id _ u

  subscribed-admits :
      (d : UserData) (o : Option Err) (u : Users)
      → is_busy (start_subscribed answers d o u).0 ≡ false
  subscribed-admits d (some e) u = refl
  subscribed-admits d none u = plain-admits d (answers.is_encrypted d.session_data) u

  enabled-admits :
      (user : ℕ) (d : UserData) (b : Bool) (u : Users)
      → is_busy
          (if b
            then (some bot_disabled, u)
            else start_subscribed answers d (answers.check_user_subscription user) u).0
        ≡ false
  enabled-admits user d true u = refl
  enabled-admits user d false u = subscribed-admits d (answers.check_user_subscription user) u

  data-admits :
      (user : ℕ) (r : Err ⊎ UserData) (u : Users) → is_busy (start_data answers user r u).0 ≡ false
  data-admits user (inl e) u = refl
  data-admits user (inr d) u = enabled-admits user d (not d.enabled) u

  -- A user with no bot is not refused because a bot is running.
  pub start_user_bot-admits :
      (user : ℕ) (u : Users)
      → lookup user u.u_bot ≡ none
      → (start_user_bot answers user u).0 ≢ some already_running
  unfolding start_user_bot
  start_user_bot-admits user u a h =
      let free : is_busy (start_found answers user (lookup user u.u_bot) u).0 ≡ false =
        subst (λ o. is_busy (start_found answers user o u).0 ≡ false) (sym a)
          (data-admits user (answers.get_wa_user user) u) in
      let busy : is_busy (start_found answers user (lookup user u.u_bot) u).0 ≡ true =
        ap is_busy h in
      cc
