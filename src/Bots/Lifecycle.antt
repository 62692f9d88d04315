-- ===== src/Bots/Lifecycle.antt =====
-- `StartUserBot`, `stopUserBot`, `restartUserBot`, `processBotsState` and `createOrUpdateBot`. A `*Bot`
-- is a number in a heap of bots; `uBot` maps a user to one. Times that the code sleeps are left out.
use air_whatsbot.Common.{
  ℕ, suc, String, Bool, true, false, Option, none, some, List, [], ◌∷◌, ◌++◌, ◌⊎◌, inl, inr, nat_eq,
  string_eq, ◌==◌, nat_beq, not, if◌then◌else◌,
}
use air_whatsbot.Common.Map.{Map, lookup, insert, delete}
use air_whatsbot.Common.Int.{ℤ}
use air_whatsbot.Bots.Allowed.{uids_of}

-- Bot, as far as its life goes. The client of a bot is never nil.
pub record Bot : Type 0 where
  pub user_id : ℕ
  pub stopped : Bool
  pub cancelled : Bool  -- its context
  pub connected : Bool  -- not disconnected by the program
  pub voice_call : Bool
  pub text_message : Bool
  pub uids : List ℤ

-- User: its bots, and for whom the calls were stopped
pub record Users : Type 0 where
  pub bots : ℕ → Bot
  pub next_bot : ℕ
  pub u_bot : Map ℕ ℕ
  pub calls_stopped : List ℕ

-- devicestore.Store, as `initializeBot` reads it
pub record Container : Type 0 where
  pub call : Bool
  pub text : Bool
  pub uids : String

-- domain.WaUserBotData
pub record UserData : Type 0 where
  pub user_id : ℕ
  pub session_data : String
  pub enabled : Bool

-- What the database, the cipher and the parser of the token answer
pub record Answers (Err : Type 0) : Type 0 where
  pub get_wa_user : ℕ → Err ⊎ UserData
  pub check_user_subscription : ℕ → Option Err
  pub is_encrypted : String → Bool
  pub decrypt_session_data : ℕ → String → Err ⊎ String
  pub parse_container : ℕ → String → Err ⊎ Container

pub data BotError (Err : Type 0) : Type 0 where
  not_found : BotError Err
  already_running : BotError Err
  database_failed : Err → BotError Err
  bot_disabled : BotError Err
  subscription_failed : Err → BotError Err
  decryption_failed : Err → BotError Err
  token_failed : Err → BotError Err
  stop_failed : BotError Err → BotError Err

abbrev pub put_bot : ℕ → Bot → Users → Users
put_bot p b u = record u { bots = λ q. if nat_beq p q then b else u.bots q }

-- u.BotState(userID): whether there is a bot, and whether it is stopped
abbrev pub state_found : Users → Option ℕ → Bool × Bool
state_found u none = (false, false)
state_found u (some p) = (true, (u.bots p).stopped)

unfoldable pub bot_state : ℕ → Users → Bool × Bool
bot_state user u = state_found u (lookup user u.u_bot)

-- The bot that `initializeBot` makes
abbrev pub new_bot : ℕ → Container → Bot
new_bot user c = record {
  user_id = user;
  stopped = false;
  cancelled = false;
  connected = true;
  voice_call = c.call;
  text_message = c.text;
  uids = uids_of c.uids;
}

-- u.initializeBot(userID, tokenData, assist, true): it makes a bot and does not fail. What the
-- goroutine of the connection does later is `connect_failed`.
unfoldable pub initialize_bot : ℕ → Container → Users → ℕ × Users
initialize_bot user c u =
    (u.next_bot, record (put_bot u.next_bot (new_bot user c) u) { next_bot = suc u.next_bot })

-- The goroutine of the connection when `bot.Connect()` fails
unfoldable pub connect_failed : ℕ → Users → Users
connect_failed p u = put_bot p (record (u.bots p) { stopped = true }) u

-- b.resetSession()
unfoldable pub reset_session : ℕ → Users → Users
reset_session p u =
    record (put_bot p (record (u.bots p) { stopped = true; cancelled = true; connected = false })
      u) { calls_stopped = u.calls_stopped ++ (u.bots p).user_id ∷ [] }

abbrev pub cancel_found : Option ℕ → Users → Users
cancel_found none u = u
cancel_found (some p) u = put_bot p (record (u.bots p) { cancelled = true }) u

-- u.createOrUpdateBot(userID, containerData, assist)
unfoldable pub create_or_update_bot : ℕ → Container → Users → ℕ × Users
create_or_update_bot user c u = initialize_bot user c (cancel_found (lookup user u.u_bot) u)

-- u.uBot.Store(userId, bot)
abbrev pub keep_bot : ℕ → ℕ × Users → Users
keep_bot user (p, u) = record u { u_bot = insert user p u.u_bot }

abbrev pub stop_running : ℕ → ℕ → Users → Users
stop_running user p u =
    record (put_bot p (record (u.bots p) { stopped = true; cancelled = true; connected = false })
      u) { u_bot = delete user u.u_bot; calls_stopped = u.calls_stopped ++ (u.bots p).user_id ∷ [] }

module _ {Err : Type 0} where
  abbrev pub stop_found : ℕ → Option ℕ → Users → Option (BotError Err) × Users
  stop_found user none u = (some not_found, u)
  stop_found user (some p) u =
      if (u.bots p).stopped then (none, u) else (none, stop_running user p u)

  -- u.stopUserBot(userId)
  unfoldable pub stop_user_bot : ℕ → Users → Option (BotError Err) × Users
  stop_user_bot user u = stop_found user (lookup user u.u_bot) u

module _ {Err : Type 0} (answers : Answers Err) where
  open answers use {
    get_wa_user, check_user_subscription, is_encrypted, decrypt_session_data, parse_container,
  }

  abbrev pub decryption : Err ⊎ String → BotError Err ⊎ String
  decryption (inl e) = inl (decryption_failed e)
  decryption (inr text) = inr text

  -- The session data, decrypted if they are encrypted
  abbrev pub plain_session : UserData → BotError Err ⊎ String
  plain_session data' =
      if is_encrypted data'.session_data
      then decryption (decrypt_session_data data'.user_id data'.session_data)
      else inr data'.session_data

  abbrev pub token : Err ⊎ Container → BotError Err ⊎ Container
  token (inl e) = inl (token_failed e)
  token (inr c) = inr c

  abbrev pub container_of : ℕ → BotError Err ⊎ String → BotError Err ⊎ Container
  container_of user (inl e) = inl e
  container_of user (inr session) = token (parse_container user session)

  abbrev pub started : ℕ → BotError Err ⊎ Container → Users → Option (BotError Err) × Users
  started user (inl e) u = (some e, u)
  started user (inr c) u = (none, keep_bot user (initialize_bot user c u))

  abbrev pub start_subscribed : UserData → Option Err → Users → Option (BotError Err) × Users
  start_subscribed d (some e) u = (some (subscription_failed e), u)
  start_subscribed d none u = started d.user_id (container_of d.user_id (plain_session d)) u

  abbrev pub start_data : ℕ → Err ⊎ UserData → Users → Option (BotError Err) × Users
  start_data user (inl e) u = (some (database_failed e), u)
  start_data user (inr d) u =
      if not d.enabled
      then (some bot_disabled, u)
      else start_subscribed d (check_user_subscription user) u

  abbrev pub start_found : ℕ → Option ℕ → Users → Option (BotError Err) × Users
  start_found user (some p) u = (some already_running, u)
  start_found user none u = start_data user (get_wa_user user) u

  -- u.StartUserBot(userId)
  unfoldable pub start_user_bot : ℕ → Users → Option (BotError Err) × Users
  start_user_bot user u = start_found user (lookup user u.u_bot) u

  abbrev pub updated : ℕ → BotError Err ⊎ Container → Users → Option (BotError Err) × Users
  updated user (inl e) u = (some e, u)
  updated user (inr c) u = (none, keep_bot user (create_or_update_bot user c u))

  abbrev pub restart_subscribed :
      UserData → String → Option Err → Users → Option (BotError Err) × Users
  restart_subscribed d session (some e) u = (some (subscription_failed e), u)
  restart_subscribed d session none u = updated d.user_id (container_of d.user_id (inr session)) u

  abbrev pub after_stop :
      UserData → String → ℕ → Option (BotError Err) × Users → Option (BotError Err) × Users
  after_stop d session user (some e, u) = (some (stop_failed e), u)
  after_stop d session user (none, u) =
      restart_subscribed d session (check_user_subscription user) u

  -- `if _, exists := u.uBot.Load(userId); exists { … u.stopUserBot(userId) … }`
  abbrev pub stop_if_there : ℕ → Option ℕ → Users → Option (BotError Err) × Users
  stop_if_there user none u = (none, u)
  stop_if_there user (some p) u = stop_user_bot user u

  abbrev pub after_disabled : Option (BotError Err) × Users → Option (BotError Err) × Users
  after_disabled (some e, u) = (some (stop_failed e), u)
  after_disabled (none, u) = (some bot_disabled, u)

  abbrev pub restart_plain :
      ℕ → UserData → BotError Err ⊎ String → Users → Option (BotError Err) × Users
  restart_plain user d (inl e) u = (some e, u)
  restart_plain user d (inr session) u =
      if not d.enabled
      then after_disabled (stop_if_there user (lookup user u.u_bot) u)
      else after_stop d session user (stop_if_there user (lookup user u.u_bot) u)

  abbrev pub restart_data : ℕ → Err ⊎ UserData → Users → Option (BotError Err) × Users
  restart_data user (inl e) u = (some (database_failed e), u)
  restart_data user (inr d) u = restart_plain user d (plain_session d) u

  -- u.restartUserBot(userId)
  unfoldable pub restart_user_bot : ℕ → Users → Option (BotError Err) × Users
  restart_user_bot user u = restart_data user (get_wa_user user) u

  abbrev pub process_container : ℕ → BotError Err ⊎ Container → Users → Users
  process_container user (inl e) u = u
  process_container user (inr c) u = keep_bot user (create_or_update_bot user c u)

  abbrev pub process_subscribed : UserData → Option Err → Users → Users
  process_subscribed d (some e) u = u
  process_subscribed d none u =
      process_container d.user_id (container_of d.user_id (plain_session d)) u

  abbrev pub process_one : UserData → Users → Users
  process_one d u =
      if d.session_data == "" then u else process_subscribed d (check_user_subscription d.user_id) u

  -- u.processBotsState(userDetails)
  unfoldable pub process_bots_state : List UserData → Users → Users
  process_bots_state [] u = u
  process_bots_state (d ∷ ds) u = process_bots_state ds (process_one d u)
