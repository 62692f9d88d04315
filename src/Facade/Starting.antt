-- ===== src/Facade/Starting.antt =====
-- `StartBots` of internal/whatsapp/whatsapp.go, and `GetWaUserBotUsers` and `GetBotUsername` of
-- internal/whatsapp/user_bots.go.
use air_whatsbot.Common.{
  ℕ, String, Bool, true, false, Option, none, some, List, ◌⊎◌, inl, inr, nat_eq,
}
use air_whatsbot.Common.Map.{lookup}
use air_whatsbot.Bots.Lifecycle.{Users, UserData, Answers, process_bots_state}

abbrev pub id_or_empty : Option String → String
id_or_empty none = ""
id_or_empty (some id) = id

-- The texts of the clients' own IDs; `none` is no client, or a client with no ID
abbrev pub ids_found : (ℕ → Option String) → Option ℕ → String
ids_found own_id none = ""
ids_found own_id (some p) = id_or_empty (own_id p)

-- u.GetBotUsername(userID)
unfoldable pub get_bot_username : (ℕ → Option String) → ℕ → Users → String
get_bot_username own_id user users = ids_found own_id (lookup user users.u_bot)

module _ {Err : Type 0} (answers : Answers Err) where
  -- u.GetWaUserBotUsers(), with what the database answers; an empty list changes nothing
  unfoldable pub get_wa_user_bot_users : Err ⊎ List UserData → Users → Option Err × Users
  get_wa_user_bot_users (inl e) users = (some e, users)
  get_wa_user_bot_users (inr details) users = (none, process_bots_state answers details users)

  -- Whether the web server is started, with the error and the users
  abbrev pub serve : Option Err × Users → Bool × Option Err × Users
  serve (some e, users) = (false, some e, users)
  serve (none, users) = (true, none, users)

  -- u.StartBots()
  unfoldable pub start_bots : Err ⊎ List UserData → Users → Bool × Option Err × Users
  start_bots listed users = serve (get_wa_user_bot_users listed users)
