-- ===== src/Servers/Http.antt =====
-- `ReadUID` of internal/whatsapp/handlers/uid.go, and the HTTP handlers of
-- internal/whatsapp/handlers/handler.go over the map of bots.
use air_whatsbot.Common.{
  ℕ, String, Bool, true, false, Option, none, some, List, [], ◌∷◌, ◌⊎◌, inl, inr, nat_beq,
  if◌then◌else◌,
}
use air_whatsbot.Common.Decimal.{parse_uint}
use air_whatsbot.Bots.Lifecycle.{
  Users, Answers, BotError, start_user_bot, stop_user_bot, restart_user_bot,
}
use air_whatsbot.Facade.Starting.{get_bot_username}

pub data UidError : Type 0 where
  uid_required invalid_uid : UidError

abbrev pub positive_uid : Option ℕ → UidError ⊎ ℕ
positive_uid none = inl invalid_uid
positive_uid (some uid) = if nat_beq uid 0 then inl invalid_uid else inr uid

-- ReadUID(w, r), over the bytes of the query parameter
unfoldable pub read_uid : List ℕ → UidError ⊎ ℕ
read_uid [] = inl uid_required
read_uid (c ∷ cs) = positive_uid (parse_uint 32 (c ∷ cs))

pub data Method : Type 0 where
  options get other_method : Method

pub record Request : Type 0 where
  pub method : Method
  pub uid : List ℕ

pub data Body : Type 0 where
  empty : Body
  not_allowed : Body
  bad_uid : UidError → Body
  bot_name : String → Body
  failed_to_start bot_started : Body
  failed_to_stop bot_stopped : Body
  failed_to_reload bot_reloaded reload_in_progress : Body

-- The status and the body
abbrev pub Response : Type 0
Response = ℕ × Body

module _ (act : ℕ → Users → Response × Users) (users : Users) where
  abbrev pub with_uid : UidError ⊎ ℕ → Response × Users
  with_uid (inl e) = ((400, bad_uid e), users)
  with_uid (inr uid) = act uid users

  -- The guards that the handlers begin with
  abbrev pub guarded : Method → List ℕ → Response × Users
  guarded options uid = ((200, empty), users)
  guarded other_method uid = ((405, not_allowed), users)
  guarded get uid = with_uid (read_uid uid)

module _ {Err : Type 0} (answers : Answers Err) where
  abbrev pub answered : Response → Response → Option (BotError Err) × Users → Response × Users
  answered good bad (none, users) = (good, users)
  answered good bad (some e, users) = (bad, users)

  abbrev pub start_response : ℕ → Users → Response × Users
  start_response uid users =
      answered (200, bot_started) (500, failed_to_start) (start_user_bot answers uid users)

  -- h.StartBotHTTP(w, r)
  unfoldable pub start_bot_http : Request → Users → Response × Users
  start_bot_http r users = guarded start_response users r.method r.uid

  abbrev pub stop_response : ℕ → Users → Response × Users
  stop_response uid users =
      answered (200, bot_stopped) (500, failed_to_stop) (stop_user_bot uid users)

  -- h.StopBotHTTP(w, r)
  unfoldable pub stop_bot_http : Request → Users → Response × Users
  stop_bot_http r users = guarded stop_response users r.method r.uid

  abbrev pub in_time : Bool → Response × Users → Response × Users
  in_time true out = out
  in_time false (response, users) = ((200, reload_in_progress), users)

  -- The restart goes on when its answer does not come within five seconds
  abbrev pub restart_response : Bool → ℕ → Users → Response × Users
  restart_response on_time uid users =
      in_time on_time
        (answered (200, bot_reloaded) (500, failed_to_reload) (restart_user_bot answers uid users))

  -- h.RestartBot(w, r), with the users after the restart
  unfoldable pub restart_bot : Bool → Request → Users → Response × Users
  restart_bot on_time r users = guarded (restart_response on_time) users r.method r.uid

abbrev pub name_response : (ℕ → Option String) → ℕ → Users → Response × Users
name_response own_id uid users = ((200, bot_name (get_bot_username own_id uid users)), users)

-- h.GetBotName(w, r)
unfoldable pub get_bot_name : (ℕ → Option String) → Request → Users → Response × Users
get_bot_name own_id r users = guarded (name_response own_id) users r.method r.uid
