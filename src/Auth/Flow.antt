-- ===== src/Auth/Flow.antt =====
-- `AuthenticateWithQR` of internal/whatsapp/auth/flow.go, with `EnsureAuthBot` and `DeleteBot` of
-- internal/whatsapp/user_auth.go. The payloads of the errors are left out; a send to the channel of the
-- states that is full drops the state and is not modelled.
use air_whatsbot.Common.{
  ℕ, String, Bool, true, false, Option, none, some, List, [], ◌∷◌, ◌++◌, ◌⊎◌, inl, inr, nat_eq,
  string_eq, ◌==◌, if◌then◌else◌,
}
use air_whatsbot.Common.Map.{lookup, delete}
use air_whatsbot.Bots.Lifecycle.{
  Users, UserData, Container, Answers, BotError, initialize_bot, keep_bot, start_user_bot,
}

-- What comes from the QR channel
pub data QrEvent : Type 0 where
  code : String → QrEvent
  timeout : QrEvent
  qr_error : QrEvent
  success : QrEvent
  other : QrEvent

pub data FlowState : Type 0 where
  shows_code : String → FlowState
  scanned : FlowState  -- "qr-success"
  succeeded : FlowState
  failed : FlowState

pub data Effect : Type 0 where
  sends : FlowState → Effect
  prepares : ℕ → Effect  -- PrepareReauth of the bot
  saves : ℕ → Effect  -- SaveJSON of the device
  enables : ℕ → Effect  -- SetAuthSettings(true, true)
  disconnects : Effect

pub data FlowError (Err : Type 0) : Type 0 where
  no_store : Err → FlowError Err
  no_client : FlowError Err
  no_qr_channel : Err → FlowError Err
  no_connection : Err → FlowError Err
  no_code : FlowError Err
  not_scanned : FlowError Err
  qr_failed : FlowError Err
  not_logged_in : FlowError Err
  expired : FlowError Err
  not_started : BotError Err → FlowError Err

-- What client.Connect answers; not being logged in is no error here
pub data Connected (Err : Type 0) : Type 0 where
  connected : Connected Err
  connect_not_logged_in : Connected Err
  connect_failed : Err → Connected Err

-- What the goroutine of the success finds, if it has run when the select takes a case
pub data Verdict : Type 0 where
  waits : Verdict
  logged_in : Verdict
  logged_out : Verdict

pub record FlowAnswers (Err : Type 0) : Type 0 where
  pub new_store : Option Err  -- devicestore.New
  pub wa_user : Option UserData  -- GetWaUser; `none` is nil or an error
  pub decrypt : String → Err ⊎ String
  pub token_settings : String → Option Container  -- json.Unmarshal
  pub has_client : Bool
  pub has_id : Bool  -- client.Store.ID is not nil
  pub qr_channel : Option Err
  pub connect : Connected Err
  pub events : List QrEvent  -- until the channel is closed
  pub verdict : Verdict
  pub takes_timeout : Bool  -- the select takes authCtx.Done()
  pub still_logged_in : Bool
  pub bots : Answers Err  -- for StartUserBot

-- A new store has no settings
abbrev pub no_settings : Container
no_settings = record { call = false; text = false; uids = "" }

abbrev pub settings_or : Option Container → Container
settings_or none = no_settings
settings_or (some c) = c

abbrev pub Outcome : Type 0 → Type 0
Outcome Err = (List Effect × Option (FlowError Err)) × Users

module _ {Err : Type 0} where
  -- The data as they are, where they cannot be decrypted
  abbrev pub raw_session : String → Err ⊎ String → String
  raw_session raw (inl e) = raw
  raw_session raw (inr text) = text

  -- The effects before an outcome
  abbrev pub after : List Effect → Outcome Err → Outcome Err
  after es ((fs, e), users) = ((es ++ fs, e), users)

  abbrev pub fails : FlowError Err → Users → Outcome Err
  fails e users = ((sends failed ∷ disconnects ∷ [], some e), users)

  abbrev pub started_error : Option (BotError Err) → Option (FlowError Err)
  started_error none = none
  started_error (some e) = some (not_started e)

module _ {Err : Type 0} (answers : FlowAnswers Err) where
  open answers use {
    new_store, wa_user, decrypt, token_settings, has_client, has_id, qr_channel, connect, events,
    verdict, takes_timeout, still_logged_in, bots,
  }

  -- The settings that are kept over an authorisation
  abbrev pub kept_settings : Option UserData → Container
  kept_settings none = no_settings
  kept_settings (some d) =
      if d.session_data == ""
      then no_settings
      else settings_or (token_settings (raw_session d.session_data (decrypt d.session_data)))

  abbrev pub made_bot : ℕ → Option Err → Users → (Err ⊎ ℕ) × Users
  made_bot user (some e) users = (inl e, users)
  made_bot user none users =
      let made = initialize_bot user (kept_settings wa_user) users in
      (inr made.0, keep_bot user made)

  abbrev pub ensured : ℕ → Option ℕ → Users → (Err ⊎ ℕ) × Users
  ensured user (some p) users = (inr p, users)
  ensured user none users = made_bot user new_store users

  -- u.EnsureAuthBot(ctx, userID)
  unfoldable pub ensure_auth_bot : ℕ → Users → (Err ⊎ ℕ) × Users
  ensure_auth_bot user users = ensured user (lookup user users.u_bot) users

  -- u.DeleteBot(userID)
  abbrev pub delete_bot : ℕ → Users → Users
  delete_bot user users = record users { u_bot = delete user users.u_bot }

  -- `case <-doneChan`
  unfoldable pub finished : ℕ → ℕ → Bool → Users → Outcome Err
  finished user p false users = fails not_logged_in users
  finished user p true users =
      let start = start_user_bot bots user (delete_bot user users) in
      ((saves user ∷ enables p ∷ disconnects ∷ [], started_error start.0), start.1)

  abbrev pub verified : ℕ → ℕ → Bool → Verdict → Users → Outcome Err
  verified user p true waits users = fails expired users
  verified user p true logged_out users = fails expired users
  verified user p true logged_in users = after (sends succeeded ∷ []) (fails expired users)
  verified user p false waits users = fails expired users
  verified user p false logged_out users = fails not_logged_in users
  verified user p false logged_in users =
      after (sends succeeded ∷ []) (finished user p still_logged_in users)

  -- The select at the end: without a success only the timeout is left
  abbrev pub awaited : ℕ → ℕ → Bool → Users → Outcome Err
  awaited user p false users = fails expired users
  awaited user p true users = verified user p takes_timeout verdict users

  -- The loop over the QR channel: whether a code was shown, and whether it was scanned
  unfoldable pub read_events : ℕ → ℕ → Bool → Bool → List QrEvent → Users → Outcome Err
  read_events user p displayed scan [] users = awaited user p scan users
  read_events user p displayed scan (code c ∷ es) users =
      after (sends (shows_code c) ∷ []) (read_events user p true scan es users)
  read_events user p displayed scan (timeout ∷ es) users =
      fails (if displayed then not_scanned else no_code) users
  read_events user p displayed scan (qr_error ∷ es) users = fails qr_failed users
  read_events user p displayed scan (success ∷ es) users =
      after (sends scanned ∷ []) (read_events user p displayed true es users)
  read_events user p displayed scan (other ∷ es) users = read_events user p displayed scan es users

  abbrev pub with_connection : ℕ → ℕ → Connected Err → Users → Outcome Err
  with_connection user p connected users = read_events user p false false events users
  with_connection user p connect_not_logged_in users = read_events user p false false events users
  with_connection user p (connect_failed e) users =
      ((sends failed ∷ [], some (no_connection e)), users)

  abbrev pub with_channel : ℕ → ℕ → Option Err → Users → Outcome Err
  with_channel user p (some e) users = ((sends failed ∷ [], some (no_qr_channel e)), users)
  with_channel user p none users = with_connection user p connect users

  abbrev pub with_client : ℕ → ℕ → Bool → Users → Outcome Err
  with_client user p false users = (([], some no_client), users)
  with_client user p true users =
      after (if has_id then prepares p ∷ [] else []) (with_channel user p qr_channel users)

  abbrev pub with_bot : ℕ → (Err ⊎ ℕ) × Users → Outcome Err
  with_bot user (inl e, users) = ((sends failed ∷ [], some (no_store e)), users)
  with_bot user (inr p, users) = with_client user p has_client users

  -- AuthenticateWithQR(host, userID, stateChan)
  unfoldable pub authenticate_with_qr : ℕ → Users → Outcome Err
  authenticate_with_qr user users = with_bot user (ensure_auth_bot user users)
