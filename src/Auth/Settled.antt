-- ===== src/Auth/Settled.antt =====
-- How an authorisation by QR code ends: the last state that is sent, and the bot of the user.
use air_whatsbot.Common.{
  ℕ, ◌≡◌, ◌≢◌, refl, ap, sym, ◌∙◌, subst, Bool, true, false, Option, none, some, List, [], ◌∷◌, ◌⊎◌,
  inl, inr, nat_eq, if◌then◌else◌,
}
use air_whatsbot.Common.Map.{lookup, lookup-delete, beq_refl}
use air_whatsbot.Bots.Lifecycle.{Users, UserData, BotError, already_running, bot_state}
use air_whatsbot.Bots.Stopping.{StartLeaves, start_user_bot_lem}
use air_whatsbot.Bots.Admitting.{start_user_bot-admits}
use air_whatsbot.Auth.Flow.{
  QrEvent, code, timeout, qr_error, success, other, FlowState, shows_code, scanned, succeeded,
  failed, Effect, sends, prepares, saves, enables, disconnects, FlowError, no_store, no_client,
  no_qr_channel, no_connection, no_code, not_scanned, qr_failed, not_logged_in, expired,
  not_started, Connected, connected, connect_not_logged_in, connect_failed, Verdict, waits,
  logged_in, logged_out, FlowAnswers, Outcome, after, delete_bot, started_error, finished, verified,
  awaited, read_events, with_connection, with_channel, with_client, with_bot, ensure_auth_bot,
  authenticate_with_qr,
}

-- The last state that is sent, where `prev` was sent before.
unfoldable pub last_state : Option FlowState → List Effect → Option FlowState
last_state prev [] = prev
last_state prev (sends s ∷ es) = last_state (some s) es
last_state prev (prepares p ∷ es) = last_state prev es
last_state prev (saves u ∷ es) = last_state prev es
last_state prev (enables p ∷ es) = last_state prev es
last_state prev (disconnects ∷ es) = last_state prev es

-- The first state at which the WebSocket of the user is closed.
abbrev pub terminal_or : FlowState → Option FlowState → Option FlowState
terminal_or succeeded rest = some succeeded
terminal_or failed rest = some failed
terminal_or (shows_code c) rest = rest
terminal_or scanned rest = rest

unfoldable pub first_terminal : List Effect → Option FlowState
first_terminal [] = none
first_terminal (sends s ∷ es) = terminal_or s (first_terminal es)
first_terminal (prepares p ∷ es) = first_terminal es
first_terminal (saves u ∷ es) = first_terminal es
first_terminal (enables p ∷ es) = first_terminal es
first_terminal (disconnects ∷ es) = first_terminal es

-- The ends of an authorisation: it went through; it did but no bot was started; nothing was sent; or
-- it was refused.
pub data End (Err : Type 0) : Type 0 where
  through : End Err
  unstarted : BotError Err → End Err
  silent : End Err
  refused : End Err

module _ {Err : Type 0} where
  abbrev pub end_of : Option (FlowError Err) → End Err
  end_of none = through
  end_of (some (not_started e)) = unstarted e
  end_of (some no_client) = silent
  end_of (some (no_store e)) = refused
  end_of (some (no_qr_channel e)) = refused
  end_of (some (no_connection e)) = refused
  end_of (some no_code) = refused
  end_of (some not_scanned) = refused
  end_of (some qr_failed) = refused
  end_of (some not_logged_in) = refused
  end_of (some expired) = refused

  -- The last state that is sent
  abbrev pub EndsWith : End Err → Option FlowState → Type 0
  EndsWith through last = last ≡ some succeeded
  EndsWith (unstarted e) last = last ≡ some succeeded
  EndsWith silent last = last ≡ none
  EndsWith refused last = last ≡ some failed

  -- The state at which the WebSocket is closed, where the account is authorised
  abbrev pub Tells : End Err → Option FlowState → Type 0
  Tells through first = first ≡ some succeeded
  Tells (unstarted e) first = first ≡ some succeeded
  Tells silent first = Unit
  Tells refused first = Unit

  -- The user's bot
  abbrev pub BotLeaves : ℕ → End Err → Users → Type 0
  BotLeaves user through users = bot_state user users ≡ (true, false)
  BotLeaves user (unstarted e) users = (lookup user users.u_bot ≡ none) × (e ≢ already_running)
  BotLeaves user silent users = Unit
  BotLeaves user refused users = Unit

  abbrev pub IsSettled : ℕ → Option FlowState → Outcome Err → Type 0
  IsSettled user prev ((es, e), users) =
      EndsWith (end_of e) (last_state prev es)
      × Tells (end_of e) (first_terminal es)
      × BotLeaves user (end_of e) users

  -- A state that closes nothing leaves the rest to decide.
  after-IsSettled :
      (user : ℕ) (prev : Option FlowState) (s : FlowState) (out : Outcome Err)
      → ((rest : Option FlowState) → terminal_or s rest ≡ rest)
      → IsSettled user (some s) out
      → IsSettled user prev (after (sends s ∷ []) out)
  unfolding last_state first_terminal
  after-IsSettled user prev s ((es, e), users) t (k, l, m) =
      (k, subst (Tells (end_of e)) (sym (t (first_terminal es))) l, m)

  succeeded-Tells : (end : End Err) → Tells end (some succeeded)
  succeeded-Tells through = refl
  succeeded-Tells (unstarted e) = refl
  succeeded-Tells silent = tt
  succeeded-Tells refused = tt

  -- After a success only the last state and the bot count.
  abbrev IsClosed : ℕ → Outcome Err → Type 0
  IsClosed user ((es, e), users) =
      EndsWith (end_of e) (last_state (some succeeded) es) × BotLeaves user (end_of e) users

  closed-IsSettled :
      (user : ℕ) (prev : Option FlowState) (out : Outcome Err)
      → IsClosed user out
      → IsSettled user prev (after (sends succeeded ∷ []) out)
  unfolding last_state first_terminal
  closed-IsSettled user prev ((es, e), users) (k, m) = (k, succeeded-Tells (end_of e), m)

module _ {Err : Type 0} (answers : FlowAnswers Err) (user : ℕ)
    (own : (d : UserData) → answers.bots.get_wa_user user ≡ inr d → d.user_id ≡ user) where
  started-IsClosed :
      (p : ℕ) (users : Users) (start : Option (BotError Err) × Users)
      → lookup user users.u_bot ≡ none
      → StartLeaves answers.bots user users start
      → start.0 ≢ some already_running
      → IsClosed user ((saves user ∷ enables p ∷ disconnects ∷ [], started_error start.0), start.1)
  unfolding last_state
  started-IsClosed p users (none, u) a l n = (refl, l.1)
  started-IsClosed p users (some e, u) a l n =
      (refl, (subst (λ v. lookup user v.u_bot ≡ none) (sym l) a, λ h. n (ap some h)))

  deleted : (users : Users) → lookup user (delete_bot answers user users).u_bot ≡ none
  deleted users = lookup-delete user user users.u_bot ∙ rw (beq_refl user) refl

  finished-IsClosed :
      (p : ℕ) (still : Bool) (users : Users) → IsClosed user (finished answers user p still users)
  unfolding finished last_state
  finished-IsClosed p false users = (refl, tt)
  finished-IsClosed p true users =
      let gone = deleted users in
      started-IsClosed p (delete_bot answers user users) _ gone
        (start_user_bot_lem answers.bots user (delete_bot answers user users) own)
        (start_user_bot-admits answers.bots user (delete_bot answers user users) gone)

  verified-IsSettled :
      (prev : Option FlowState) (p : ℕ) (late : Bool) (v : Verdict) (users : Users)
      → IsSettled user prev (verified answers user p late v users)
  unfolding last_state first_terminal
  verified-IsSettled prev p true waits users = (refl, tt, tt)
  verified-IsSettled prev p true logged_out users = (refl, tt, tt)
  verified-IsSettled prev p true logged_in users = (refl, tt, tt)
  verified-IsSettled prev p false waits users = (refl, tt, tt)
  verified-IsSettled prev p false logged_out users = (refl, tt, tt)
  verified-IsSettled prev p false logged_in users =
      closed-IsSettled user prev (finished answers user p answers.still_logged_in users)
        (finished-IsClosed p answers.still_logged_in users)

  awaited-IsSettled :
      (prev : Option FlowState) (p : ℕ) (scan : Bool) (users : Users)
      → IsSettled user prev (awaited answers user p scan users)
  unfolding last_state
  awaited-IsSettled prev p false users = (refl, tt, tt)
  awaited-IsSettled prev p true users =
      verified-IsSettled prev p answers.takes_timeout answers.verdict users

  timeout-end :
      (b : Bool) → end_of {Err = Err} (some (if b then not_scanned else no_code)) ≡ refused
  timeout-end true = refl
  timeout-end false = refl

  read-IsSettled :
      (prev : Option FlowState) (p : ℕ) (displayed scan : Bool) (es : List QrEvent) (users : Users)
      → IsSettled user prev (read_events answers user p displayed scan es users)
  unfolding read_events last_state
  read-IsSettled prev p displayed scan [] users = awaited-IsSettled prev p scan users
  read-IsSettled prev p displayed scan (code c ∷ es) users =
      after-IsSettled user prev (shows_code c) _ (λ rest. refl)
        (read-IsSettled (some (shows_code c)) p true scan es users)
  read-IsSettled prev p true scan (timeout ∷ es) users = (refl, tt, tt)
  read-IsSettled prev p false scan (timeout ∷ es) users = (refl, tt, tt)
  read-IsSettled prev p displayed scan (qr_error ∷ es) users = (refl, tt, tt)
  read-IsSettled prev p displayed scan (success ∷ es) users =
      after-IsSettled user prev scanned _ (λ rest. refl)
        (read-IsSettled (some scanned) p displayed true es users)
  read-IsSettled prev p displayed scan (other ∷ es) users =
      read-IsSettled prev p displayed scan es users

  connection-IsSettled :
      (p : ℕ) (c : Connected Err) (users : Users)
      → IsSettled user none (with_connection answers user p c users)
  unfolding last_state
  connection-IsSettled p connected users = read-IsSettled none p false false answers.events users
  connection-IsSettled p connect_not_logged_in users =
      read-IsSettled none p false false answers.events users
  connection-IsSettled p (connect_failed e) users = (refl, tt, tt)

  channel-IsSettled :
      (p : ℕ) (o : Option Err) (users : Users)
      → IsSettled user none (with_channel answers user p o users)
  unfolding last_state
  channel-IsSettled p (some e) users = (refl, tt, tt)
  channel-IsSettled p none users = connection-IsSettled p answers.connect users

  prepared-IsSettled :
      (p : ℕ) (b : Bool) (out : Outcome Err)
      → IsSettled user none out
      → IsSettled user none (after (if b then prepares p ∷ [] else []) out)
  unfolding last_state first_terminal
  prepared-IsSettled p true ((es, e), users) h = h
  prepared-IsSettled p false ((es, e), users) h = h

  client-IsSettled :
      (p : ℕ) (b : Bool) (users : Users) → IsSettled user none (with_client answers user p b users)
  unfolding last_state
  client-IsSettled p false users = (refl, tt, tt)
  client-IsSettled p true users =
      prepared-IsSettled p answers.has_id _ (channel-IsSettled p answers.qr_channel users)

  bot-IsSettled : (made : (Err ⊎ ℕ) × Users) → IsSettled user none (with_bot answers user made)
  unfolding last_state
  bot-IsSettled (inl e, users) = (refl, tt, tt)
  bot-IsSettled (inr p, users) = client-IsSettled p answers.has_client users

  -- If the database answers with the data of the user it is asked for, an authorisation ends as follows.
  -- Without an error, the state "success" is the last that is sent and the first at which the WebSocket
  -- is closed, and the user has a bot that is not stopped. If the account is authorised but the bot is
  -- not started, the user has no bot any more, and the WebSocket is closed with the state "success" all
  -- the same; the start is never refused because a bot is running. Where there is no client no state is
  -- sent, and with any other error the last state is "error".
  pub authenticate_with_qr_lem :
      (users : Users) → IsSettled user none (authenticate_with_qr answers user users)
  unfolding authenticate_with_qr
  authenticate_with_qr_lem users = bot-IsSettled (ensure_auth_bot answers user users)
