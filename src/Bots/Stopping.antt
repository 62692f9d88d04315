-- ===== src/Bots/Stopping.antt =====
-- What starting, stopping and restarting leave.
use air_whatsbot.Common.{
  ℕ, ◌≡◌, refl, ap, subst, sym, ◌∙◌, true, false, Option, none, some, ◌⊎◌, inl, inr, nat_eq, ◌==◌,
  nat_beq_refl, if◌then◌else◌, Bool-cases,
}
use air_whatsbot.Common.Map.{lookup, lookup-insert_self, lookup-delete, beq_refl}
use air_whatsbot.Bots.Lifecycle.{
  Bot, Users, Container, UserData, Answers, BotError, already_running, put_bot, bot_state,
  state_found, new_bot, initialize_bot, keep_bot, stop_running, stop_found, stop_user_bot,
  reset_session, started, start_subscribed, start_data, start_found, start_user_bot, plain_session,
  container_of,
}

pub put_bot-own : (p : ℕ) (b : Bot) (u : Users) → (put_bot p b u).bots p ≡ b
put_bot-own p b u = rw (nat_beq_refl p) refl

-- Stopping a bot that runs reports no error. The bot is stopped and disconnected and its context
-- cancelled, the user has no bot any more, and the bots of the other users stay.
stop_user_bot_lem :
    {Err : Type 0} (user p : ℕ) (u : Users)
    → lookup user u.u_bot ≡ some p
    → (u.bots p).stopped ≡ false
    → (stop_user_bot {Err = Err} user u ≡ (none, stop_running user p u))
      × (lookup user (stop_running user p u).u_bot ≡ none)
      × ((stop_running user p u).bots p
          ≡ record (u.bots p) { stopped = true; cancelled = true; connected = false })
      × ((other : ℕ)
          → (user == other) ≡ false
          → lookup other (stop_running user p u).u_bot ≡ lookup other u.u_bot)
unfolding stop_user_bot
stop_user_bot_lem user p u a running = (
  ap (λ o. stop_found user o u) a
      ∙ ap (λ b. if b then (none, u) else (none, stop_running user p u)) running,
  lookup-delete user user u.u_bot ∙ rw (beq_refl user) refl,
  put_bot-own p (record (u.bots p) { stopped = true; cancelled = true; connected = false }) u,
  λ other ne. lookup-delete user other u.u_bot ∙ rw ne refl,
)

module _ {Err : Type 0} (answers : Answers Err) where
  -- A user's bot that is stopped stays in the map: stopping it reports no error and changes nothing,
  -- and starting it is refused, since a bot is already running.
  stopped_stays :
      (user p : ℕ) (u : Users)
      → lookup user u.u_bot ≡ some p
      → (u.bots p).stopped ≡ true
      → (stop_user_bot {Err = Err} user u ≡ (none, u))
        × (start_user_bot answers user u ≡ (some already_running, u))
  unfolding stop_user_bot start_user_bot
  stopped_stays user p u a s = (
    ap (λ o. stop_found user o u) a
        ∙ ap (λ b. if b then (none, u) else (none, stop_running user p u)) s,
    ap (λ o. start_found answers user o u) a,
  )

  -- After `resetSession` of a user's bot, the bot stays in the map: stopping it reports no error and
  -- changes nothing, and starting a bot for the user is refused, since one is already running.
  pub reset_session-stays :
      (user p : ℕ) (u : Users)
      → lookup user u.u_bot ≡ some p
      → (stop_user_bot {Err = Err} user (reset_session p u) ≡ (none, reset_session p u))
        × (start_user_bot answers user (reset_session p u)
            ≡ (some already_running, reset_session p u))
  unfolding reset_session
  reset_session-stays user p u a = stopped_stays user p (reset_session p u) a (
      ap (λ (b : Bot). b.stopped)
        (put_bot-own p (record (u.bots p) { stopped = true; cancelled = true; connected = false })
          u))

  -- What `StartUserBot` leaves: a running bot for a user who had none, or everything as it was.
  abbrev pub StartLeaves : ℕ → Users → Option (BotError Err) × Users → Type 0
  StartLeaves user u (none, u') = (lookup user u.u_bot ≡ none) × (bot_state user u' ≡ (true, false))
  StartLeaves user u (some e, u') = u' ≡ u

  kept_state :
      (user : ℕ) (c : Container) (u : Users)
      → bot_state user (keep_bot user (initialize_bot user c u)) ≡ (true, false)
  unfolding bot_state initialize_bot
  kept_state user c u =
      let u' = keep_bot user (initialize_bot user c u) in
      ap (state_found u') (lookup-insert_self user u.next_bot u.u_bot)
      ∙ ap (λ (b : Bot). (true, b.stopped)) (put_bot-own u.next_bot (new_bot user c) u)

  started-leaves :
      (user : ℕ) (r : BotError Err ⊎ Container) (u : Users)
      → lookup user u.u_bot ≡ none
      → StartLeaves user u (started answers user r u)
  started-leaves user (inl e) u a = refl
  started-leaves user (inr c) u a = (a, kept_state user c u)

  start_subscribed-leaves :
      (user : ℕ) (d : UserData) (o : Option Err) (u : Users)
      → d.user_id ≡ user
      → lookup user u.u_bot ≡ none
      → StartLeaves user u (start_subscribed answers d o u)
  start_subscribed-leaves user d (some e) u same a = refl
  start_subscribed-leaves user d none u same a =
      subst
        (λ i.
          StartLeaves user u
            (started answers i (container_of answers d.user_id (plain_session answers d)) u))
        (sym same) (started-leaves user _ u a)

  start_data-leaves :
      (user : ℕ) (r : Err ⊎ UserData) (u : Users)
      → answers.get_wa_user user ≡ r
      → ((d : UserData) → answers.get_wa_user user ≡ inr d → d.user_id ≡ user)
      → lookup user u.u_bot ≡ none
      → StartLeaves user u (start_data answers user r u)
  start_data-leaves user (inl e) u eq own a = refl
  start_data-leaves user (inr d) u eq own a = elim (Bool-cases d.enabled) [
    | inl y ↦ simp y (start_subscribed-leaves user d _ u (own d eq) a)
    | inr y ↦ simp y refl
  ]

  start_found-leaves :
      (user : ℕ) (o : Option ℕ) (u : Users)
      → lookup user u.u_bot ≡ o
      → ((d : UserData) → answers.get_wa_user user ≡ inr d → d.user_id ≡ user)
      → StartLeaves user u (start_found answers user o u)
  start_found-leaves user (some p) u a own = refl
  start_found-leaves user none u a own = start_data-leaves user _ u refl own a

  -- If the database answers with the data of the user it is asked for, `StartUserBot` without an error
  -- means that the user had no bot and now has one that is not stopped; with an error, every bot is as
  -- before.
  pub start_user_bot_lem :
      (user : ℕ) (u : Users)
      → ((d : UserData) → answers.get_wa_user user ≡ inr d → d.user_id ≡ user)
      → StartLeaves user u (start_user_bot answers user u)
  unfolding start_user_bot
  start_user_bot_lem user u own = start_found-leaves user (lookup user u.u_bot) u refl own
