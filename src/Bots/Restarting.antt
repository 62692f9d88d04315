-- ===== src/Bots/Restarting.antt =====
-- What `restartUserBot` leaves when it reports no error.
use air_whatsbot.Common.{
  ℕ, ◌<◌, ◌≡◌, ◌≢◌, refl, ap, subst, sym, ◌∙◌, String, true, false, Option, none, some, ◌⊎◌, inl,
  inr, nat_eq, nat_beq, ne→nat_beq, arith, not, if◌then◌else◌, Bool-cases,
}
use air_whatsbot.Common.Map.{lookup, lookup-insert_self}
use air_whatsbot.Bots.Lifecycle.{
  Bot, Users, Container, UserData, Answers, BotError, put_bot, bot_state, state_found, new_bot,
  initialize_bot, create_or_update_bot, cancel_found, keep_bot, stop_found, stop_user_bot,
  container_of, updated, restart_subscribed, after_stop, stop_if_there, after_disabled,
  restart_plain, restart_data, restart_user_bot,
}
use air_whatsbot.Bots.Stopping.{put_bot-own}

-- The bot `p` is gone: its context is cancelled.
abbrev pub IsCancelled : ℕ → Users → Type 0
IsCancelled p u = (u.bots p).cancelled ≡ true

-- The bot that was there is cancelled, or it is still the user's.
abbrev pub Stops : ℕ → ℕ → Users → Type 0
Stops user p u = (p < u.next_bot) × (IsCancelled p u ⊎ (lookup user u.u_bot ≡ some p))

put_bot-other : (p q : ℕ) (b : Bot) (u : Users) → p ≢ q → (put_bot p b u).bots q ≡ u.bots q
put_bot-other p q b u ne = rw (ne→nat_beq p q ne) refl

cancel_found-Stops :
    (user p : ℕ) (u : Users) → Stops user p u → IsCancelled p (cancel_found (lookup user u.u_bot) u)
cancel_found-Stops user p u (l, inr a) =
    subst (λ o. IsCancelled p (cancel_found o u)) (sym a)
      (ap (λ (b : Bot). b.cancelled) (put_bot-own p (record (u.bots p) { cancelled = true }) u))
cancel_found-Stops user p u (l, inl c) = cancelled_again (lookup user u.u_bot)
  where
    cancelled_again : (o : Option ℕ) → IsCancelled p (cancel_found o u)
    cancelled_again none = c
    cancelled_again (some q) = elim (Bool-cases (nat_beq q p)) [
      | inl e ↦ rw e refl
      | inr e ↦ rw e c
    ]

cancel_found-next : (o : Option ℕ) (u : Users) → (cancel_found o u).next_bot ≡ u.next_bot
cancel_found-next none u = refl
cancel_found-next (some p) u = refl

kept-IsCancelled :
    (user p : ℕ) (c : Container) (u : Users)
    → Stops user p u
    → IsCancelled p (keep_bot user (create_or_update_bot user c u))
unfolding create_or_update_bot initialize_bot
kept-IsCancelled user p c u s =
    let u1 = cancel_found (lookup user u.u_bot) u in
    let next = cancel_found-next (lookup user u.u_bot) u in
    ap (λ (b : Bot). b.cancelled)
      (put_bot-other u1.next_bot p (new_bot user c) u1 (λ e. omega (arith, s.0, next)))
    ∙ cancel_found-Stops user p u s

kept_state :
    (user : ℕ) (c : Container) (u : Users)
    → bot_state user (keep_bot user (create_or_update_bot user c u)) ≡ (true, false)
unfolding bot_state create_or_update_bot initialize_bot
kept_state user c u =
    let u1 = cancel_found (lookup user u.u_bot) u in
    let u' = keep_bot user (create_or_update_bot user c u) in
    ap (state_found u') (lookup-insert_self user u1.next_bot u1.u_bot)
    ∙ ap (λ (b : Bot). (true, b.stopped)) (put_bot-own u1.next_bot (new_bot user c) u1)

module _ {Err : Type 0} (answers : Answers Err) where
  -- What `restartUserBot` leaves without an error: a bot of the user that is not stopped, and the
  -- given older bots cancelled.
  abbrev pub RestartLeaves : ℕ → ℕ → Option (BotError Err) × Users → Type 0
  RestartLeaves user p (none, u') = (bot_state user u' ≡ (true, false)) × IsCancelled p u'
  RestartLeaves user p (some e, u') = Unit

  updated-leaves :
      (user p : ℕ) (r : BotError Err ⊎ Container) (u : Users)
      → Stops user p u
      → RestartLeaves user p (updated answers user r u)
  updated-leaves user p (inl e) u s = tt
  updated-leaves user p (inr c) u s = (kept_state user c u, kept-IsCancelled user p c u s)

  restart_subscribed-leaves :
      (user p : ℕ) (d : UserData) (session : String) (o : Option Err) (u : Users)
      → d.user_id ≡ user
      → Stops user p u
      → RestartLeaves user p (restart_subscribed answers d session o u)
  restart_subscribed-leaves user p d session (some e) u same s = tt
  restart_subscribed-leaves user p d session none u same s =
      subst
        (λ i.
          RestartLeaves user p (updated answers i (container_of answers d.user_id (inr session)) u))
        (sym same) (updated-leaves user p _ u s)

  after_stop-leaves :
      (user p : ℕ) (d : UserData) (session : String) (o : Option (BotError Err)) (u : Users)
      → d.user_id ≡ user
      → Stops user p u
      → RestartLeaves user p (after_stop answers d session user (o, u))
  after_stop-leaves user p d session (some e) u same s = tt
  after_stop-leaves user p d session none u same s =
      restart_subscribed-leaves user p d session _ u same s

  stopped-Stops :
      (user p : ℕ) (u : Users)
      → p < u.next_bot
      → lookup user u.u_bot ≡ some p
      → Stops user p (stop_user_bot {Err = Err} user u).1
  unfolding stop_user_bot
  stopped-Stops user p u l a =
      subst (λ o. Stops user p (stop_found {Err = Err} user o u).1) (sym a)
        (elim (Bool-cases (u.bots p).stopped) [
          | inl e ↦ simp e (l, inr a)
          | inr e ↦ simp e (
            l,
            inl (
                ap (λ (b : Bot). b.cancelled)
                  (put_bot-own p
                    (record (u.bots p) { stopped = true; cancelled = true; connected = false }) u)),
          )
        ])

  after_disabled-leaves :
      (user p : ℕ) (r : Option (BotError Err) × Users)
      → RestartLeaves user p (after_disabled answers r)
  after_disabled-leaves user p (some e, u) = tt
  after_disabled-leaves user p (none, u) = tt

  restart_plain-leaves :
      (user p : ℕ) (d : UserData) (r : BotError Err ⊎ String) (u : Users)
      → d.user_id ≡ user
      → p < u.next_bot
      → lookup user u.u_bot ≡ some p
      → RestartLeaves user p (restart_plain answers user d r u)
  restart_plain-leaves user p d (inl e) u same l a = tt
  restart_plain-leaves user p d (inr session) u same l a =
      subst
        (λ o. RestartLeaves user p (
          if not d.enabled
          then after_disabled answers (stop_if_there answers user o u)
          else after_stop answers d session user (stop_if_there answers user o u)))
        (sym a)
        (elim (Bool-cases d.enabled) [
          | inl y ↦ simp y (
              after_stop-leaves user p d session (stop_user_bot user u).0
                (stop_user_bot {Err = Err} user u).1 same (stopped-Stops user p u l a))
          | inr y ↦ simp y (after_disabled-leaves user p (stop_user_bot user u))
        ])

  restart_data-leaves :
      (user p : ℕ) (r : Err ⊎ UserData) (u : Users)
      → answers.get_wa_user user ≡ r
      → ((d : UserData) → answers.get_wa_user user ≡ inr d → d.user_id ≡ user)
      → p < u.next_bot
      → lookup user u.u_bot ≡ some p
      → RestartLeaves user p (restart_data answers user r u)
  restart_data-leaves user p (inl e) u eq own l a = tt
  restart_data-leaves user p (inr d) u eq own l a = restart_plain-leaves user p d _ u (own d eq) l a

  -- If the database answers with the data of the user it is asked for, `restartUserBot` of a user
  -- who has a bot made before, stopped or not, and without an error means that the user has a bot
  -- that is not stopped, and that the context of the bot of before is cancelled.
  pub restart_user_bot_lem :
      (user p : ℕ) (u : Users)
      → ((d : UserData) → answers.get_wa_user user ≡ inr d → d.user_id ≡ user)
      → p < u.next_bot
      → lookup user u.u_bot ≡ some p
      → RestartLeaves user p (restart_user_bot answers user u)
  unfolding restart_user_bot
  restart_user_bot_lem user p u own l a = restart_data-leaves user p _ u refl own l a
