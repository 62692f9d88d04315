-- ===== src/Facade/Stopped.antt =====
-- What the stop of all bots leaves, in whatever order its goroutines run.
use air_whatsbot.Common.{
  ℕ, ◌≡◌, refl, ap, sym, ◌∙◌, subst, Bool, true, false, List, [], ◌∷◌, ◌++◌, ◌⊎◌, inl, inr, nat_beq,
  if◌then◌else◌,
}
use air_whatsbot.Bots.Lifecycle.{Bot, Users, put_bot}
use air_whatsbot.Bots.Stopping.{put_bot-own}
use air_whatsbot.Facade.Shutdown.{
  stopped_bot, stop_bot, Shutdown, Step, stops, closes, saves, returns, gives_up, Reach, here, next,
  begins,
}

-- A bot is among those of a list.
abbrev pub Among : ℕ → List ℕ → Type 0
Among p [] = ⊥
Among p (q ∷ qs) = (q ≡ p) ⊎ Among p qs

-- Whether a bot is stopped.
abbrev pub is_stopped : Users → ℕ → Bool
is_stopped u p = (u.bots p).stopped

stop_bot-own : (p : ℕ) (u : Users) → is_stopped (stop_bot p u) p ≡ true
unfolding stop_bot
stop_bot-own p u = when (u.bots p).stopped refl
  where
    when :
        (b : Bool)
        → (u.bots p).stopped ≡ b
        → is_stopped
            (if b then u else record (put_bot p (stopped_bot (u.bots p)) u) {
              calls_stopped = u.calls_stopped ++ (u.bots p).user_id ∷ [];
            })
            p
          ≡ true
    when true e = e
    when false e = ap (λ (b : Bot). b.stopped) (put_bot-own p (stopped_bot (u.bots p)) u)

stop_bot-keeps : (p q : ℕ) (u : Users) → is_stopped u q ≡ true → is_stopped (stop_bot p u) q ≡ true
unfolding stop_bot
stop_bot-keeps p q u h = when (u.bots p).stopped
  where
    other : (b : Bool) → (if b then stopped_bot (u.bots p) else u.bots q).stopped ≡ true
    other true = refl
    other false = h

    when :
        (b : Bool)
        → is_stopped
            (if b then u else record (put_bot p (stopped_bot (u.bots p)) u) {
              calls_stopped = u.calls_stopped ++ (u.bots p).user_id ∷ [];
            })
            q
          ≡ true
    when true = h
    when false = other (nat_beq p q)

-- A bot of the start either waits for its goroutine or is stopped.
abbrev IsServed : ℕ → Shutdown → Type 0
IsServed p s = Among p s.waiting ⊎ (is_stopped s.users p ≡ true)

Among-split :
    (p q : ℕ) (before after : List ℕ)
    → Among p (before ++ q ∷ after)
    → (q ≡ p) ⊎ Among p (before ++ after)
Among-split p q [] after h = h
Among-split p q (b ∷ before) after (inl e) = inr (inl e)
Among-split p q (b ∷ before) after (inr h) = later (Among-split p q before after h)
  where
    later : (q ≡ p) ⊎ Among p (before ++ after) → (q ≡ p) ⊎ ((b ≡ p) ⊎ Among p (before ++ after))
    later (inl e) = inl e
    later (inr m) = inr (inr m)

served_step :
    (p q : ℕ) (before after : List ℕ) (users : Users)
    → (q ≡ p) ⊎ Among p (before ++ after)
    → Among p (before ++ after) ⊎ (is_stopped (stop_bot q users) p ≡ true)
served_step p q before after users (inl e) =
    inr (subst (λ r. is_stopped (stop_bot q users) r ≡ true) e (stop_bot-own q users))
served_step p q before after users (inr m) = inl m

served_stop :
    (p q : ℕ) (before after : List ℕ) (s : Shutdown)
    → s.waiting ≡ before ++ q ∷ after
    → IsServed p s
    → Among p (before ++ after) ⊎ (is_stopped (stop_bot q s.users) p ≡ true)
served_stop p q before after s e (inl m) =
    served_step p q before after s.users (Among-split p q before after (subst (Among p) e m))
served_stop p q before after s e (inr h) = inr (stop_bot-keeps q p s.users h)

Step-IsServed : (p : ℕ) {s t : Shutdown} → Step s t → IsServed p s → IsServed p t
Step-IsServed p (stops s before after q e) h = served_stop p q before after s e h
Step-IsServed p (closes s e n) h = h
Step-IsServed p (saves s e n) h = h
Step-IsServed p (returns s e n) h = h
Step-IsServed p (gives_up s n) h = h

Reach-IsServed : (p : ℕ) {s t : Shutdown} → Reach s t → IsServed p s → IsServed p t
Reach-IsServed p here h = h
Reach-IsServed p (next r st) h = Step-IsServed p st (Reach-IsServed p r h)

-- The channel is closed only when no bot waits, and the contexts are saved only after that.
abbrev IsOrderly : Shutdown → Type 0
IsOrderly s = (s.done_closed ≡ true → s.waiting ≡ []) × (s.saved ≡ true → s.done_closed ≡ true)

taken :
    (before after : List ℕ) (q : ℕ) (ws : List ℕ)
    → ws ≡ before ++ q ∷ after
    → ws ≡ []
    → before ++ after ≡ []
taken [] after q ws e n = absurd (let bad : q ∷ after ≡ [] = sym e ∙ n in cc)
taken (b ∷ before) after q ws e n =
    absurd (let bad : b ∷ (before ++ q ∷ after) ≡ [] = sym e ∙ n in cc)

Step-IsOrderly : {s t : Shutdown} → Step s t → IsOrderly s → IsOrderly t
Step-IsOrderly (stops s before after q e) h = (λ c. taken before after q s.waiting e (h.0 c), h.1)
Step-IsOrderly (closes s e n) h = (λ c. e, λ v. refl)
Step-IsOrderly (saves s e n) h = (h.0, λ v. e)
Step-IsOrderly (returns s e n) h = h
Step-IsOrderly (gives_up s n) h = h

Reach-IsOrderly : {s t : Shutdown} → Reach s t → IsOrderly s → IsOrderly t
Reach-IsOrderly here h = h
Reach-IsOrderly (next r st) h = Step-IsOrderly st (Reach-IsOrderly r h)

served_done : (p : ℕ) (s : Shutdown) → s.waiting ≡ [] → IsServed p s → is_stopped s.users p ≡ true
served_done p s e (inl m) = absurd (subst (Among p) e m)
served_done p s e (inr h) = h

module _ (bots : List ℕ) (users : Users) {s : Shutdown}
    (reached : Reach (begins bots users) s) where
  -- In whatever order the goroutines of `StopBot` run, once `done` is closed every bot that `Range`
  -- gave is stopped; and the contexts of the model are saved only after `done` is closed.
  pub shutdown_lem :
      (s.done_closed ≡ true → (p : ℕ) → Among p bots → is_stopped s.users p ≡ true)
      × (s.saved ≡ true → s.done_closed ≡ true)
  shutdown_lem =
      let orderly = Reach-IsOrderly reached (λ c. cc, λ v. cc) in
      (λ c p m. served_done p s (orderly.0 c) (Reach-IsServed p reached (inl m)), orderly.1)

abbrev all_stopped : List ℕ → Users → Users
all_stopped [] users = users
all_stopped (p ∷ ps) users = all_stopped ps (stop_bot p users)

Reach-all_stopped :
    {s : Shutdown} (bots : List ℕ) (t : Shutdown)
    → t.waiting ≡ bots
    → Reach s t
    → Reach s (record t { waiting = []; users = all_stopped bots t.users })
Reach-all_stopped {s} [] t e r = subst (λ ws. Reach s (record t { waiting = ws })) e r
Reach-all_stopped {s} (p ∷ ps) t e r =
    Reach-all_stopped ps (record t { waiting = ps; users = stop_bot p t.users }) refl
      (next r (stops t [] ps p e))

-- For any bots there is an order of the goroutines in which `StopBot` returns because `done` is closed,
-- with every bot stopped, while the contexts of the model are not saved.
pub returns_unsaved :
    (bots : List ℕ) (users : Users)
    → (s : Shutdown) × Reach (begins bots users) s
      × (s.returned ≡ true)
      × (s.done_closed ≡ true)
      × (s.saved ≡ false)
      × ((p : ℕ) → Among p bots → is_stopped s.users p ≡ true)
returns_unsaved bots users =
    let all = record (begins bots users) { waiting = []; users = all_stopped bots users } in
    let closed = record all { done_closed = true } in
    let reached =
      next (next (Reach-all_stopped bots (begins bots users) refl here) (closes all refl refl))
        (returns closed refl refl) in
    (
      record closed { returned = true },
      reached,
      refl,
      refl,
      refl,
      (shutdown_lem bots users reached).0 refl,
    )
