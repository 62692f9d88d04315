-- ===== src/Facade/Shutdown.antt =====
-- `StopBot` of internal/whatsapp/whatsapp.go and `(*Bot).StopUserBot` of
-- internal/whatsapp/bot_lifecycle.go. The bots are stopped by goroutines, in any order.
use air_whatsbot.Common.{ℕ, ◌≡◌, Bool, true, false, List, [], ◌∷◌, ◌++◌, if◌then◌else◌}
use air_whatsbot.Bots.Lifecycle.{Bot, Users, put_bot}

-- b.StopUserBot()
abbrev pub stopped_bot : Bot → Bot
stopped_bot b = record b { stopped = true; cancelled = true; connected = false }

unfoldable pub stop_bot : ℕ → Users → Users
stop_bot p u = if (u.bots p).stopped then u else record (put_bot p (stopped_bot (u.bots p)) u) {
  calls_stopped = u.calls_stopped ++ (u.bots p).user_id ∷ [];
}

-- `StopBot` in between: the bots whose goroutine has not run yet, whether `done` is closed, whether
-- the contexts of the model are saved, and whether `StopBot` has returned.
pub record Shutdown : Type 0 where
  pub waiting : List ℕ
  pub users : Users
  pub done_closed : Bool
  pub saved : Bool
  pub returned : Bool

-- A goroutine of a bot; `close(done)` after `wg.Wait()`; the saving; the two cases of the select.
pub data Step : Shutdown → Shutdown → Type 0 where
  stops :
      (s : Shutdown) (before after : List ℕ) (p : ℕ)
      → s.waiting ≡ before ++ p ∷ after
      → Step s (record s { waiting = before ++ after; users = stop_bot p s.users })
  closes :
      (s : Shutdown)
      → s.waiting ≡ []
      → s.done_closed ≡ false
      → Step s (record s { done_closed = true })
  saves :
      (s : Shutdown) → s.done_closed ≡ true → s.saved ≡ false → Step s (record s { saved = true })
  returns :
      (s : Shutdown)
      → s.done_closed ≡ true
      → s.returned ≡ false
      → Step s (record s { returned = true })
  gives_up : (s : Shutdown) → s.returned ≡ false → Step s (record s { returned = true })

pub data Reach (s : Shutdown) : Shutdown → Type 0 where
  here : Reach s s
  next : {t u : Shutdown} → Reach s t → Step t u → Reach s u

-- The start, with the bots that `Range` gives
abbrev pub begins : List ℕ → Users → Shutdown
begins bots users = record {
  waiting = bots;
  users = users;
  done_closed = false;
  saved = false;
  returned = false;
}
