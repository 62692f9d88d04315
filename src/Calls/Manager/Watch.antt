-- ===== src/Calls/Manager/Watch.antt =====
-- `watchTimeout` of calls.go: the goroutine that watches one session, as a state machine over what
-- its two `select` statements receive.
use air_whatsbot.Common.{ℕ, ◌*◌, ◌-◌, List, [], ◌∷◌, ltb, if◌then◌else◌, Run, done, ◌>>=◌}
use air_whatsbot.Calls.Manager.State.{Manager, Host, counts_error, log}
use air_whatsbot.Calls.Manager.Sessions.{end_timed_out}

-- Where the goroutine is: in its first `select`, in its second, or returned.
pub data Watch : Type 0 where
  setup running returned : Watch

-- What a `select` receives; the idle tick comes with the time.
pub data Tick : Type 0 where
  context_done : Tick  -- session.ctx.Done()
  setup_timeout : Tick  -- setupTimer
  lifetime : Tick  -- lifeTimer
  idle : ℕ → Tick  -- idleTicker

abbrev pub second : ℕ
second = 1000000000

module _ {Err File : Type 0} (host : Host Err File) where
  abbrev pub ends : ℕ → Manager Err File → Run (Watch × Manager Err File)
  ends p m = end_timed_out host p m >>= λ m'. done (returned, m')

  -- One receive of the goroutine for the session `p`. A channel that the current `select` does not
  -- wait on changes nothing.
  unfoldable pub watch_step : ℕ → Tick → Watch → Manager Err File → Run (Watch × Manager Err File)
  watch_step p context_done w m = done (returned, m)
  watch_step p setup_timeout setup m =
      if (m.sessions p).ready
      then done (running, m)
      else ends p (log (counts_error "media_setup_timeout") m)
  watch_step p lifetime running m = ends p m
  watch_step p (idle now) running m =
      if ltb (2 * 60 * second) (now - (m.sessions p).last_activity)
      then ends p (log (counts_error "idle_timeout") m)
      else done (returned, m)
  watch_step p _ w m = done (w, m)

  unfoldable pub watch : ℕ → List Tick → Watch → Manager Err File → Run (Watch × Manager Err File)
  watch p [] w m = done (w, m)
  watch p (t ∷ ts) w m = watch_step p t w m >>= λ (w', m'). watch p ts w' m'
