-- ===== src/Calls/Hub.antt =====
-- internal/whatsapp/calls/events.go: the event hub of a call. `World` is the hub with the channels
-- that it has made; a channel is named by the number under which it was allocated. Operations run
-- under the hub's mutex, so each is one step. An outcome `panicked` is a Go panic, `blocked` a send
-- that waits while the mutex is held.
pub mod Effects
pub mod Safe
pub mod Invariant
mod Span
pub mod Window
pub mod Order
pub mod Replay
pub mod Closing
pub mod Examples
use air_whatsbot.Common.{
  ℕ, suc, ◌+◌, ◌-◌, ◌%◌, ◌^◌, String, Bool, true, false, Option, none, some, List, [], ◌∷◌, ◌++◌,
  ltb, nat_beq, if◌then◌else◌, length, drop, select, not, Run, done, panicked, ◌>>=◌,
}
use air_whatsbot.Common.Chan.{Chan, make_chan, send, try_send, close_chan, recv}

-- `Err` is Go's `error`, `File` is `model.File` of air-common.
pub record CallEvent (Err File : Type 0) : Type 0 where
  pub call_id : String
  pub kind : String  -- Type
  pub delta : String
  pub text : String
  pub response_id : String
  pub err : Option Err
  pub sequence : ℕ  -- uint64
  pub timestamp : ℕ
  pub bytes : List ℕ  -- Data
  pub files : List File

abbrev pub call_event_replay_limit : ℕ
call_event_replay_limit = 128

abbrev pub u64 : ℕ → ℕ
u64 n = n % 2 ^ 64

pub record Hub (Err File : Type 0) : Type 0 where
  pub sequence : ℕ  -- uint64
  pub replay : List (CallEvent Err File)
  pub subscribers : List ℕ  -- the keys of the map
  pub closed : Bool

pub record World (Err File : Type 0) : Type 0 where
  pub hub : Hub Err File
  pub chan : ℕ → Chan (CallEvent Err File)
  pub next_chan : ℕ  -- the channels made so far are those below it

pub data SubscribeError : Type 0 where
  stream_is_closed : SubscribeError

pub data Subscription (Err File : Type 0) : Type 0 where
  subscribed : ℕ → World Err File → Subscription Err File
  refused : SubscribeError → Subscription Err File

-- What may happen to a hub: its four operations, and a reader taking an event from its channel.
pub data Op (Err File : Type 0) : Type 0 where
  publishes : CallEvent Err File → ℕ → Op Err File
  subscribes : ℕ → Op Err File
  unsubscribes : ℕ → Op Err File
  closes : Op Err File
  receives : ℕ → Op Err File

abbrev pub mem : ℕ → List ℕ → Bool
mem ch [] = false
mem ch (x ∷ xs) = if nat_beq x ch then true else mem ch xs

abbrev pub remove : ℕ → List ℕ → List ℕ
remove ch xs = select (λ x. not (nat_beq x ch)) xs

module _ {Err File : Type 0} where
  pub new_event_hub : Hub Err File
  new_event_hub = record { sequence = 0; replay = []; subscribers = []; closed = false }

  unfoldable pub new_world : World Err File
  unfolding new_event_hub
  new_world = record { hub = new_event_hub; chan = λ _. make_chan 0; next_chan = 0 }

  abbrev pub update :
      (ℕ → Chan (CallEvent Err File))
      → ℕ
      → Chan (CallEvent Err File)
      → ℕ
      → Chan (CallEvent Err File)
  update f k c j = if nat_beq k j then c else f j

  -- The replay buffer keeps the newest `call_event_replay_limit` events.
  unfoldable pub trim : List (CallEvent Err File) → List (CallEvent Err File)
  trim events =
      if ltb call_event_replay_limit (length events)
      then drop (length events - call_event_replay_limit) events
      else events

  -- `for subscriber := range h.subscribers { select { case subscriber <- event: default: } }`
  unfoldable pub broadcast :
      CallEvent Err File
      → List ℕ
      → (ℕ → Chan (CallEvent Err File))
      → Run (ℕ → Chan (CallEvent Err File))
  broadcast event [] chan = done chan
  broadcast event (ch ∷ rest) chan =
      try_send event (chan ch) >>= λ r. broadcast event rest (update chan ch r.0)

  unfoldable pub publish : CallEvent Err File → ℕ → World Err File → Run (World Err File)
  unfolding trim broadcast
  publish event now w =
      if w.hub.closed
      then done w
      else let seq = u64 (w.hub.sequence + 1) in
        let event' = record event { sequence = seq; timestamp = now } in
        let hub' = record w.hub { sequence = seq; replay = trim (w.hub.replay ++ event' ∷ []) } in
        broadcast event' hub'.subscribers w.chan >>= λ chan'.
        done (record w { hub = hub'; chan = chan' })

  -- `for _, event := range h.replay { if event.Sequence > after { ch <- event } }`
  unfoldable pub fill :
      ℕ → List (CallEvent Err File) → Chan (CallEvent Err File) → Run (Chan (CallEvent Err File))
  fill after [] ch = done ch
  fill after (event ∷ rest) ch =
      (if ltb after event.sequence then send event ch else done ch) >>= λ ch'. fill after rest ch'

  -- The goroutine that waits for the context and unsubscribes is an `unsubscribe` step of its own.
  unfoldable pub subscribe : ℕ → World Err File → Run (Subscription Err File)
  unfolding fill
  subscribe after w =
      if w.hub.closed
      then done (refused stream_is_closed)
      else let ch = w.next_chan in
        fill after w.hub.replay (make_chan call_event_replay_limit) >>= λ c. done (
          subscribed ch (record {
            hub = record w.hub { subscribers = ch ∷ w.hub.subscribers };
            chan = update w.chan ch c;
            next_chan = suc ch;
          }))

  unfoldable pub unsubscribe : ℕ → World Err File → Run (World Err File)
  unsubscribe ch w =
      if mem ch w.hub.subscribers
      then (close_chan (w.chan ch) >>= λ c. done (record w {
        hub = record w.hub { subscribers = remove ch w.hub.subscribers };
        chan = update w.chan ch c;
      }))
      else done w

  unfoldable pub close_all :
      List ℕ → (ℕ → Chan (CallEvent Err File)) → Run (ℕ → Chan (CallEvent Err File))
  close_all [] chan = done chan
  close_all (ch ∷ rest) chan = close_chan (chan ch) >>= λ c. close_all rest (update chan ch c)

  unfoldable pub close : World Err File → Run (World Err File)
  unfolding close_all
  close w =
      if w.hub.closed
      then done w
      else (close_all w.hub.subscribers w.chan >>= λ chan'.
          done (record w { hub = record w.hub { closed = true; subscribers = [] }; chan = chan' }))

  abbrev world_after : World Err File → Subscription Err File → World Err File
  world_after w (subscribed ch w') = w'
  world_after w (refused e) = w

  unfoldable pub step : Op Err File → World Err File → Run (World Err File)
  unfolding publish subscribe unsubscribe close
  step (publishes event now) w = publish event now w
  step (subscribes after) w = subscribe after w >>= λ s. done (world_after w s)
  step (unsubscribes ch) w = unsubscribe ch w
  step closes w = close w
  step (receives ch) w = done (record w { chan = update w.chan ch (recv (w.chan ch)).1 })

  unfoldable pub run : List (Op Err File) → World Err File → Run (World Err File)
  run [] w = done w
  run (op ∷ ops) w = step op w >>= λ w'. run ops w'
