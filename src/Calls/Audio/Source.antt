-- ===== src/Calls/Audio/Source.antt =====
-- `realtimeAudioSource` of internal/whatsapp/calls/audio.go: a queue of frames between the goroutine
-- that pushes the model's audio and the media tick that reads it, with a `Close` from either side.
-- `select` takes any case that is ready, so the operations are step relations; the atomic loads of a
-- `Push` and the two statements of a `Close` are steps of their own, with any others in between.
pub mod Fifo
use air_whatsbot.Common.{
  ℕ, suc, ◌+◌, ◌≡◌, Bool, true, false, List, [], ◌∷◌, ◌++◌, if◌then◌else◌, Run, done, ◌>>=◌,
}
use air_whatsbot.Common.Chan.{Chan, make_chan, close_chan, has_room, push}

-- `F` is a frame of samples.
pub record Source (F : Type 0) : Type 0 where
  pub frames : Chan F
  pub done_chan : Chan (Unit {0})
  pub once : Bool  -- whether the body of `once.Do` has run
  pub closed : Bool
  pub cancelled : Bool  -- whether `ctx` is done

module _ {F : Type 0} where
  unfoldable pub new_realtime_audio_source : Source F
  new_realtime_audio_source = record {
    frames = make_chan 8;
    done_chan = make_chan 0;
    once = false;
    closed = false;
    cancelled = false;
  }

  -- `s.once.Do(func() { close(s.done) })`
  unfoldable pub close_once : Source F → Run (Source F)
  close_once s =
      if s.once
      then done s
      else (close_chan s.done_chan >>= λ c. done (record s { done_chan = c; once = true }))

-- What `ReadFrame` returns: io.EOF or a frame.
pub data ReadResult (F : Type 0) : Type 0 where
  eof : ReadResult F
  frame : F → ReadResult F

-- The `select` of `ReadFrame`. `silence` is the frame of zeros that the `default` makes.
pub data Reads {F : Type 0} (silence : F) (s : Source F) : ReadResult F → Source F → Type 0 where
  context_done : s.cancelled ≡ true → Reads silence s eof s
  source_done : s.done_chan.closed ≡ true → Reads silence s eof s
  takes :
      (f : F) (rest : List F)
      → s.frames.buf ≡ f ∷ rest
      → Reads silence s (frame f) (record s { frames = record s.frames { buf = rest } })
  defaults :
      s.cancelled ≡ false
      → s.done_chan.closed ≡ false
      → s.frames.buf ≡ []
      → Reads silence s (frame silence) s

-- How far a goroutine has come in `Push`.
pub data Producer (F : Type 0) : Type 0 where
  idle : Producer F
  called : F → Producer F  -- before the first `s.closed.Load()`
  selecting : F → Producer F
  sending : F → Producer F  -- the frame is sent, before the second `s.closed.Load()`

-- The source with what its users do, and the frames sent and read so far.
pub record System (F : Type 0) : Type 0 where
  pub source : Source F
  pub producer : Producer F
  pub closers : ℕ  -- calls of `Close` between `once.Do` and `closed.Store(true)`
  pub sent : List F
  pub read : List F

unfoldable pub initial : {F : Type 0} → System F
unfolding new_realtime_audio_source
initial = record {
  source = new_realtime_audio_source;
  producer = idle;
  closers = 0;
  sent = [];
  read = [];
}

abbrev pub got : {F : Type 0} → ReadResult F → List F
got eof = []
got (frame f) = f ∷ []

pub data Step {F : Type 0} (s : System F) : System F → Type 0 where
  push_begins : (f : F) → s.producer ≡ idle → Step s (record s { producer = called f })
  push_refused :
      (f : F)
      → s.producer ≡ called f
      → s.source.closed ≡ true
      → Step s (record s { producer = idle })
  push_selects :
      (f : F)
      → s.producer ≡ called f
      → s.source.closed ≡ false
      → Step s (record s { producer = selecting f })
  push_cancelled :
      (f : F)
      → s.producer ≡ selecting f
      → s.source.cancelled ≡ true
      → Step s (record s { producer = idle })
  push_done :
      (f : F)
      → s.producer ≡ selecting f
      → s.source.done_chan.closed ≡ true
      → Step s (record s { producer = idle })
  push_sends :
      (f : F)
      → s.producer ≡ selecting f
      → has_room s.source.frames ≡ true
      → Step s (record s {
        source = record s.source { frames = push f s.source.frames };
        producer = sending f;
        sent = s.sent ++ f ∷ [];
      })
  push_returns : (f : F) → s.producer ≡ sending f → Step s (record s { producer = idle })
  -- `ReadFrame` took a frame from the queue, or returned without one
  reads_queue :
      (f : F) (rest : List F)
      → s.source.frames.buf ≡ f ∷ rest
      → Step s (record s {
        source = record s.source { frames = record s.source.frames { buf = rest } };
        read = s.read ++ f ∷ [];
      })
  close_begins :
      (source' : Source F)
      → close_once s.source ≡ done source'
      → Step s (record s { source = source'; closers = s.closers + 1 })
  close_ends :
      (n : ℕ)
      → s.closers ≡ suc n
      → Step s (record s { source = record s.source { closed = true }; closers = n })
  cancel : Step s (record s { source = record s.source { cancelled = true } })

pub data Reach {F : Type 0} : System F → Type 0 where
  start : Reach initial
  next : {s t : System F} → Reach s → Step s t → Reach t
