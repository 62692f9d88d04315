-- ===== src/Calls/Audio/Media.antt =====
-- The two media loops of `startRealtime` (internal/whatsapp/calls/calls.go): the callback of
-- `session.call.Receive`, which sends what the peer says to the model in chunks of 960 bytes, and the
-- goroutine that plays the model's audio in frames.
use air_whatsbot.Common.{
  ℕ, ◌<◌, ◌≡◌, refl, sym, Option, some, List, [], ◌∷◌, ◌++◌, append-nil, arith, length, All,
  All-append,
}
use air_whatsbot.Common.Fallible.{◌>>=◌}
use air_whatsbot.Calls.Audio.Pcm.{amplify_pcm16}
use air_whatsbot.Calls.Audio.Upsample.{Float32, pcm16_at_24k, pcm16_at_24k_total}
use air_whatsbot.Calls.Audio.Chunks.{concat, concat-append-append, pieces, pieces_lem, HasLength}

abbrev pub whatsapp_realtime_input_gain : ℕ
whatsapp_realtime_input_gain = 2

-- 20 ms at 24 kHz, mono PCM16
abbrev pub realtime_input_chunk_bytes : ℕ
realtime_input_chunk_bytes = 960

module _ (float : Float32) where
  open float use {F}

  -- One call of the sink: the chunks that go to `provider.SendRealtimeAudio`, whose errors are only
  -- logged, and the bytes that stay in `realtimeInputPending`.
  unfoldable pub receive_frame : List ℕ → List F → Option (List (List ℕ) × List ℕ)
  receive_frame pending frame = do
    bytes ← pcm16_at_24k float frame
    some (
        pieces realtime_input_chunk_bytes
          (pending ++ amplify_pcm16 bytes whatsapp_realtime_input_gain))

  -- The frames of a call, one after another, from the given pending bytes.
  unfoldable pub receive_all : List ℕ → List (List F) → Option (List (List ℕ) × List ℕ)
  unfolding receive_frame
  receive_all pending [] = some ([], pending)
  receive_all pending (frame ∷ frames) = do
    sent ← receive_frame pending frame
    rest ← receive_all sent.1 frames
    some (sent.0 ++ rest.0, rest.1)

  -- The peer's audio as one stream of amplified bytes.
  unfoldable pub input_stream : List (List F) → Option (List ℕ)
  input_stream [] = some []
  input_stream (frame ∷ frames) = do
    bytes ← pcm16_at_24k float frame
    rest ← input_stream frames
    some (amplify_pcm16 bytes whatsapp_realtime_input_gain ++ rest)

  -- If fewer than 960 bytes are pending, receiving any frames goes through, and the chunks that
  -- were sent, followed by the bytes still pending, are the bytes that were pending at first
  -- followed by the whole amplified stream; every chunk has 960 bytes, and fewer than 960 stay
  -- pending.
  pub receive_all_lem :
      (pending : List ℕ) (frames : List (List F))
      → length pending < realtime_input_chunk_bytes
      → (chunks : List (List ℕ)) × (pending' : List ℕ) × (stream : List ℕ) × (receive_all pending
            frames
          ≡ some (chunks, pending'))
        × (input_stream frames ≡ some stream)
        × (concat chunks ++ pending' ≡ pending ++ stream)
        × All (HasLength realtime_input_chunk_bytes) chunks
        × (length pending' < realtime_input_chunk_bytes)
  unfolding receive_all input_stream receive_frame concat
  receive_all_lem pending [] h = ([], pending, [], refl, refl, sym (append-nil pending), tt, h)
  receive_all_lem pending (frame ∷ frames) h =
      let (bytes, made, _, _) = pcm16_at_24k_total float frame in
      let louder = amplify_pcm16 bytes whatsapp_realtime_input_gain in
      let now = pieces realtime_input_chunk_bytes (pending ++ louder) in
      let (whole, full, short) =
        pieces_lem realtime_input_chunk_bytes (pending ++ louder) (omega arith) in
      let (chunks, pending', stream, later, rest, whole', full', short') =
        receive_all_lem now.1 frames short in
      (
        now.0 ++ chunks,
        pending',
        louder ++ stream,
        rw (made, later),
        rw (made, rest),
        concat-append-append now.0 chunks now.1 pending' pending louder stream whole whole',
        All-append (HasLength realtime_input_chunk_bytes) now.0 chunks full full',
        short',
      )
