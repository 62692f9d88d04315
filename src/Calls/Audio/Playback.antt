-- ===== src/Calls/Audio/Playback.antt =====
-- The goroutine of `startRealtime` (internal/whatsapp/calls/calls.go) that cuts the model's audio
-- into frames and pushes them to the call. `FrameSamples` is a constant of meowcaller: a parameter.
use air_whatsbot.Common.{
  ℕ, ◌+◌, ◌-◌, ◌≤◌, ◌<◌, ◌≡◌, refl, ap, sym, ◌∙◌, Bool, true, false, Option, some, List, [], ◌∷◌,
  ◌++◌, append_assoc, append-nil, arith, ltb, ltb→ge, ltb→lt, if◌then◌else◌, Bool-cases, inl, inr,
  length, length-append, length-replicate, replicate, All, All-append,
}
use air_whatsbot.Common.Fallible.{◌>>=◌}
use air_whatsbot.Common.Int.{ℤ, pos}
use air_whatsbot.Calls.Audio.Pcm.{pcm16_at_16k}
use air_whatsbot.Calls.Audio.Pcm.Amplify.{IsByte}
use air_whatsbot.Calls.Audio.Pcm.Resample.{pcm16_at_16k_total}
use air_whatsbot.Calls.Audio.Chunks.{concat, concat-append-last, pieces, pieces_lem, HasLength}

module _ (frame_samples : ℕ) (ends : ℕ → Bool) where
  -- `ends n`: the push of frame number `n` fails and the context of the call is done.
  unfoldable pub push_frames : ℕ → List (List ℤ) → List (List ℤ) × Bool
  push_frames n [] = ([], false)
  push_frames n (frame ∷ frames) =
      let rest = push_frames (n + 1) frames in
      if ends n then (frame ∷ [], true) else (frame ∷ rest.0, rest.1)

  -- When the channel is closed, what is pending goes out as a last frame, filled up with silence.
  unfoldable pub flush : List ℤ → List (List ℤ)
  flush pending =
      if ltb 0 (length pending)
      then (pending ++ replicate (frame_samples - length pending) (pos 0)) ∷ []
      else []

  -- The frames handed to `pushFrame`, from frame number `n` on, until the channel `audioOut` is closed.
  unfoldable pub play : ℕ → List ℤ → List (List ℕ) → Option (List (List ℤ))
  unfolding push_frames flush
  play n pending [] = some (flush pending)
  play n pending (audio ∷ audios) = do
    samples ← pcm16_at_16k audio
    let cut = pieces frame_samples (pending ++ samples)
    let pushed = push_frames n cut.0
    later ← play (n + length pushed.0) cut.1 audios
    some (if pushed.1 then pushed.0 else pushed.0 ++ later)

-- The model's audio as one stream of samples.
unfoldable pub output_stream : List (List ℕ) → Option (List ℤ)
output_stream [] = some []
output_stream (audio ∷ audios) = do
  samples ← pcm16_at_16k audio
  rest ← output_stream audios
  some (samples ++ rest)

abbrev pub AllBytes : List (List ℕ) → Type 0
AllBytes = All (All IsByte)

module _ (frame_samples : ℕ) (ends : ℕ → Bool) (lasts : (n : ℕ) → ends n ≡ false) where
  push_frames-eq :
      (n : ℕ) (frames : List (List ℤ)) → push_frames frame_samples ends n frames ≡ (frames, false)
  unfolding push_frames
  push_frames-eq n [] = refl
  push_frames-eq n (frame ∷ frames) = rw (lasts n, push_frames-eq (n + 1) frames)

  flush_lem :
      (pending : List ℤ)
      → length pending < frame_samples
      → (k : ℕ) × (concat (flush frame_samples ends pending) ≡ pending ++ replicate k (pos 0))
        × All (HasLength frame_samples) (flush frame_samples ends pending)
        × (k < frame_samples)
  unfolding flush concat
  flush_lem pending h = elim (Bool-cases (ltb 0 (length pending))) [
    | inl t ↦
        let k = frame_samples - length pending in
        (
          k,
          rw (t, append-nil),
          rw t (
            omega (arith, length-append pending (replicate k (pos 0)), length-replicate k (pos 0)),
            tt,
          ),
          omega (arith, ltb→lt _ _ t),
        )
    | inr t ↦ (0, rw t (no_samples pending (ltb→ge _ _ t)), rw t tt, omega arith)
  ]
    where
      no_samples : (xs : List ℤ) → length xs ≤ 0 → [] ≡ xs ++ []
      no_samples [] h = refl
      no_samples (x ∷ xs) h = absurd (omega arith)

  -- Whatever bytes of audio the model sends before it closes the channel, if no push ends the loop
  -- and less than a frame is pending, the frames handed to `pushFrame` are, put together, what was
  -- pending and then the whole resampled audio, in order, and at the end less than a frame of
  -- silence; every frame has the full length.
  pub play_lem :
      (n : ℕ) (pending : List ℤ) (audios : List (List ℕ))
      → AllBytes audios
      → length pending < frame_samples
      → (frames : List (List ℤ)) × (stream : List ℤ) × (k : ℕ) × (play frame_samples ends n pending
            audios
          ≡ some frames)
        × (output_stream audios ≡ some stream)
        × (concat frames ≡ pending ++ (stream ++ replicate k (pos 0)))
        × All (HasLength frame_samples) frames
        × (k < frame_samples)
  unfolding play output_stream
  play_lem n pending [] b h =
      let (k, whole, full, small) = flush_lem pending h in
      (flush frame_samples ends pending, [], k, refl, refl, whole, full, small)
  play_lem n pending (audio ∷ audios) b h =
      let (samples, made, _, _) = pcm16_at_16k_total audio b.0 in
      let cut = pieces frame_samples (pending ++ samples) in
      let (whole, full, short) = pieces_lem frame_samples (pending ++ samples) (omega arith) in
      let (frames, stream, k, later, rest, whole', full', small) =
        play_lem (n + length cut.0) cut.1 audios b.1 short in
      (
        cut.0 ++ frames,
        samples ++ stream,
        k,
        rw (made, push_frames-eq n cut.0, later),
        rw (made, rest),
        concat-append-last cut.0 frames cut.1 pending samples (stream ++ replicate k (pos 0)) whole
              whole'
            ∙ ap (λ xs. pending ++ xs) (sym (append_assoc samples stream (replicate k (pos 0)))),
        All-append (HasLength frame_samples) cut.0 frames full full',
        small,
      )
