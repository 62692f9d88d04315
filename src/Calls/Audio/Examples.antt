-- ===== src/Calls/Audio/Examples.antt =====
-- Tests of the audio conversions and loops, and their theorems on concrete audio.
use air_whatsbot.Common.{
  ℕ, ◌+◌, ◌*◌, ◌%◌, ◌≤◌, ◌<◌, ◌≡◌, refl, arith, true, false, some, List, [], ◌∷◌, ◌++◌, length,
  replicate, All, done,
}
use air_whatsbot.Common.Int.{ℤ, pos}
use air_whatsbot.Calls.Audio.Pcm.{amplify_pcm16, pcm16_at_16k}
use air_whatsbot.Calls.Audio.Pcm.Amplify.{IsByte}
use air_whatsbot.Calls.Audio.Chunks.{concat, HasLength}
use air_whatsbot.Calls.Audio.Upsample.{Float32}
use air_whatsbot.Calls.Audio.Media.{
  receive_all, input_stream, receive_all_lem, realtime_input_chunk_bytes,
}
use air_whatsbot.Calls.Audio.Playback.{play, output_stream, play_lem}
use air_whatsbot.Calls.Audio.Source.{Source, close_once, System, initial, start, next, cancel}
use air_whatsbot.Calls.Audio.Source.Fifo.{Reach-fifo}

-- 300, -2 and 20000
abbrev bytes : List ℕ
bytes = 44 ∷ 1 ∷ 254 ∷ 255 ∷ 32 ∷ 78 ∷ []

bytes-IsByte : All IsByte bytes
bytes-IsByte =
    (omega arith, (omega arith, (omega arith, (omega arith, (omega arith, (omega arith, tt))))))

-- The first two samples are doubled, the third is limited to 32767.
amplify_doubles : amplify_pcm16 bytes 2 ≡ 88 ∷ 2 ∷ 252 ∷ 255 ∷ 255 ∷ 127 ∷ []
unfolding amplify_pcm16
amplify_doubles = refl

resample_halves : pcm16_at_16k bytes ≡ some (pos 600 ∷ pos 19998 ∷ [])
unfolding pcm16_at_16k
resample_halves = refl

-- A stand-in for float32 in which every value is a sample already.
abbrev plain : Float32
plain = record {
  F = ℕ;
  add = λ a b. a + b;
  sub = λ a b. a;
  mul = λ a b. 0;
  lt = λ a b. false;
  one = 32767;
  minus_one = 0;
  frac = λ i. i * 2 % 3;
  pcm = λ v. v % 65536;
  pcm_lt = λ v. omega arith;
}

abbrev two : List ℕ
two = 7 ∷ 9 ∷ []

abbrev three : List ℕ
three = 1 ∷ 2 ∷ 3 ∷ []

abbrev voice : List (List ℕ)
voice = (7 ∷ 9 ∷ []) ∷ (11 ∷ []) ∷ []

receive_all_lem_example :
    (chunks : List (List ℕ)) × (pending' : List ℕ) × (stream : List ℕ) × (receive_all plain [] voice
      ≡ some (chunks, pending'))
    × (input_stream plain voice ≡ some stream)
    × (concat chunks ++ pending' ≡ [] ++ stream)
    × All (HasLength realtime_input_chunk_bytes) chunks
    × (length pending' < realtime_input_chunk_bytes)
receive_all_lem_example = receive_all_lem plain [] voice (omega arith)

play_lem_example :
    (frames : List (List ℤ)) × (stream : List ℤ) × (k : ℕ) × (play 4
        (λ n. false)
        0
        []
        (bytes ∷ bytes ∷ [])
      ≡ some frames)
    × (output_stream (bytes ∷ bytes ∷ []) ≡ some stream)
    × (concat frames ≡ [] ++ (stream ++ replicate k (pos 0)))
    × All (HasLength 4) frames
    × (k < 4)
play_lem_example =
    play_lem 4 (λ n. false) (λ n. refl) 0 [] (bytes ∷ bytes ∷ []) (bytes-IsByte, (bytes-IsByte, tt))
      (omega arith)

abbrev cancelled_system : System ℕ
cancelled_system = record initial { source = record initial.source { cancelled = true } }

Reach-fifo_example :
    (cancelled_system.read ++ cancelled_system.source.frames.buf ≡ cancelled_system.sent)
    × (length cancelled_system.source.frames.buf ≤ 8)
    × ((source' : Source ℕ) × (close_once cancelled_system.source ≡ done source'))
    × (cancelled_system.source.closed ≡ true → cancelled_system.source.done_chan.closed ≡ true)
Reach-fifo_example = Reach-fifo cancelled_system (next start cancel)
