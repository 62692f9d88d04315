-- ===== src/Calls/Audio/Pcm.antt =====
-- The sample conversions of internal/whatsapp/calls/audio.go. PCM16 is a list of bytes, two to a
-- sample, the low byte first. The gain is a whole number: the program's is 2.0, and the product of an
-- int16 with it is exact in a float64.
pub mod Amplify
pub mod Resample
use air_whatsbot.Common.{
  ℕ, zero, suc, ◌+◌, ◌-◌, ◌*◌, ◌/◌, ◌%◌, Bool, true, false, Option, none, some, List, [], ◌∷◌, ltb,
  nat_beq, if◌then◌else◌, length, get_elem?, ◌||◌, replicate,
}
use air_whatsbot.Common.Fallible.{◌>>=◌}
use air_whatsbot.Common.Int.{ℤ, pos, negsuc, ◌+ℤ◌, ◌-ℤ◌, scale, ltb_ℤ, int16, uint16}

-- binary.LittleEndian.Uint16 and PutUint16
abbrev pub le16 : ℕ → ℕ → ℕ
le16 lo hi = lo + 256 * hi

abbrev pub lo_byte : ℕ → ℕ
lo_byte u = u % 256

abbrev pub hi_byte : ℕ → ℕ
hi_byte u = u / 256

unfoldable pub clamp16 : ℤ → ℤ
clamp16 v =
    if ltb_ℤ (pos 32767) v then pos 32767 else if ltb_ℤ v (negsuc 32767) then negsuc 32767 else v

unfoldable pub amplify_sample : ℕ → ℕ → ℕ
unfolding clamp16 scale int16 uint16
amplify_sample gain u = uint16 (clamp16 (scale gain (int16 u)))

-- The loop over `i`, `i + 1`; a last byte without a partner keeps the zero of `make`.
unfoldable pub amplify_pairs : ℕ → List ℕ → List ℕ
unfolding amplify_sample
amplify_pairs gain [] = []
amplify_pairs gain (odd ∷ []) = 0 ∷ []
amplify_pairs gain (lo ∷ hi ∷ rest) =
    let u = amplify_sample gain (le16 lo hi) in lo_byte u ∷ hi_byte u ∷ amplify_pairs gain rest

unfoldable pub amplify_pcm16 : List ℕ → ℕ → List ℕ
unfolding amplify_pairs
amplify_pcm16 bytes gain =
    if ltb (length bytes) 2 || nat_beq gain 1 then bytes else amplify_pairs gain bytes

-- int16(binary.LittleEndian.Uint16(data[2*k:])); `none` is an index out of range.
unfoldable pub sample_at : List ℕ → ℕ → Option ℤ
unfolding int16
sample_at bytes k = do
  lo ← get_elem? bytes (2 * k)
  hi ← get_elem? bytes (2 * k + 1)
  some (int16 (le16 lo hi))

-- One sample of `pcm16At16k`, in units of 1 / 65536. `pos` is 3i/2, so `frac` is 0 or 1/2, and every
-- value is a multiple of 1/65536 below 2: the float32 arithmetic is exact.
unfoldable pub resample_at : List ℕ → ℕ → Option ℤ
unfolding sample_at ◌+ℤ◌ ◌-ℤ◌ scale
resample_at bytes i = do
  let n = length bytes / 2
  let left = i * 3 / 2
  v ← sample_at bytes left
  if ltb (left + 1) n
      then (do next ← sample_at bytes (left + 1); some (scale 2 v +ℤ scale (i * 3 % 2) (next -ℤ v)))
      else some (scale 2 v)

unfoldable pub resample_from : List ℕ → ℕ → ℕ → Option (List ℤ)
unfolding resample_at
resample_from bytes i zero = some []
resample_from bytes i (suc k) = do
  v ← resample_at bytes i
  vs ← resample_from bytes (i + 1) k
  some (v ∷ vs)

-- pcm16At16k: 24 kHz PCM16 to 16 kHz samples.
unfoldable pub pcm16_at_16k : List ℕ → Option (List ℤ)
unfolding resample_from
pcm16_at_16k bytes = resample_from bytes 0 (length bytes / 2 * 2 / 3)
