-- ===== src/Calls/Audio/Pcm/Amplify.antt =====
-- `amplifyPCM16` multiplies every sample and saturates.
use air_whatsbot.Common.{
  ℕ, ◌<◌, ◌≡◌, refl, List, [], ◌∷◌, map, arith, length, All, ge→ltb, nat_beq, nat_beq_iff,
  Bool-cases, inl, inr,
}
use air_whatsbot.Common.Int.{
  ℤ, pos, negsuc, IsInt16, int16, int16-IsInt16, int16-uint16, uint16-lt, scale,
}
use air_whatsbot.Calls.Audio.Pcm.{
  le16, lo_byte, hi_byte, clamp16, amplify_sample, amplify_pairs, amplify_pcm16,
}

abbrev pub IsByte : ℕ → Type 0
IsByte b = b < 256

-- The signal that a list of bytes stands for.
unfoldable pub samples : List ℕ → List ℤ
samples [] = []
samples (odd ∷ []) = []
samples (lo ∷ hi ∷ rest) = int16 (le16 lo hi) ∷ samples rest

abbrev pub amplified : ℕ → ℤ → ℤ
amplified gain v = clamp16 (scale gain v)

clamp16-IsInt16 : (v : ℤ) → IsInt16 (clamp16 v)
unfolding clamp16
clamp16-IsInt16 (pos n) = ground arith
clamp16-IsInt16 (negsuc n) = ground arith

clamp16_inside : (v : ℤ) → IsInt16 v → clamp16 v ≡ v
unfolding clamp16
clamp16_inside (pos n) h = ground arith
clamp16_inside (negsuc n) h = ground arith

scale-one : (v : ℤ) → scale 1 v ≡ v
unfolding scale
scale-one (pos n) = ground arith
scale-one (negsuc n) = ground arith

le16-bytes : (u : ℕ) → le16 (lo_byte u) (hi_byte u) ≡ u
le16-bytes u = omega arith

-- The two bytes written for a sample read back as the amplified sample.
int16-amplify_sample : (gain u : ℕ) → int16 (amplify_sample gain u) ≡ amplified gain (int16 u)
unfolding amplify_sample
int16-amplify_sample gain u = int16-uint16 _ (clamp16-IsInt16 (scale gain (int16 u)))

amplify_sample-lt : (gain u : ℕ) → amplify_sample gain u < 65536
unfolding amplify_sample
amplify_sample-lt gain u = uint16-lt _

samples-amplify_pairs :
    (gain : ℕ) (bytes : List ℕ)
    → samples (amplify_pairs gain bytes) ≡ map (amplified gain) (samples bytes)
unfolding samples amplify_pairs
samples-amplify_pairs gain [] = refl
samples-amplify_pairs gain (odd ∷ []) = refl
samples-amplify_pairs gain (lo ∷ hi ∷ rest) = rw (
  le16-bytes (amplify_sample gain (le16 lo hi)),
  int16-amplify_sample gain (le16 lo hi),
  samples-amplify_pairs gain rest,
)

map-amplified-one :
    (bytes : List ℕ) → All IsByte bytes → samples bytes ≡ map (amplified 1) (samples bytes)
unfolding samples
map-amplified-one [] h = refl
map-amplified-one (odd ∷ []) h = refl
map-amplified-one (lo ∷ hi ∷ rest) h = cc (
  map-amplified-one rest h.1.1,
  scale-one (int16 (le16 lo hi)),
  clamp16_inside (int16 (le16 lo hi)) (int16-IsInt16 (le16 lo hi) (omega arith)),
)

length-amplify_pairs :
    (gain : ℕ) (bytes : List ℕ) → length (amplify_pairs gain bytes) ≡ length bytes
unfolding amplify_pairs
length-amplify_pairs gain [] = refl
length-amplify_pairs gain (odd ∷ []) = refl
length-amplify_pairs gain (lo ∷ hi ∷ rest) = omega (arith, length-amplify_pairs gain rest)

amplify_pairs-IsByte : (gain : ℕ) (bytes : List ℕ) → All IsByte (amplify_pairs gain bytes)
unfolding amplify_pairs
amplify_pairs-IsByte gain [] = tt
amplify_pairs-IsByte gain (odd ∷ []) = omega arith
amplify_pairs-IsByte gain (lo ∷ hi ∷ rest) = (
  omega arith,
  (omega (arith, amplify_sample-lt gain (le16 lo hi)), amplify_pairs-IsByte gain rest),
)

-- Of bytes, `amplifyPCM16` with a whole gain makes as many bytes, and the signal that they stand for
-- is the old one with every sample multiplied by the gain and cut off at -32768 and 32767.
amplify_pcm16-samples :
    (bytes : List ℕ) (gain : ℕ)
    → All IsByte bytes
    → (samples (amplify_pcm16 bytes gain) ≡ map (amplified gain) (samples bytes))
      × (length (amplify_pcm16 bytes gain) ≡ length bytes)
      × All IsByte (amplify_pcm16 bytes gain)
unfolding amplify_pcm16
amplify_pcm16-samples [] gain h = unfold samples in (refl, refl, tt)
amplify_pcm16-samples (odd ∷ []) gain h = unfold samples in (refl, refl, h)
amplify_pcm16-samples (lo ∷ hi ∷ rest) gain h = elim (Bool-cases (nat_beq gain 1)) [
  | inl one ↦
      rw (ge→ltb (length (lo ∷ hi ∷ rest)) 2 (omega arith), one, (nat_beq_iff gain 1).0 one)
        (map-amplified-one (lo ∷ hi ∷ rest) h, refl, h)
  | inr more ↦
      rw (ge→ltb (length (lo ∷ hi ∷ rest)) 2 (omega arith), more)
        (
          samples-amplify_pairs gain (lo ∷ hi ∷ rest),
          length-amplify_pairs gain (lo ∷ hi ∷ rest),
          amplify_pairs-IsByte gain (lo ∷ hi ∷ rest),
        )
]
