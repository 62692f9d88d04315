-- ===== src/Calls/Audio/Pcm/Resample.antt =====
-- `pcm16At16k` reads no sample out of range, and what it makes are samples in [-1, 1).
use air_whatsbot.Common.{
  ℕ, zero, suc, ◌+◌, ◌*◌, ◌/◌, ◌%◌, ◌≤◌, ◌<◌, ◌≡◌, refl, ap, some, List, [], ◌∷◌, arith, length,
  All, ltb, ltb→lt, Bool-cases, inl, inr, get_elem?-some,
}
use air_whatsbot.Common.Int.{
  ℤ, pos, negsuc, IsInt16, int16, int16-IsInt16, scale, ◌≤ℤ◌, ◌+ℤ◌, ◌-ℤ◌, +ℤ_parts, -ℤ_parts,
  scale_parts,
}
use air_whatsbot.Calls.Audio.Pcm.{le16, sample_at, resample_at, resample_from, pcm16_at_16k}
use air_whatsbot.Calls.Audio.Pcm.Amplify.{IsByte}

sample_at-some :
    (bytes : List ℕ) (k : ℕ)
    → All IsByte bytes
    → k < length bytes / 2
    → (v : ℤ) × (sample_at bytes k ≡ some v) × IsInt16 v
unfolding sample_at
sample_at-some bytes k h l =
    let (lo, lo_at, lo_small) = get_elem?-some IsByte bytes (2 * k) h (omega arith) in
    let (hi, hi_at, hi_small) = get_elem?-some IsByte bytes (2 * k + 1) h (omega arith) in
    (int16 (le16 lo hi), rw (lo_at, hi_at), int16-IsInt16 (le16 lo hi) (omega arith))

-- In units of 1 / 65536: at least -1, and less than 1.
abbrev pub InRange : ℤ → Type 0
InRange v = (negsuc 65535 ≤ℤ v) × (v ≤ℤ pos 65534)

midpoint-InRange :
    (r : ℕ) (v next : ℤ)
    → r < 2
    → IsInt16 v
    → IsInt16 next
    → InRange (scale 2 v +ℤ scale r (next -ℤ v))
midpoint-InRange zero v next h i j =
    omega (
      arith,
      +ℤ_parts (scale 2 v) (scale 0 (next -ℤ v)),
      scale_parts 2 v,
      scale_parts 0 (next -ℤ v),
    )
midpoint-InRange (suc zero) v next h i j = omega (
  arith,
  +ℤ_parts (scale 2 v) (scale 1 (next -ℤ v)),
  scale_parts 2 v,
  scale_parts 1 (next -ℤ v),
  -ℤ_parts next v,
)
midpoint-InRange (suc (suc r)) v next h i j = absurd (omega arith)

double-InRange : (v : ℤ) → IsInt16 v → InRange (scale 2 v)
double-InRange v i = omega (arith, scale_parts 2 v)

resample_at-some :
    (bytes : List ℕ) (i : ℕ)
    → All IsByte bytes
    → i < length bytes / 2 * 2 / 3
    → (v : ℤ) × (resample_at bytes i ≡ some v) × InRange v
unfolding resample_at
resample_at-some bytes i h l =
    let (v, at, small) = sample_at-some bytes (i * 3 / 2) h (omega arith) in
    elim (Bool-cases (ltb (i * 3 / 2 + 1) (length bytes / 2))) [
      | inl t ↦
          let (next, at', small') = sample_at-some bytes (i * 3 / 2 + 1) h (ltb→lt _ _ t) in
          (
            scale 2 v +ℤ scale (i * 3 % 2) (next -ℤ v),
            rw (at, t, at'),
            midpoint-InRange (i * 3 % 2) v next (omega arith) small small',
          )
      | inr t ↦ (scale 2 v, rw (at, t), double-InRange v small)
    ]

resample_from-some :
    (bytes : List ℕ) (i k : ℕ)
    → All IsByte bytes
    → i + k ≤ length bytes / 2 * 2 / 3
    → (vs : List ℤ) × (resample_from bytes i k ≡ some vs) × (length vs ≡ k) × All InRange vs
unfolding resample_from
resample_from-some bytes i zero h l = ([], refl, refl, tt)
resample_from-some bytes i (suc k) h l =
    let (v, at, fits) = resample_at-some bytes i h (omega arith) in
    let (vs, rest, len, fit) = resample_from-some bytes (i + 1) k h (omega arith) in
    (v ∷ vs, rw (at, rest), ap suc len, (fits, fit))

-- Of any bytes, `pcm16At16k` returns without reading out of range, two samples for every three that
-- it is given, and each lies in [-1, 1).
pub pcm16_at_16k_total :
    (bytes : List ℕ)
    → All IsByte bytes
    → (vs : List ℤ) × (pcm16_at_16k bytes ≡ some vs)
      × (length vs ≡ length bytes / 2 * 2 / 3)
      × All InRange vs
unfolding pcm16_at_16k
pcm16_at_16k_total bytes h = resample_from-some bytes 0 (length bytes / 2 * 2 / 3) h (omega arith)
