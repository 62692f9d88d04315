-- ===== src/Calls/Audio/Upsample.antt =====
-- `pcm16At24k` of internal/whatsapp/calls/audio.go. The samples are float32 values of any kind: their
-- arithmetic is a parameter.
use air_whatsbot.Common.{
  ℕ, zero, suc, ◌+◌, ◌-◌, ◌*◌, ◌/◌, ◌≤◌, ◌<◌, ◌≡◌, refl, Bool, Option, some, List, [], ◌∷◌, ◌++◌,
  arith, ltb, ltb→lt, if◌then◌else◌, Bool-cases, inl, inr, length, length-append, length-replicate,
  get_elem?, get_elem?-some, replicate, All, All-append, All-Unit, All-replicate,
}
use air_whatsbot.Common.Fallible.{◌>>=◌}
use air_whatsbot.Calls.Audio.Pcm.{lo_byte, hi_byte}
use air_whatsbot.Calls.Audio.Pcm.Amplify.{IsByte}

-- Go's float32, as far as the conversion uses it.
pub record Float32 : Type 1 where
  pub F : Type 0
  pub add : F → F → F
  pub sub : F → F → F
  pub mul : F → F → F
  pub lt : F → F → Bool
  pub one : F
  pub minus_one : F
  pub frac : ℕ → F  -- float32(pos - float64(left)) for pos = i * 2 / 3
  pub pcm : F → ℕ  -- uint16(int16(v * 32767))
  pub pcm_lt : (v : F) → pcm v < 65536

module _ (float : Float32) where
  open float use {F, add, sub, mul, lt, one, minus_one, frac, pcm, pcm_lt}

  unfoldable pub limit : F → F
  limit v = let v' = if lt one v then one else v in if lt v' minus_one then minus_one else v'

  -- The value for output sample `i`; `none` is an index out of range.
  unfoldable pub interpolate : List F → ℕ → Option F
  unfolding limit
  interpolate frame i = do
    let left = i * 2 / 3
    v ← get_elem? frame left
    if ltb (left + 1) (length frame)
        then (do
          next ← get_elem? frame (left + 1)
          some (limit (add v (mul (sub next v) (frac i)))))
        else some (limit v)

  unfoldable pub upsample_from : List F → ℕ → ℕ → Option (List ℕ)
  unfolding interpolate
  upsample_from frame i zero = some []
  upsample_from frame i (suc k) = do
    v ← interpolate frame i
    rest ← upsample_from frame (i + 1) k
    some (lo_byte (pcm v) ∷ hi_byte (pcm v) ∷ rest)

  -- `out` has 3 bytes for each sample; what the loop does not reach keeps the zero of `make`.
  unfoldable pub pcm16_at_24k : List F → Option (List ℕ)
  unfolding upsample_from
  pcm16_at_24k frame = do
    let k = length frame * 3 / 2
    written ← upsample_from frame 0 k
    some (written ++ replicate (length frame * 3 - 2 * k) 0)

  interpolate-some :
      (frame : List F) (i : ℕ) → i < length frame * 3 / 2 → (v : F) × (interpolate frame i ≡ some v)
  unfolding interpolate
  interpolate-some frame i l =
      let (v, at, _) =
        get_elem?-some (λ _. Unit) frame (i * 2 / 3) (All-Unit frame) (omega arith) in
      elim (Bool-cases (ltb (i * 2 / 3 + 1) (length frame))) [
        | inl t ↦
            let (next, at', _) =
              get_elem?-some (λ _. Unit) frame (i * 2 / 3 + 1) (All-Unit frame) (ltb→lt _ _ t) in
            (limit (add v (mul (sub next v) (frac i))), rw (at, t, at'))
        | inr t ↦ (limit v, rw (at, t))
      ]

  upsample_from-some :
      (frame : List F) (i k : ℕ)
      → i + k ≤ length frame * 3 / 2
      → (bytes : List ℕ) × (upsample_from frame i k ≡ some bytes)
        × (length bytes ≡ 2 * k)
        × All IsByte bytes
  unfolding upsample_from
  upsample_from-some frame i zero l = ([], refl, refl, tt)
  upsample_from-some frame i (suc k) l =
      let (v, at) = interpolate-some frame i (omega arith) in
      let (bytes, rest, len, small) = upsample_from-some frame (i + 1) k (omega arith) in
      (
        lo_byte (pcm v) ∷ hi_byte (pcm v) ∷ bytes,
        rw (at, rest),
        omega arith,
        (omega arith, (omega (arith, pcm_lt v), small)),
      )

  -- Of any frame, `pcm16At24k` returns without reading or writing out of range, and makes three bytes
  -- for each sample of the frame.
  pub pcm16_at_24k_total :
      (frame : List F)
      → (bytes : List ℕ) × (pcm16_at_24k frame ≡ some bytes)
        × (length bytes ≡ 3 * length frame)
        × All IsByte bytes
  unfolding pcm16_at_24k
  pcm16_at_24k_total frame =
      let k = length frame * 3 / 2 in
      let (bytes, made, len, small) = upsample_from-some frame 0 k (omega arith) in
      let pad = length frame * 3 - 2 * k in
      (
        bytes ++ replicate pad 0,
        rw made,
        omega (arith, length-append bytes (replicate pad 0), length-replicate {A = ℕ} pad 0),
        All-append IsByte bytes (replicate pad 0) small (All-replicate IsByte pad 0 (omega arith)),
      )
