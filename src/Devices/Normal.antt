-- ===== src/Devices/Normal.antt =====
-- `normalizeKey` and `normalizeSignature` of internal/whatsapp/devicestore/device.go.
use air_whatsbot.Common.{
  ℕ, ◌-◌, ◌≡◌, Option, none, some, List, [], ◌∷◌, ◌++◌, ltb, nat_beq, if◌then◌else◌, length, take,
  Run, done, panicked, ◌>>=◌,
}

-- crypto/rand, crypto/sha256 and encoding/base64
pub record Crypto : Type 0 where
  pub random_bytes : ℕ → List ℕ  -- what `rand.Read` writes to a buffer of that length
  pub length_random : (n : ℕ) → length (random_bytes n) ≡ n
  pub sum256 : List ℕ → List ℕ
  pub length_sum256 : (bytes : List ℕ) → length (sum256 bytes) ≡ 32
  pub decode_string : List ℕ → Option (List ℕ)

-- data[:n], which panics where there are fewer
unfoldable pub cut : ℕ → List ℕ → Run (List ℕ)
cut n bytes = if ltb (length bytes) n then panicked else done (take n bytes)

-- hash2[:targetLen-len(hash1)]: a negative bound panics
unfoldable pub cut_less : ℕ → ℕ → List ℕ → Run (List ℕ)
cut_less target used bytes = if ltb target used then panicked else cut (target - used) bytes

-- The bytes as they are, where they are not base64
abbrev pub decoded_or : List ℕ → Option (List ℕ) → List ℕ
decoded_or bytes none = bytes
decoded_or bytes (some raw) = raw

module _ (crypto : Crypto) where
  open crypto use {random_bytes, sum256, decode_string}

  abbrev pub hashed_key : ℕ → List ℕ → Run (List ℕ)
  hashed_key target bytes = cut target (sum256 bytes)

  abbrev pub hashed_signature : ℕ → List ℕ → Run (List ℕ)
  hashed_signature target bytes =
      let hash1 = sum256 bytes in
      cut_less target (length hash1) (sum256 (bytes ++ hash1)) >>= λ rest. done (hash1 ++ rest)

  -- The bytes of the right length, cut, or hashed
  abbrev pub sized : (ℕ → List ℕ → Run (List ℕ)) → ℕ → List ℕ → Run (List ℕ)
  sized hashed target bytes =
      if nat_beq (length bytes) target
      then done bytes
      else if ltb target (length bytes)
      then done (take target bytes)
      else hashed target bytes

  abbrev pub normalized : (ℕ → List ℕ → Run (List ℕ)) → ℕ → List ℕ → Run (List ℕ)
  normalized hashed target [] = done (random_bytes target)
  normalized hashed target (b ∷ bs) =
      sized hashed target (decoded_or (b ∷ bs) (decode_string (b ∷ bs)))

  -- normalizeKey(data, targetLen)
  unfoldable pub normalize_key : ℕ → List ℕ → Run (List ℕ)
  normalize_key target bytes = normalized hashed_key target bytes

  -- normalizeSignature(data, targetLen)
  unfoldable pub normalize_signature : ℕ → List ℕ → Run (List ℕ)
  normalize_signature target bytes = normalized hashed_signature target bytes
