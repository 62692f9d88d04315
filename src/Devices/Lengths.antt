-- ===== src/Devices/Lengths.antt =====
-- The lengths of normalised keys and signatures, and when they stay as they are.
use air_whatsbot.Common.{
  ℕ, ◌-◌, ◌≤◌, ◌≡◌, ◌≢◌, refl, ap, sym, ◌∙◌, subst, none, List, [], ◌∷◌, ◌++◌, arith, ltb, ltb→lt,
  ge→ltb, nat_beq, nat_beq_iff, if◌then◌else◌, length, length-append, length-take, take, Run, done,
  Returns, Bool-cases, inl, inr,
}
use air_whatsbot.Devices.Normal.{
  Crypto, cut, cut_less, decoded_or, hashed_key, hashed_signature, sized, normalized, normalize_key,
  normalize_signature,
}

abbrev pub HasLength : ℕ → List ℕ → Type 0
HasLength n bytes = length bytes ≡ n

take-HasLength : (n : ℕ) (bytes : List ℕ) → n ≤ length bytes → HasLength n (take n bytes)
take-HasLength n bytes h = length-take n bytes ∙ omega arith

cut-eq : (n : ℕ) (bytes : List ℕ) → n ≤ length bytes → cut n bytes ≡ done (take n bytes)
unfolding cut
cut-eq n bytes h = rw (ge→ltb (length bytes) n h) refl

module _ (crypto : Crypto) where
  key-HasLength :
      (target : ℕ) (bytes : List ℕ)
      → target ≤ 32
      → Returns (hashed_key crypto target bytes) (HasLength target)
  key-HasLength target bytes h =
      let enough : target ≤ length (crypto.sum256 bytes) =
        omega (arith, crypto.length_sum256 bytes) in
      rw (cut-eq target (crypto.sum256 bytes) enough)
        (take-HasLength target (crypto.sum256 bytes) enough)

  signature-HasLength :
      (target : ℕ) (bytes : List ℕ)
      → 32 ≤ target
      → target ≤ 64
      → Returns (hashed_signature crypto target bytes) (HasLength target)
  unfolding cut_less
  signature-HasLength target bytes low high =
      let hash1 = crypto.sum256 bytes in
      let hash2 = crypto.sum256 (bytes ++ hash1) in
      let long1 = crypto.length_sum256 bytes in
      let long2 = crypto.length_sum256 (bytes ++ hash1) in
      let enough : target - length hash1 ≤ length hash2 = omega arith in
      rw (ge→ltb target (length hash1) (omega arith)) (
        rw (cut-eq (target - length hash1) hash2 enough) (
          length-append hash1 (take (target - length hash1) hash2)
          ∙ (let rest = take-HasLength (target - length hash1) hash2 enough in omega arith)))

  sized-HasLength :
      (hashed : ℕ → List ℕ → Run (List ℕ)) (target : ℕ) (bytes : List ℕ)
      → Returns (hashed target bytes) (HasLength target)
      → Returns (sized crypto hashed target bytes) (HasLength target)
  sized-HasLength hashed target bytes h = elim (Bool-cases (nat_beq (length bytes) target)) [
    | inl y ↦ rw y ((nat_beq_iff (length bytes) target).0 y)
    | inr n ↦ rw n (elim (Bool-cases (ltb target (length bytes))) [
      | inl y ↦
          rw y (take-HasLength target bytes (let l = ltb→lt target (length bytes) y in omega arith))
      | inr m ↦ rw m h
    ])
  ]

  normalized-HasLength :
      (hashed : ℕ → List ℕ → Run (List ℕ)) (target : ℕ) (bytes : List ℕ)
      → ((raw : List ℕ) → Returns (hashed target raw) (HasLength target))
      → Returns (normalized crypto hashed target bytes) (HasLength target)
  normalized-HasLength hashed target [] h = crypto.length_random target
  normalized-HasLength hashed target (b ∷ bs) h =
      sized-HasLength hashed target _ (h (decoded_or (b ∷ bs) (crypto.decode_string (b ∷ bs))))

  -- Whatever the bytes, a key of up to 32 bytes is normalised to its length without a panic.
  pub normalize_key-HasLength :
      (target : ℕ) (bytes : List ℕ)
      → target ≤ 32
      → Returns (normalize_key crypto target bytes) (HasLength target)
  unfolding normalize_key
  normalize_key-HasLength target bytes h =
      normalized-HasLength (hashed_key crypto) target bytes (λ raw. key-HasLength target raw h)

  -- Whatever the bytes, a signature of 32 to 64 bytes is normalised to its length without a panic.
  pub normalize_signature-HasLength :
      (target : ℕ) (bytes : List ℕ)
      → 32 ≤ target
      → target ≤ 64
      → Returns (normalize_signature crypto target bytes) (HasLength target)
  unfolding normalize_signature
  normalize_signature-HasLength target bytes low high =
      normalized-HasLength (hashed_signature crypto) target bytes
        (λ raw. signature-HasLength target raw low high)

  -- Bytes that are no base64 text and have the right length.
  abbrev pub IsNormal : ℕ → List ℕ → Type 0
  IsNormal n bytes = (length bytes ≡ n) × (crypto.decode_string bytes ≡ none) × (bytes ≢ [])

  normalized-IsNormal :
      (hashed : ℕ → List ℕ → Run (List ℕ)) (target : ℕ) (bytes : List ℕ)
      → IsNormal target bytes
      → normalized crypto hashed target bytes ≡ done bytes
  normalized-IsNormal hashed target [] (l, d, n) = absurd (n refl)
  normalized-IsNormal hashed target (b ∷ bs) (l, d, n) =
      subst (λ o. sized crypto hashed target (decoded_or (b ∷ bs) o) ≡ done (b ∷ bs)) (sym d)
        (ap
          (λ same.
            if same
            then done (b ∷ bs)
            else if ltb target (length (b ∷ bs))
            then done (take target (b ∷ bs))
            else hashed target (b ∷ bs))
          ((nat_beq_iff (length (b ∷ bs)) target).1 l))

  -- A key or a signature that is normal stays as it is.
  pub normalize_key-IsNormal :
      (target : ℕ) (bytes : List ℕ)
      → IsNormal target bytes
      → normalize_key crypto target bytes ≡ done bytes
  unfolding normalize_key
  normalize_key-IsNormal target bytes h = normalized-IsNormal (hashed_key crypto) target bytes h

  pub normalize_signature-IsNormal :
      (target : ℕ) (bytes : List ℕ)
      → IsNormal target bytes
      → normalize_signature crypto target bytes ≡ done bytes
  unfolding normalize_signature
  normalize_signature-IsNormal target bytes h =
      normalized-IsNormal (hashed_signature crypto) target bytes h
