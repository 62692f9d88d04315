-- ===== src/Contacts/Hash.antt =====
-- The number that stands for a JID, and its range.
use air_whatsbot.Common.{
  ℕ, ◌+◌, ◌-◌, ◌*◌, ◌%◌, ◌^◌, ◌≤◌, ◌<◌, ◌≡◌, ◌≢◌, refl, List, [], ◌∷◌, arith, ltb, ltb→lt, ltb→ge,
  lt→ltb, if◌then◌else◌, Bool-cases, inl, inr,
}
use air_whatsbot.Common.Int.{ℤ, pos, negsuc}
use air_whatsbot.Responder.{int64}

-- `hash = 31*hash + int64(char)` over the characters, on the bits of the int64
unfoldable pub hash_bits : ℕ → List ℕ → ℕ
hash_bits hash [] = hash
hash_bits hash (char ∷ chars) = hash_bits ((31 * hash + char) % 2 ^ 64) chars

-- `if hash < 0 { hash = -hash }`: the negation wraps
abbrev pub positive_bits : ℕ → ℕ
positive_bits hash = if ltb hash (2 ^ 63) then hash else (2 ^ 64 - hash) % 2 ^ 64

-- The ID of a JID's text
unfoldable pub jid_id : List ℕ → ℤ
jid_id text = int64 (positive_bits (hash_bits 0 text))

hash_bits-lt : (hash : ℕ) (text : List ℕ) → hash < 2 ^ 64 → hash_bits hash text < 2 ^ 64
unfolding hash_bits
hash_bits-lt hash [] h = h
hash_bits-lt hash (char ∷ chars) h = hash_bits-lt ((31 * hash + char) % 2 ^ 64) chars (omega arith)

-- The ID that is not positive.
abbrev pub least_int64 : ℤ
least_int64 = negsuc (2 ^ 63 - 1)

abbrev pub IsNonneg : ℤ → Type 0
IsNonneg (pos n) = n < 2 ^ 63
IsNonneg (negsuc n) = ⊥

int64-small : (u : ℕ) → u < 2 ^ 63 → IsNonneg (int64 u)
unfolding int64
int64-small u h = rw (lt→ltb u (2 ^ 63) h) h

bits-IsNonneg : (u : ℕ) → u < 2 ^ 64 → u ≢ 2 ^ 63 → IsNonneg (int64 (positive_bits u))
bits-IsNonneg u h n = elim (Bool-cases (ltb u (2 ^ 63))) [
  | inl y ↦ rw y (int64-small u (ltb→lt u (2 ^ 63) y))
  | inr y ↦ rw y (int64-small ((2 ^ 64 - u) % 2 ^ 64) (below u h n (ltb→ge u (2 ^ 63) y)))
]
  where
    below : (u : ℕ) → u < 2 ^ 64 → u ≢ 2 ^ 63 → 2 ^ 63 ≤ u → (2 ^ 64 - u) % 2 ^ 64 < 2 ^ 63
    below u h n ge = omega arith

least_bits : (u : ℕ) → u ≡ 2 ^ 63 → int64 (positive_bits u) ≡ least_int64
unfolding int64
least_bits u e = rw e refl

-- The ID of a JID is an int64 that is not negative, with one exception: where the bits of the hash are
-- those of the least int64, its negation wraps and the ID is that negative number.
jid_id_lem :
    (text : List ℕ)
    → ((hash_bits 0 text ≢ 2 ^ 63) → IsNonneg (jid_id text))
      × (hash_bits 0 text ≡ 2 ^ 63 → jid_id text ≡ least_int64)
unfolding jid_id
jid_id_lem text = (
  bits-IsNonneg (hash_bits 0 text) (hash_bits-lt 0 text (omega arith)),
  least_bits (hash_bits 0 text),
)
