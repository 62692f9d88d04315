-- ===== src/Common/Map.antt =====
-- Go's `map` and `sync.Map` as association lists without order: a lookup reads the first entry of
-- a key, an insertion replaces it, a deletion removes every entry of it.
use air_whatsbot.Common.{
  ◌≤◌, ◌≡◌, refl, true, Option, none, some, List, [], ◌∷◌, arith, Eq, ◌==◌, if◌then◌else◌, length,
  All, Bool-cases, none≢some, inl, inr, subst, sym, ◌∙◌,
}

abbrev pub Map {ℓ κ} : Type ℓ → Type κ → Type (ℓ ⊔ κ)
Map K V = List (K × V)

pub beq_refl {ℓ} : {K : Type ℓ} ⦃e : Eq K⦄ (k : K) → (k == k) ≡ true
beq_refl ⦃e⦄ k = (e.agrees k k).1 refl

module _ {ℓ κ} {K : Type ℓ} {V : Type κ} ⦃e : Eq K⦄ where
  unfoldable pub lookup : K → Map K V → Option V
  lookup k [] = none
  lookup k ((j, v) ∷ m) = if j == k then some v else lookup k m

  unfoldable pub delete : K → Map K V → Map K V
  delete k [] = []
  delete k ((j, v) ∷ m) = let rest = delete k m in if j == k then rest else (j, v) ∷ rest

  unfoldable pub insert : K → V → Map K V → Map K V
  unfolding delete
  insert k v m = (k, v) ∷ delete k m

  pub lookup-delete :
      (k j : K) (m : Map K V) → lookup j (delete k m) ≡ (if k == j then none else lookup j m)
  unfolding lookup delete
  lookup-delete k j [] = ground arith
  lookup-delete k j ((i, v) ∷ m) =
      ground (arith, lookup-delete k j m, e.agrees i k, e.agrees i j, e.agrees k j)

  pub lookup-insert :
      (k j : K) (v : V) (m : Map K V)
      → lookup j (insert k v m) ≡ (if k == j then some v else lookup j m)
  unfolding lookup insert
  lookup-insert k j v m = ground (arith, lookup-delete k j m)

  pub lookup-insert_self : (k : K) (v : V) (m : Map K V) → lookup k (insert k v m) ≡ some v
  lookup-insert_self k v m = lookup-insert k k v m ∙ rw (beq_refl k) refl

  pub length-delete : (k : K) (m : Map K V) → length (delete k m) ≤ length m
  unfolding delete
  length-delete k [] = omega arith
  length-delete k ((j, v) ∷ m) = ground (arith, length-delete k m)

abbrev pub keys {ℓ κ} : {K : Type ℓ} {V : Type κ} → Map K V → List K
keys [] = []
keys ((k, v) ∷ m) = k ∷ keys m

module _ {ℓ κ} {K : Type ℓ} {V : Type κ} ⦃e : Eq K⦄ where
  -- What holds of all keys holds of a key that a lookup finds.
  pub All-keys :
      (P : K → Type 0) (k : K) (v : V) (m : Map K V) → All P (keys m) → lookup k m ≡ some v → P k
  unfolding lookup
  All-keys P k v [] ps h = absurd (none≢some h)
  All-keys P k v ((j, w) ∷ m) (p, ps) h = elim (Bool-cases (j == k)) [
    | inl y ↦ subst P ((e.agrees j k).0 y) p
    | inr n ↦ All-keys P k v m ps (sym (rw n refl) ∙ h)
  ]

  -- A map in which no lookup finds anything is empty.
  pub lookup-empty : (m : Map K V) → ((k : K) → lookup k m ≡ none) → m ≡ []
  unfolding lookup
  lookup-empty [] h = refl
  lookup-empty ((j, v) ∷ m) h = absurd (none≢some {a = v} (sym (h j) ∙ rw (beq_refl j) refl))
