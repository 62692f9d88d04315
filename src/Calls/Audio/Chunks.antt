-- ===== src/Calls/Audio/Chunks.antt =====
-- The loops of calls.go that cut a stream into pieces of one length:
-- `for len(pending) >= n { piece := pending[:n]; pending = pending[n:]; … }`.
use mathlib.Core.Path.{◌≡⟨◌⟩◌, ◌∎}
use air_whatsbot.Common.{
  sym, ℕ, zero, suc, ◌≤◌, ◌<◌, ◌≡◌, refl, ap, ◌∙◌, List, [], ◌∷◌, ◌++◌, append_assoc, append-nil,
  arith, ltb, ltb→lt, ltb→ge, if◌then◌else◌, Bool-cases, inl, inr, length, take, drop, length-take,
  length-drop, take-append-drop, All,
}

module _ {ℓ} {A : Type ℓ} where
  unfoldable pub concat : List (List A) → List A
  concat [] = []
  concat (xs ∷ xss) = xs ++ concat xss

  -- The pieces, and what stays pending, after at most `fuel` rounds.
  unfoldable pub cut : ℕ → ℕ → List A → List (List A) × List A
  cut zero n pending = ([], pending)
  cut (suc fuel) n pending =
      let rest = cut fuel n (drop n pending) in
      if ltb (length pending) n then ([], pending) else (take n pending ∷ rest.0, rest.1)

  -- A round takes `n` elements, so with 0 < n there are no more rounds than elements.
  unfoldable pub pieces : ℕ → List A → List (List A) × List A
  unfolding cut
  pieces n pending = cut (length pending) n pending

  pub concat-append : (xss yss : List (List A)) → concat (xss ++ yss) ≡ concat xss ++ concat yss
  unfolding concat
  concat-append [] yss = refl
  concat-append (xs ∷ xss) yss = rw (concat-append xss yss, append_assoc)

module _ {ℓ} {A : Type ℓ} (n : ℕ) where
  abbrev pub HasLength : List A → Type 0
  HasLength xs = length xs ≡ n

  -- Nothing is lost or reordered, whatever the fuel.
  cut-concat : (fuel : ℕ) (xs : List A) → concat (cut fuel n xs).0 ++ (cut fuel n xs).1 ≡ xs
  unfolding cut concat
  cut-concat zero xs = refl
  cut-concat (suc fuel) xs = elim (Bool-cases (ltb (length xs) n)) [
    | inl short ↦ rw short
    | inr long ↦ rw (long, append_assoc, cut-concat fuel (drop n xs)) (take-append-drop n xs)
  ]

  cut-HasLength : (fuel : ℕ) (xs : List A) → All HasLength (cut fuel n xs).0
  unfolding cut
  cut-HasLength zero xs = tt
  cut-HasLength (suc fuel) xs = elim (Bool-cases (ltb (length xs) n)) [
    | inl short ↦ rw short tt
    | inr long ↦
        rw long (omega (arith, length-take n xs, ltb→ge _ _ long), cut-HasLength fuel (drop n xs))
  ]

  cut-rest : (fuel : ℕ) (xs : List A) → 0 < n → length xs ≤ fuel → length (cut fuel n xs).1 < n
  unfolding cut
  cut-rest zero xs p h = omega arith
  cut-rest (suc fuel) xs p h = elim (Bool-cases (ltb (length xs) n)) [
    | inl short ↦ rw short (ltb→lt _ _ short)
    | inr long ↦
        rw long (cut-rest fuel (drop n xs) p (omega (arith, length-drop n xs, ltb→ge _ _ long)))
  ]

  pub pieces_lem :
      (xs : List A)
      → 0 < n
      → (concat (pieces n xs).0 ++ (pieces n xs).1 ≡ xs)
        × All HasLength (pieces n xs).0
        × (length (pieces n xs).1 < n)
  unfolding pieces
  pieces_lem xs p = (
    cut-concat (length xs) xs,
    cut-HasLength (length xs) xs,
    cut-rest (length xs) xs p (omega arith),
  )

-- Two rounds of cutting, one after the other.
pub concat-append-append {ℓ} :
    {A : Type ℓ} (xss yss : List (List A)) (mid last p l s : List A)
    → concat xss ++ mid ≡ p ++ l
    → concat yss ++ last ≡ mid ++ s
    → concat (xss ++ yss) ++ last ≡ p ++ (l ++ s)
concat-append-append xss yss mid last p l s h k =
    concat (xss ++ yss) ++ last
    ≡⟨ ap (λ xs. xs ++ last) (concat-append xss yss) ⟩ (concat xss ++ concat yss) ++ last
    ≡⟨ append_assoc (concat xss) (concat yss) last ⟩ concat xss ++ (concat yss ++ last)
    ≡⟨ ap (λ xs. concat xss ++ xs) k ⟩ concat xss ++ (mid ++ s)
    ≡⟨ sym (append_assoc (concat xss) mid s) ⟩ (concat xss ++ mid) ++ s
    ≡⟨ ap (λ xs. xs ++ s) h ⟩ (p ++ l) ++ s
    ≡⟨ append_assoc p l s ⟩ p ++ (l ++ s) ∎

pub concat-append-last {ℓ} :
    {A : Type ℓ} (xss yss : List (List A)) (mid p l s : List A)
    → concat xss ++ mid ≡ p ++ l
    → concat yss ≡ mid ++ s
    → concat (xss ++ yss) ≡ p ++ (l ++ s)
concat-append-last xss yss mid p l s h k =
    sym (append-nil (concat (xss ++ yss)))
    ∙ concat-append-append xss yss mid [] p l s h (append-nil (concat yss) ∙ k)
