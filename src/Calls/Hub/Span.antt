-- ===== src/Calls/Hub/Span.antt =====
-- Runs of consecutive sequence numbers, and the events that carry them.
use Prim.Native.Nat.{max}
use air_whatsbot.Common.{
  ℕ, zero, suc, ◌+◌, ◌-◌, ◌≤◌, ◌<◌, ◌≡◌, refl, ap, ◌∙◌, List, [], ◌∷◌, ◌++◌, map, arith, ltb,
  ltb→lt, ltb→ge, drop, select, All, All-append, Bool-cases, inl, inr,
}
use native.Mathlib.Nat.{add-zero, sub-zero}
use air_whatsbot.Calls.Hub.{CallEvent}

-- The n numbers from a on.
unfoldable pub span : ℕ → ℕ → List ℕ
span a zero = []
span a (suc n) = a ∷ span (suc a) n

pub span-cong : (a b m n : ℕ) → a ≡ b → m ≡ n → span a m ≡ span b n
span-cong a b m n p q = cc

span-nil : (a n : ℕ) → n ≡ 0 → [] ≡ span a n
unfolding span
span-nil a n e = rw e

pub drop-span : (k a n : ℕ) → drop k (span a n) ≡ span (a + k) (n - k)
unfolding span
drop-span zero a n = rw (add-zero, sub-zero)
drop-span (suc k) a zero = span-nil (a + suc k) (0 - suc k) (omega arith)
drop-span (suc k) a (suc n) =
    drop-span k (suc a) n
    ∙ span-cong (suc a + k) (a + suc k) (n - k) (suc n - suc k) (omega arith) (omega arith)

pub span-append : (a n b : ℕ) → b ≡ a + n → span a n ++ b ∷ [] ≡ span a (suc n)
unfolding span
span-append a zero b e = rw e (rw add-zero)
span-append a (suc n) b e = ap (◌∷◌ a) (span-append (suc a) n b (omega arith))

pub select-span :
    (after a n : ℕ)
    → select (ltb after) (span (suc a) n) ≡ span (suc (max a after)) (a + n - max a after)
unfolding span
select-span after a zero = span-nil (suc (max a after)) (a + 0 - max a after) (omega arith)
select-span after a (suc n) = elim (Bool-cases (ltb after (suc a))) [
  | inl t ↦
      let l = ltb→lt after (suc a) t in
      rw (t, select-span after (suc a) n)
        (ap (◌∷◌ (suc a)) (span-cong _ (suc (suc a)) _ n (omega arith) (omega arith))
          ∙ span-cong (suc a) (suc (max a after)) (suc n) (a + suc n - max a after) (omega arith)
              (omega arith))
  | inr t ↦
      let l = ltb→ge after (suc a) t in
      rw (t, select-span after (suc a) n) (span-cong _ _ _ _ (omega arith) (omega arith))
]

module _ {Err File : Type 0} where
  abbrev pub sequences : List (CallEvent Err File) → List ℕ
  sequences = map (λ e. e.sequence)

  pub sequences-drop :
      (k : ℕ) (events : List (CallEvent Err File))
      → sequences (drop k events) ≡ drop k (sequences events)
  sequences-drop zero events = refl
  sequences-drop (suc k) [] = refl
  sequences-drop (suc k) (e ∷ events) = sequences-drop k events

  pub sequences-select :
      (after : ℕ) (events : List (CallEvent Err File))
      → sequences (select (λ e. ltb after e.sequence) events)
        ≡ select (ltb after) (sequences events)
  sequences-select after [] = refl
  sequences-select after (e ∷ events) = elim (Bool-cases (ltb after e.sequence)) [
    | inl t ↦ rw t (ap (◌∷◌ e.sequence) (sequences-select after events))
    | inr t ↦ rw t (sequences-select after events)
  ]

-- Numbers in strictly ascending order, none above `hi`.
abbrev pub Ascends : ℕ → List ℕ → Type 0
Ascends hi [] = Unit
Ascends hi (x ∷ xs) = (x ≤ hi) × All (λ y. x < y) xs × Ascends hi xs

All-le-imp : (lo hi : ℕ) (xs : List ℕ) → lo ≤ hi → All (λ y. hi < y) xs → All (λ y. lo < y) xs
All-le-imp lo hi [] h a = tt
All-le-imp lo hi (x ∷ xs) h a = (omega arith, All-le-imp lo hi xs h a.1)

pub Ascends-weaken : (lo hi : ℕ) (xs : List ℕ) → lo ≤ hi → Ascends lo xs → Ascends hi xs
Ascends-weaken lo hi [] h a = tt
Ascends-weaken lo hi (x ∷ xs) h a = (omega arith, a.1, Ascends-weaken lo hi xs h a.2)

pub Ascends-append :
    (lo hi : ℕ) (xs : List ℕ) → lo < hi → Ascends lo xs → Ascends hi (xs ++ hi ∷ [])
Ascends-append lo hi [] h a = (omega arith, tt, tt)
Ascends-append lo hi (x ∷ xs) h a = (
  omega arith,
  All-append (λ y. x < y) xs (hi ∷ []) a.1 (omega arith, tt),
  Ascends-append lo hi xs h a.2,
)

All-span : (x a n : ℕ) → x < a → All (λ y. x < y) (span a n)
unfolding span
All-span x a zero h = tt
All-span x a (suc n) h = (h, All-span x (suc a) n (omega arith))

pub Ascends-span : (hi a n : ℕ) → (0 < n → a + n ≤ suc hi) → Ascends hi (span a n)
unfolding span
Ascends-span hi a zero h = tt
Ascends-span hi a (suc n) h = (
  omega (arith, h (omega arith)),
  All-span a (suc a) n (omega arith),
  Ascends-span hi (suc a) n (λ _. omega (arith, h (omega arith))),
)
