-- ===== src/Common/Outcome.antt =====
-- What a statement of the program may do besides returning: panic (a send on a closed channel, a
-- second close) or block for ever (a send on a full channel that nobody drains).

pub data Run {ℓ} (A : Type ℓ) : Type ℓ where
  done : A → Run A
  panicked : Run A
  blocked : Run A

infixl 5 ◌>>=◌
abbrev pub ◌>>=◌ {ℓ κ} : {A : Type ℓ} {B : Type κ} → Run A → (A → Run B) → Run B
done a >>= f = f a
panicked >>= f = panicked
blocked >>= f = blocked

-- The computation returns, and what it returns satisfies `P`.
abbrev pub Returns {ℓ} : {A : Type ℓ} → Run A → (A → Type 0) → Type 0
Returns (done a) P = P a
Returns panicked P = ⊥
Returns blocked P = ⊥

-- A bind returns if its first part does and the second does from there.
pub Returns-bind {ℓ} :
    {A B : Type ℓ} (m : Run A) (f : A → Run B) (P : A → Type 0) (Q : B → Type 0)
    → Returns m P
    → ((a : A) → P a → Returns (f a) Q)
    → Returns (m >>= f) Q
Returns-bind (done a) f P Q h k = k a h
Returns-bind panicked f P Q h k = absurd h
Returns-bind blocked f P Q h k = absurd h

pub Returns-both {ℓ} :
    {A : Type ℓ} (m : Run A) (P Q : A → Type 0)
    → Returns m P
    → Returns m Q
    → Returns m (λ a. P a × Q a)
Returns-both (done a) P Q h k = (h, k)
Returns-both panicked P Q h k = absurd h
Returns-both blocked P Q h k = absurd h

pub Returns-imp {ℓ} :
    {A : Type ℓ} (m : Run A) (P Q : A → Type 0) → ((a : A) → P a → Q a) → Returns m P → Returns m Q
Returns-imp (done a) P Q f h = f a h
Returns-imp panicked P Q f h = h
Returns-imp blocked P Q f h = h
