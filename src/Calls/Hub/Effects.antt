-- ===== src/Calls/Hub/Effects.antt =====
-- The loops of the event hub in closed form, where no channel that they touch is closed.
use air_whatsbot.Common.{
  ℕ, ◌+◌, ◌≤◌, ◌≡◌, refl, true, false, List, [], ◌∷◌, ◌++◌, append-nil, append_assoc, fun_ext,
  arith, ltb, nat_beq, nat_beq_iff, if◌then◌else◌, length, length-append, select, All, done,
  Bool-cases, inl, inr, ap,
}
use air_whatsbot.Common.Chan.{Chan, has_room, push, send, try_send, close_chan}
use air_whatsbot.Calls.Hub.{CallEvent, update, mem, broadcast, fill, close_all}

abbrev pub Distinct : List ℕ → Type 0
Distinct [] = Unit
Distinct (x ∷ xs) = (mem x xs ≡ false) × Distinct xs

module _ {ℓ} {A : Type ℓ} {P Q : A → Type 0} where
  pub All-imp : (xs : List A) → ((x : A) → P x → Q x) → All P xs → All Q xs
  All-imp [] f h = tt
  All-imp (x ∷ xs) f h = (f x h.0, All-imp xs f h.1)

pub All-mem : (P : ℕ → Type 0) (j : ℕ) (xs : List ℕ) → All P xs → mem j xs ≡ true → P j
All-mem P j [] h m = cc
All-mem P j (x ∷ xs) h m = elim (Bool-cases (nat_beq x j)) [
  | inl e ↦ rw (← (nat_beq_iff x j).0 e) h.0
  | inr e ↦ All-mem P j xs h.1 (rw e at m)
]

module _ {Err File : Type 0} where
  -- A subscriber whose channel is full loses the event.
  abbrev pub deliver : CallEvent Err File → Chan (CallEvent Err File) → Chan (CallEvent Err File)
  deliver event c = if has_room c then push event c else c

  abbrev pub IsOpen : (ℕ → Chan (CallEvent Err File)) → ℕ → Type 0
  IsOpen chan ch = (chan ch).closed ≡ false

  pub deliver_closed :
      (event : CallEvent Err File) (c : Chan (CallEvent Err File))
      → (deliver event c).closed ≡ c.closed
  deliver_closed event c = ground arith

  pub update-IsOpen :
      (chan : ℕ → Chan (CallEvent Err File)) (ch j : ℕ) (c : Chan (CallEvent Err File))
      → c.closed ≡ (chan ch).closed
      → IsOpen chan j
      → IsOpen (update chan ch c) j
  update-IsOpen chan ch j c e o = ground (arith, nat_beq_iff ch j)

  -- An open channel takes the event if it has room, and is not otherwise touched.
  try_send-open :
      (event : CallEvent Err File) (c : Chan (CallEvent Err File))
      → c.closed ≡ false
      → try_send event c ≡ done (deliver event c, has_room c)
  unfolding try_send
  try_send-open event c o = ground arith

  -- A loop over distinct channels changes each of them once.
  one_by_one :
      (g : Chan (CallEvent Err File) → Chan (CallEvent Err File)) (ch j : ℕ) (rest : List ℕ)
      (chan : ℕ → Chan (CallEvent Err File))
      → mem ch rest ≡ false
      → (if mem j rest then g (update chan ch (g (chan ch)) j) else update chan ch (g (chan ch)) j)
        ≡ (if mem j (ch ∷ rest) then g (chan j) else chan j)
  one_by_one g ch j rest chan d = elim (Bool-cases (nat_beq ch j)) [
    | inl e ↦
        let p = (nat_beq_iff ch j).0 e in let m : mem j rest ≡ false = rw (← p) d in rw (m, e, p)
    | inr e ↦ rw e
  ]

  pub broadcast-eq :
      (event : CallEvent Err File) (subs : List ℕ) (chan : ℕ → Chan (CallEvent Err File))
      → Distinct subs
      → All (IsOpen chan) subs
      → broadcast event subs chan
        ≡ done (λ j. if mem j subs then deliver event (chan j) else chan j)
  unfolding broadcast
  broadcast-eq event [] chan d o = refl
  broadcast-eq event (ch ∷ rest) chan d o = rw (try_send-open event (chan ch) o.0) (
      rw
        (broadcast-eq event rest (update chan ch (deliver event (chan ch))) d.1
          (All-imp rest (λ j. update-IsOpen chan ch j _ (deliver_closed event (chan ch))) o.1))
        (ap done (fun_ext λ j. one_by_one (deliver event) ch j rest chan d.0)))

  send-open :
      (event : CallEvent Err File) (c : Chan (CallEvent Err File))
      → c.closed ≡ false
      → length c.buf + 1 ≤ c.cap
      → send event c ≡ done (push event c)
  unfolding send
  send-open event c o h = ground arith

  pub fill-eq :
      (after : ℕ) (events : List (CallEvent Err File)) (c : Chan (CallEvent Err File))
      → c.closed ≡ false
      → length c.buf + length events ≤ c.cap
      → fill after events c
        ≡ done (record c { buf = c.buf ++ select (λ e. ltb after e.sequence) events })
  unfolding fill
  fill-eq after [] c o h = rw append-nil
  fill-eq after (e ∷ events) c o h = elim (Bool-cases (ltb after e.sequence)) [
    | inl t ↦
        rw (t, send-open e c o (omega arith))
          (rw (fill-eq after events (push e c) o (omega (arith, length-append c.buf (e ∷ []))))
            (rw append_assoc))
    | inr t ↦ rw t (fill-eq after events c o (omega arith))
  ]

  -- A channel outside a list may be replaced.
  pub All-IsOpen-update :
      (chan : ℕ → Chan (CallEvent Err File)) (ch : ℕ) (c : Chan (CallEvent Err File)) (xs : List ℕ)
      → mem ch xs ≡ false
      → All (IsOpen chan) xs
      → All (IsOpen (update chan ch c)) xs
  All-IsOpen-update chan ch c [] m o = tt
  All-IsOpen-update chan ch c (x ∷ xs) m o = (
    ground (arith, nat_beq_iff ch x, nat_beq_iff x ch),
    All-IsOpen-update chan ch c xs (ground arith) o.1,
  )

  pub close_chan-open :
      (c : Chan (CallEvent Err File))
      → c.closed ≡ false
      → close_chan c ≡ done (record c { closed = true })
  unfolding close_chan
  close_chan-open c o = ground arith

  pub close_all-eq :
      (subs : List ℕ) (chan : ℕ → Chan (CallEvent Err File))
      → Distinct subs
      → All (IsOpen chan) subs
      → close_all subs chan
        ≡ done (λ j. if mem j subs then record (chan j) { closed = true } else chan j)
  unfolding close_all
  close_all-eq [] chan d o = refl
  close_all-eq (ch ∷ rest) chan d o = rw (close_chan-open (chan ch) o.0) (
      rw
        (close_all-eq rest (update chan ch (record (chan ch) { closed = true })) d.1
          (All-IsOpen-update chan ch _ rest d.0 o.1))
        (ap done (fun_ext λ j. one_by_one (λ c. record c { closed = true }) ch j rest chan d.0)))
