-- ===== src/Calls/Hub/Invariant.antt =====
-- What holds of the hub between two operations, and that it is enough: no operation panics and none
-- blocks while the mutex is held.
use air_whatsbot.Common.{
  ℕ, ◌-◌, ◌≤◌, ◌<◌, ◌≡◌, refl, false, List, [], ◌∷◌, arith, nat_beq, length, length-drop, All,
  Returns, Returns-bind, Bool-cases, inl, inr,
}
use air_whatsbot.Common.Chan.{Chan, recv}
use air_whatsbot.Calls.Hub.{
  CallEvent, World, new_world, Op, publishes, subscribes, unsubscribes, closes, receives, mem,
  remove, trim, publish, unsubscribe, close, step, run, call_event_replay_limit,
}
use air_whatsbot.Calls.Hub.Effects.{Distinct, IsOpen, All-imp, All-IsOpen-update, update-IsOpen}
use air_whatsbot.Calls.Hub.Safe.{
  IsSafe, published, publish-eq, publish-closed, with_subscriber, subscribe-eq, subscribe-closed,
  without_subscriber, unsubscribe-eq, unsubscribe-absent, close-eq, close-closed, closed_down,
}

mem-remove : (x ch : ℕ) (xs : List ℕ) → mem x xs ≡ false → mem x (remove ch xs) ≡ false
mem-remove x ch [] m = refl
mem-remove x ch (y ∷ xs) m = ground (arith, mem-remove x ch xs)

pub mem-remove_self : (ch : ℕ) (xs : List ℕ) → mem ch (remove ch xs) ≡ false
mem-remove_self ch [] = refl
mem-remove_self ch (y ∷ xs) = ground (arith, mem-remove_self ch xs)

All-remove : (P : ℕ → Type 0) (ch : ℕ) (xs : List ℕ) → All P xs → All P (remove ch xs)
All-remove P ch [] h = tt
All-remove P ch (x ∷ xs) h = elim (Bool-cases (nat_beq x ch)) [
  | inl e ↦ rw e (All-remove P ch xs h.1)
  | inr e ↦ rw e (h.0, All-remove P ch xs h.1)
]

Distinct-remove : (ch : ℕ) (xs : List ℕ) → Distinct xs → Distinct (remove ch xs)
Distinct-remove ch [] d = tt
Distinct-remove ch (x ∷ xs) d = elim (Bool-cases (nat_beq x ch)) [
  | inl e ↦ rw e (Distinct-remove ch xs d.1)
  | inr e ↦ rw e (mem-remove x ch xs d.0, Distinct-remove ch xs d.1)
]

-- A number at or above a bound is not among numbers below it.
mem-below : (n : ℕ) (xs : List ℕ) → All (λ x. x < n) xs → mem n xs ≡ false
mem-below n [] h = refl
mem-below n (x ∷ xs) h = ground (arith, mem-below n xs h.1)

module _ {Err File : Type 0} where
  pub new_world-IsSafe : IsSafe {Err = Err} {File = File} new_world
  unfolding new_world
  new_world-IsSafe = record { distinct = tt; opened = tt; allocated = tt; bounded = omega arith }

  pub length-trim :
      (events : List (CallEvent Err File)) → length (trim events) ≤ call_event_replay_limit
  unfolding trim
  length-trim events = ground (arith, length-drop (length events - call_event_replay_limit) events)

  pub published-IsSafe :
      (event : CallEvent Err File) (now : ℕ) (w : World Err File)
      → IsSafe w
      → IsSafe (published event now w)
  published-IsSafe event now w s = record {
    distinct = s.distinct;
    opened = All-imp w.hub.subscribers (λ j o. ground arith) s.opened;
    allocated = s.allocated;
    bounded = length-trim _;
  }

  publish-IsSafe :
      (event : CallEvent Err File) (now : ℕ) (w : World Err File)
      → IsSafe w
      → Returns (publish event now w) IsSafe
  publish-IsSafe event now w s = elim (Bool-cases w.hub.closed) [
    | inl c ↦ rw (publish-closed event now w c) s
    | inr o ↦ rw (publish-eq event now w s o) (published-IsSafe event now w s)
  ]

  pub with_subscriber-IsSafe :
      (after : ℕ) (w : World Err File) → IsSafe w → IsSafe (with_subscriber after w)
  with_subscriber-IsSafe after w s = record {
    distinct = (mem-below w.next_chan w.hub.subscribers s.allocated, s.distinct);
    opened = (
      ground arith,
      All-IsOpen-update w.chan w.next_chan _ w.hub.subscribers
          (mem-below w.next_chan w.hub.subscribers s.allocated) s.opened,
    );
    allocated = (omega arith, All-imp w.hub.subscribers (λ j l. omega arith) s.allocated);
    bounded = s.bounded;
  }

  subscribe-IsSafe :
      (after : ℕ) (w : World Err File) → IsSafe w → Returns (step (subscribes after) w) IsSafe
  unfolding step
  subscribe-IsSafe after w s = elim (Bool-cases w.hub.closed) [
    | inl c ↦ rw (subscribe-closed after w c) s
    | inr o ↦ rw (subscribe-eq after w s o) (with_subscriber-IsSafe after w s)
  ]

  without_subscriber-IsSafe :
      (ch : ℕ) (w : World Err File) → IsSafe w → IsSafe (without_subscriber ch w)
  without_subscriber-IsSafe ch w s = record {
    distinct = Distinct-remove ch w.hub.subscribers s.distinct;
    opened =
        All-IsOpen-update w.chan ch _ (remove ch w.hub.subscribers)
          (mem-remove_self ch w.hub.subscribers)
          (All-remove (IsOpen w.chan) ch w.hub.subscribers s.opened);
    allocated = All-remove (λ x. x < w.next_chan) ch w.hub.subscribers s.allocated;
    bounded = s.bounded;
  }

  unsubscribe-IsSafe : (ch : ℕ) (w : World Err File) → IsSafe w → Returns (unsubscribe ch w) IsSafe
  unsubscribe-IsSafe ch w s = elim (Bool-cases (mem ch w.hub.subscribers)) [
    | inl m ↦ rw (unsubscribe-eq ch w s m) (without_subscriber-IsSafe ch w s)
    | inr m ↦ rw (unsubscribe-absent ch w m) s
  ]

  pub closed_down-IsSafe : (w : World Err File) → IsSafe w → IsSafe (closed_down w)
  closed_down-IsSafe w s = record {
    distinct = tt;
    opened = tt;
    allocated = tt;
    bounded = s.bounded;
  }

  close-IsSafe : (w : World Err File) → IsSafe w → Returns (close w) IsSafe
  close-IsSafe w s = elim (Bool-cases w.hub.closed) [
    | inl c ↦ rw (close-closed w c) s
    | inr o ↦ rw (close-eq w s o) (closed_down-IsSafe w s)
  ]

  recv_closed : (c : Chan (CallEvent Err File)) → (recv c).1.closed ≡ c.closed
  unfolding recv
  recv_closed c = ground arith

  receive-IsSafe : (ch : ℕ) (w : World Err File) → IsSafe w → Returns (step (receives ch) w) IsSafe
  unfolding step
  receive-IsSafe ch w s = record {
    distinct = s.distinct;
    opened =
        All-imp w.hub.subscribers
          (λ j. update-IsOpen w.chan ch j (recv (w.chan ch)).1 (recv_closed (w.chan ch))) s.opened;
    allocated = s.allocated;
    bounded = s.bounded;
  }

  -- Every operation of a safe hub returns, without a panic and without blocking, and leaves it safe.
  pub step-IsSafe : (op : Op Err File) (w : World Err File) → IsSafe w → Returns (step op w) IsSafe
  step-IsSafe (publishes event now) w s = unfold step in publish-IsSafe event now w s
  step-IsSafe (subscribes after) w s = subscribe-IsSafe after w s
  step-IsSafe (unsubscribes ch) w s = unfold step in unsubscribe-IsSafe ch w s
  step-IsSafe closes w s = unfold step in close-IsSafe w s
  step-IsSafe (receives ch) w s = receive-IsSafe ch w s

  run-IsSafe :
      (ops : List (Op Err File)) (w : World Err File) → IsSafe w → Returns (run ops w) IsSafe
  unfolding run
  run-IsSafe [] w s = s
  run-IsSafe (op ∷ ops) w s =
      Returns-bind (step op w) (λ w'. run ops w') IsSafe IsSafe (step-IsSafe op w s)
        (λ w' s'. run-IsSafe ops w' s')

  -- Whatever operations are run on a new hub, in whatever order, no send hits a closed channel, no
  -- channel is closed twice, no send waits while the mutex is held, and afterwards the subscribers
  -- are distinct channels that are open, and at most 128 events are kept for replay.
  pub run-new_world-IsSafe : (ops : List (Op Err File)) → Returns (run ops new_world) IsSafe
  run-new_world-IsSafe ops = run-IsSafe ops new_world new_world-IsSafe
