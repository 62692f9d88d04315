-- ===== src/Calls/Hub/Order.antt =====
-- The order of the events in the channels of the subscribers.
use air_whatsbot.Common.{
  ℕ, suc, ◌+◌, ◌^◌, ◌≤◌, ◌<◌, ◌≡◌, refl, List, [], ◌∷◌, arith, nat_beq, length, Returns-both,
  Returns, Returns-bind, Bool-cases, inl, inr,
}
use mathlib.Core.List.{map-append}
use air_whatsbot.Common.Chan.{Chan, recv, has_room}
use air_whatsbot.Calls.Hub.{
  CallEvent, World, new_world, Op, publishes, subscribes, unsubscribes, closes, receives, step, run,
  update, mem,
}
use air_whatsbot.Calls.Hub.Effects.{deliver}
use air_whatsbot.Calls.Hub.Safe.{
  IsSafe, published, publish-eq, publish-closed, with_subscriber, subscribe-eq, subscribe-closed,
  without_subscriber, unsubscribe-eq, unsubscribe-absent, close-eq, close-closed, stamped,
  closed_down,
}
use air_whatsbot.Calls.Hub.Invariant.{step-IsSafe, new_world-IsSafe}
use air_whatsbot.Calls.Hub.Span.{
  span, sequences, Ascends, Ascends-weaken, Ascends-append, Ascends-span,
}
use air_whatsbot.Calls.Hub.Window.{IsWindow, published-IsWindow, replayed}

module _ {Err File : Type 0} where
  -- Each channel holds its events in ascending order, none newer than the hub's sequence.
  abbrev pub IsOrdered : World Err File → Type 0
  IsOrdered w = (ch : ℕ) → Ascends w.hub.sequence (sequences (w.chan ch).buf)

  Ascends-deliver :
      (event : CallEvent Err File) (lo : ℕ) (c : Chan (CallEvent Err File))
      → lo < event.sequence
      → Ascends lo (sequences c.buf)
      → Ascends event.sequence (sequences (deliver event c).buf)
  Ascends-deliver event lo c h a = elim (Bool-cases (has_room c)) [
    | inl t ↦
        rw (t, map-append (λ (e : CallEvent Err File). e.sequence) c.buf)
          (Ascends-append lo event.sequence (sequences c.buf) h a)
    | inr t ↦ rw t (Ascends-weaken lo event.sequence (sequences c.buf) (omega arith) a)
  ]

  published-IsOrdered :
      (event : CallEvent Err File) (now : ℕ) (w : World Err File)
      → w.hub.sequence + 1 < 2 ^ 64
      → IsOrdered w
      → IsOrdered (published event now w)
  published-IsOrdered event now w small o ch = elim (Bool-cases (mem ch w.hub.subscribers)) [
    | inl m ↦
        rw m (Ascends-deliver (stamped event now w) w.hub.sequence (w.chan ch) (omega arith) (o ch))
    | inr m ↦
        rw m (Ascends-weaken w.hub.sequence _ (sequences (w.chan ch).buf) (omega arith) (o ch))
  ]

  with_subscriber-IsOrdered :
      (after : ℕ) (w : World Err File)
      → IsWindow w
      → IsOrdered w
      → IsOrdered (with_subscriber after w)
  with_subscriber-IsOrdered after w v o ch = elim (Bool-cases (nat_beq w.next_chan ch)) [
    | inl e ↦ rw (e, replayed after w v) (Ascends-span w.hub.sequence _ _ (λ p. omega arith))
    | inr e ↦ rw e (o ch)
  ]

  update-IsOrdered :
      (w : World Err File) (ch j : ℕ) (c : Chan (CallEvent Err File))
      → Ascends w.hub.sequence (sequences c.buf)
      → IsOrdered w
      → Ascends w.hub.sequence (sequences (update w.chan ch c j).buf)
  update-IsOrdered w ch j c a o = elim (Bool-cases (nat_beq ch j)) [
    | inl e ↦ rw e a
    | inr e ↦ rw e (o j)
  ]

  Ascends-recv :
      (hi : ℕ) (c : Chan (CallEvent Err File)) (xs : List (CallEvent Err File))
      → c.buf ≡ xs
      → Ascends hi (sequences xs)
      → Ascends hi (sequences (recv c).1.buf)
  unfolding recv
  Ascends-recv hi c [] e a = rw e a
  Ascends-recv hi c (x ∷ xs) e a = rw e a.2

  -- What holds after at most `k` operations.
  record Tracks (k : ℕ) (w : World Err File) : Type 0 where
    window : IsWindow w
    ordered : IsOrdered w
    counted : w.hub.sequence ≤ k

  Tracks-published :
      (k : ℕ) (event : CallEvent Err File) (now : ℕ) (w : World Err File)
      → suc k < 2 ^ 64
      → Tracks k w
      → Tracks (suc k) (published event now w)
  Tracks-published k event now w small t =
      let fits : w.hub.sequence + 1 < 2 ^ 64 = omega (arith, t.counted) in
      record {
        window = published-IsWindow event now w fits t.window;
        ordered = published-IsOrdered event now w fits t.ordered;
        counted = omega (arith, t.counted);
      }

  Tracks-with_subscriber :
      (k after : ℕ) (w : World Err File) → Tracks k w → Tracks (suc k) (with_subscriber after w)
  Tracks-with_subscriber k after w t = record {
    window = record { consecutive = t.window.consecutive; newest = t.window.newest };
    ordered = with_subscriber-IsOrdered after w t.window t.ordered;
    counted = omega (arith, t.counted);
  }

  Tracks-weaken : (k : ℕ) (w : World Err File) → Tracks k w → Tracks (suc k) w
  Tracks-weaken k w t = record {
    window = t.window;
    ordered = t.ordered;
    counted = omega (arith, t.counted);
  }

  Tracks-without_subscriber :
      (k ch : ℕ) (w : World Err File) → Tracks k w → Tracks (suc k) (without_subscriber ch w)
  Tracks-without_subscriber k ch w t = record {
    window = record { consecutive = t.window.consecutive; newest = t.window.newest };
    ordered = λ j. update-IsOrdered w ch j _ (t.ordered ch) t.ordered;
    counted = omega (arith, t.counted);
  }

  Tracks-closed_down : (k : ℕ) (w : World Err File) → Tracks k w → Tracks (suc k) (closed_down w)
  Tracks-closed_down k w t = record {
    window = record { consecutive = t.window.consecutive; newest = t.window.newest };
    ordered = λ j. elim (Bool-cases (mem j w.hub.subscribers)) [
      | inl m ↦ rw m (t.ordered j)
      | inr m ↦ rw m (t.ordered j)
    ];
    counted = omega (arith, t.counted);
  }

  step-Tracks :
      (k : ℕ) (op : Op Err File) (w : World Err File)
      → suc k < 2 ^ 64
      → IsSafe w
      → Tracks k w
      → Returns (step op w) (Tracks (suc k))
  unfolding step
  step-Tracks k (publishes event now) w small s t = elim (Bool-cases w.hub.closed) [
    | inl c ↦ rw (publish-closed event now w c) (Tracks-weaken k w t)
    | inr o ↦ rw (publish-eq event now w s o) (Tracks-published k event now w small t)
  ]
  step-Tracks k (subscribes after) w small s t = elim (Bool-cases w.hub.closed) [
    | inl c ↦ rw (subscribe-closed after w c) (Tracks-weaken k w t)
    | inr o ↦ rw (subscribe-eq after w s o) (Tracks-with_subscriber k after w t)
  ]
  step-Tracks k (unsubscribes ch) w small s t = elim (Bool-cases (mem ch w.hub.subscribers)) [
    | inl m ↦ rw (unsubscribe-eq ch w s m) (Tracks-without_subscriber k ch w t)
    | inr m ↦ rw (unsubscribe-absent ch w m) (Tracks-weaken k w t)
  ]
  step-Tracks k closes w small s t = elim (Bool-cases w.hub.closed) [
    | inl c ↦ rw (close-closed w c) (Tracks-weaken k w t)
    | inr o ↦ rw (close-eq w s o) (Tracks-closed_down k w t)
  ]
  step-Tracks k (receives ch) w small s t = record {
    window = record { consecutive = t.window.consecutive; newest = t.window.newest };
    ordered = λ j.
        update-IsOrdered w ch j _ (Ascends-recv w.hub.sequence (w.chan ch) _ refl (t.ordered ch))
          t.ordered;
    counted = omega (arith, t.counted);
  }

  run-Tracks :
      (k : ℕ) (ops : List (Op Err File)) (w : World Err File)
      → k + length ops < 2 ^ 64
      → IsSafe w
      → Tracks k w
      → Returns (run ops w) (λ w'. IsWindow w' × IsOrdered w')
  unfolding run
  run-Tracks k [] w small s t = (t.window, t.ordered)
  run-Tracks k (op ∷ ops) w small s t =
      Returns-bind (step op w) (λ w'. run ops w') (λ w'. IsSafe w' × Tracks (suc k) w')
        (λ w'. IsWindow w' × IsOrdered w')
        (Returns-both (step op w) IsSafe (Tracks (suc k)) (step-IsSafe op w s)
          (step-Tracks k op w (omega arith) s t))
        (λ w' h. run-Tracks (suc k) ops w' (omega arith) h.0 h.1)

  new_world-Tracks : Tracks 0 new_world
  unfolding new_world span
  new_world-Tracks = record {
    window = record { consecutive = refl; newest = refl };
    ordered = λ ch. tt;
    counted = omega arith;
  }

  -- After fewer than 2 ^ 64 operations on a new hub the replay buffer holds the newest events, 128
  -- of them or all if there are fewer, with consecutive sequence numbers up to the hub's; and the
  -- events that wait in any channel have strictly ascending sequence numbers, at most the hub's.
  pub run-new_world-IsOrdered :
      (ops : List (Op Err File))
      → length ops < 2 ^ 64
      → Returns (run ops new_world) (λ w. IsWindow w × IsOrdered w)
  run-new_world-IsOrdered ops small =
      run-Tracks 0 ops new_world (omega arith) new_world-IsSafe new_world-Tracks
