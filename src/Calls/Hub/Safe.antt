-- ===== src/Calls/Hub/Safe.antt =====
-- What holds of the hub between two operations, and each operation in closed form where it holds.
use air_whatsbot.Common.{
  ℕ, suc, ◌+◌, ◌≤◌, ◌<◌, ◌≡◌, refl, true, false, [], ◌∷◌, ◌++◌, arith, ltb, if◌then◌else◌, length,
  select, All, done,
}
use air_whatsbot.Common.Chan.{make_chan}
use air_whatsbot.Calls.Hub.{
  CallEvent, World, mem, remove, update, u64, trim, publish, subscribe, unsubscribe, close,
  call_event_replay_limit, subscribed, refused, stream_is_closed,
}
use air_whatsbot.Calls.Hub.Effects.{
  Distinct, IsOpen, All-mem, deliver, broadcast-eq, fill-eq, close_all-eq, close_chan-open,
}

module _ {Err File : Type 0} where
  pub record IsSafe (w : World Err File) : Type 0 where
    pub distinct : Distinct w.hub.subscribers
    pub opened : All (IsOpen w.chan) w.hub.subscribers
    pub allocated : All (λ ch. ch < w.next_chan) w.hub.subscribers
    pub bounded : length w.hub.replay ≤ call_event_replay_limit

  -- The event as the hub stamps it.
  abbrev pub stamped : CallEvent Err File → ℕ → World Err File → CallEvent Err File
  stamped event now w = record event { sequence = u64 (w.hub.sequence + 1); timestamp = now }

  abbrev pub published : CallEvent Err File → ℕ → World Err File → World Err File
  published event now w =
      let event' = stamped event now w in
      record w {
        hub = record w.hub {
          sequence = event'.sequence;
          replay = trim (w.hub.replay ++ event' ∷ []);
        };
        chan = λ j. if mem j w.hub.subscribers then deliver event' (w.chan j) else w.chan j;
      }

  -- A publish to a safe hub that is open returns. It gives the event the next sequence number modulo
  -- 2^64 and the time, appends it to the replay buffer, of which the newest 128 events stay, and puts
  -- it into the channel of every subscriber that has room, without touching any other channel.
  pub publish-eq :
      (event : CallEvent Err File) (now : ℕ) (w : World Err File)
      → IsSafe w
      → w.hub.closed ≡ false
      → publish event now w ≡ done (published event now w)
  unfolding publish
  publish-eq event now w s o =
      rw (o, broadcast-eq (stamped event now w) w.hub.subscribers w.chan s.distinct s.opened)

  pub publish-closed :
      (event : CallEvent Err File) (now : ℕ) (w : World Err File)
      → w.hub.closed ≡ true
      → publish event now w ≡ done w
  unfolding publish
  publish-closed event now w c = simp c

  abbrev pub with_subscriber : ℕ → World Err File → World Err File
  with_subscriber after w = record {
    hub = record w.hub { subscribers = w.next_chan ∷ w.hub.subscribers };
    chan = update w.chan w.next_chan (record {
      cap = call_event_replay_limit;
      buf = select (λ e. ltb after e.sequence) w.hub.replay;
      closed = false;
    });
    next_chan = suc w.next_chan;
  }

  pub subscribe-eq :
      (after : ℕ) (w : World Err File)
      → IsSafe w
      → w.hub.closed ≡ false
      → subscribe after w ≡ done (subscribed w.next_chan (with_subscriber after w))
  unfolding subscribe
  subscribe-eq after w s o = rw (
    o,
    fill-eq after w.hub.replay (make_chan call_event_replay_limit) refl (omega (arith, s.bounded)),
  )

  pub subscribe-closed :
      (after : ℕ) (w : World Err File)
      → w.hub.closed ≡ true
      → subscribe after w ≡ done (refused stream_is_closed)
  unfolding subscribe
  subscribe-closed after w c = simp c

  abbrev pub without_subscriber : ℕ → World Err File → World Err File
  without_subscriber ch w = record w {
    hub = record w.hub { subscribers = remove ch w.hub.subscribers };
    chan = update w.chan ch (record (w.chan ch) { closed = true });
  }

  pub unsubscribe-eq :
      (ch : ℕ) (w : World Err File)
      → IsSafe w
      → mem ch w.hub.subscribers ≡ true
      → unsubscribe ch w ≡ done (without_subscriber ch w)
  unfolding unsubscribe
  unsubscribe-eq ch w s m =
      rw (m, close_chan-open (w.chan ch) (All-mem (IsOpen w.chan) ch w.hub.subscribers s.opened m))

  pub unsubscribe-absent :
      (ch : ℕ) (w : World Err File) → mem ch w.hub.subscribers ≡ false → unsubscribe ch w ≡ done w
  unfolding unsubscribe
  unsubscribe-absent ch w m = simp m

  abbrev pub closed_down : World Err File → World Err File
  closed_down w = record w {
    hub = record w.hub { closed = true; subscribers = [] };
    chan = λ j. if mem j w.hub.subscribers then record (w.chan j) { closed = true } else w.chan j;
  }

  pub close-eq :
      (w : World Err File) → IsSafe w → w.hub.closed ≡ false → close w ≡ done (closed_down w)
  unfolding close
  close-eq w s o = rw (o, close_all-eq w.hub.subscribers w.chan s.distinct s.opened)

  pub close-closed : (w : World Err File) → w.hub.closed ≡ true → close w ≡ done w
  unfolding close
  close-closed w c = simp c
