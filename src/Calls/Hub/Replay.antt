-- ===== src/Calls/Hub/Replay.antt =====
-- What a subscription finds in its channel (`subscribe` of events.go).
use Prim.Native.Nat.{max}
use air_whatsbot.Common.{ℕ, suc, ◌-◌, ◌<◌, ◌≡◌, true, false, arith, nat_beq_refl, ne→nat_beq, done}
use air_whatsbot.Calls.Hub.{World, subscribe, call_event_replay_limit, subscribed, mem}
use air_whatsbot.Calls.Hub.Safe.{IsSafe, with_subscriber, subscribe-eq}
use air_whatsbot.Calls.Hub.Span.{span, sequences}
use air_whatsbot.Calls.Hub.Window.{IsWindow, replayed}

module _ {Err File : Type 0} where
  -- A subscription to a hub that is open and safe and whose replay buffer holds its newest events
  -- finds in its channel, in order, exactly the events numbered above `after`, up to the newest
  -- one, less those that have left the 128 places of the replay buffer; the channel is registered,
  -- and no other channel changes.
  pub subscribe-replays :
      (after : ℕ) (w : World Err File)
      → IsSafe w
      → IsWindow w
      → w.hub.closed ≡ false
      → (w' : World Err File) × (subscribe after w ≡ done (subscribed w.next_chan w'))
        × (sequences (w'.chan w.next_chan).buf
            ≡ span
                (suc (max (w.hub.sequence - call_event_replay_limit) after))
                (w.hub.sequence - max (w.hub.sequence - call_event_replay_limit) after))
        × (mem w.next_chan w'.hub.subscribers ≡ true)
        × ((ch : ℕ) → ch < w.next_chan → w'.chan ch ≡ w.chan ch)
  subscribe-replays after w s v o = (
    with_subscriber after w,
    subscribe-eq after w s o,
    rw (nat_beq_refl w.next_chan) (replayed after w v),
    rw (nat_beq_refl w.next_chan),
    λ ch below. rw (ne→nat_beq w.next_chan ch (omega arith)),
  )
