-- ===== src/Calls/Hub/Examples.antt =====
-- Runs of the event hub, and its theorems at concrete inputs.
use Prim.Native.Nat.{max}
use air_whatsbot.Common.{
  ℕ, suc, ◌-◌, ◌<◌, ◌≡◌, refl, String, true, none, List, [], ◌∷◌, done, arith, Returns,
}
use air_whatsbot.Common.Chan.{send, try_send, close_chan, recv}
use air_whatsbot.Calls.Hub.{
  CallEvent, World, Op, publishes, subscribes, unsubscribes, closes, receives, new_world, step, run,
  publish, subscribe, unsubscribe, close, trim, subscribed, refused, stream_is_closed, mem,
  call_event_replay_limit,
}
use air_whatsbot.Calls.Hub.Safe.{IsSafe, published, with_subscriber}
use air_whatsbot.Calls.Hub.Invariant.{
  run-new_world-IsSafe, new_world-IsSafe, published-IsSafe, with_subscriber-IsSafe,
}
use air_whatsbot.Calls.Hub.Window.{IsWindow}
use air_whatsbot.Calls.Hub.Order.{run-new_world-IsOrdered, IsOrdered}
use air_whatsbot.Calls.Hub.Replay.{subscribe-replays}
use air_whatsbot.Calls.Hub.Closing.{close_final}
use air_whatsbot.Calls.Hub.Span.{sequences, span}

abbrev event : CallEvent String String
event = record {
  call_id = "c1";
  kind = "transcript";
  delta = "";
  text = "hi";
  response_id = "";
  err = none;
  sequence = 0;
  timestamp = 0;
  bytes = [];
  files = [];
}

abbrev scenario : List (Op String String)
scenario =
    subscribes 0
    ∷ publishes event 5
    ∷ publishes event 6
    ∷ receives 0
    ∷ subscribes 1
    ∷ unsubscribes 0
    ∷ publishes event 7
    ∷ closes
    ∷ publishes event 8
    ∷ closes
    ∷ []

run-scenario :
    Returns
      (run scenario new_world)
      (λ w. (sequences (w.chan 0).buf ≡ 2 ∷ []) × (sequences (w.chan 1).buf ≡ 2 ∷ 3 ∷ []))
unfolding run step new_world send try_send close_chan recv
run-scenario = (refl, refl)

run-new_world-IsSafe_example : Returns (run scenario new_world) IsSafe
run-new_world-IsSafe_example = run-new_world-IsSafe scenario

run-new_world-IsOrdered_example : Returns (run scenario new_world) (λ w. IsWindow w × IsOrdered w)
run-new_world-IsOrdered_example = run-new_world-IsOrdered scenario (omega arith)

-- A hub with one subscriber that has published two events.
abbrev busy : World String String
busy = published event 6 (published event 5 (with_subscriber 0 new_world))

busy-IsSafe : IsSafe busy
busy-IsSafe =
    published-IsSafe event 6 _
      (published-IsSafe event 5 _ (with_subscriber-IsSafe 0 new_world new_world-IsSafe))

busy-IsWindow : IsWindow busy
unfolding new_world trim span
busy-IsWindow = record { consecutive = refl; newest = refl }

subscribe-replays_example :
    (w' : World String String) × (subscribe 1 busy ≡ done (subscribed busy.next_chan w'))
    × (sequences (w'.chan busy.next_chan).buf
        ≡ span
            (suc (max (busy.hub.sequence - call_event_replay_limit) 1))
            (busy.hub.sequence - max (busy.hub.sequence - call_event_replay_limit) 1))
    × (mem busy.next_chan w'.hub.subscribers ≡ true)
    × ((ch : ℕ) → ch < busy.next_chan → w'.chan ch ≡ busy.chan ch)
subscribe-replays_example =
    subscribe-replays 1 busy busy-IsSafe busy-IsWindow (unfold new_world in refl)

close_final_example :
    (w' : World String String) × (close busy ≡ done w')
    × ((ch : ℕ)
        → (mem ch busy.hub.subscribers ≡ true → (w'.chan ch).closed ≡ true)
          × ((w'.chan ch).buf ≡ (busy.chan ch).buf))
    × ((e : CallEvent String String) (now : ℕ) → publish e now w' ≡ done w')
    × ((after : ℕ) → subscribe after w' ≡ done (refused stream_is_closed))
    × ((ch : ℕ) → unsubscribe ch w' ≡ done w')
    × (close w' ≡ done w')
close_final_example = close_final busy busy-IsSafe (unfold new_world in refl)
