-- ===== src/Calls/Hub/Closing.antt =====
-- A closed hub stays closed (`close` of events.go and the guards of the other operations).
use air_whatsbot.Common.{ℕ, ◌≡◌, refl, true, false, arith, done}
use air_whatsbot.Calls.Hub.{
  CallEvent, World, publish, subscribe, unsubscribe, close, refused, stream_is_closed, mem,
}
use air_whatsbot.Calls.Hub.Safe.{
  IsSafe, publish-closed, subscribe-closed, unsubscribe-absent, close-eq, close-closed, closed_down,
}

module _ {Err File : Type 0} where
  -- Closing a hub that is open and safe does not panic, closes the channel of every subscriber,
  -- keeps the events that wait in the channels, and is final: from then on publishing, closing and
  -- unsubscribing change nothing and a subscription is refused.
  pub close_final :
      (w : World Err File)
      → IsSafe w
      → w.hub.closed ≡ false
      → (w' : World Err File) × (close w ≡ done w')
        × ((ch : ℕ)
            → (mem ch w.hub.subscribers ≡ true → (w'.chan ch).closed ≡ true)
              × ((w'.chan ch).buf ≡ (w.chan ch).buf))
        × ((event : CallEvent Err File) (now : ℕ) → publish event now w' ≡ done w')
        × ((after : ℕ) → subscribe after w' ≡ done (refused stream_is_closed))
        × ((ch : ℕ) → unsubscribe ch w' ≡ done w')
        × (close w' ≡ done w')
  close_final w s o = (
    closed_down w,
    close-eq w s o,
    λ ch. (λ m. rw m refl, ground arith),
    λ event now. publish-closed event now (closed_down w) refl,
    λ after. subscribe-closed after (closed_down w) refl,
    λ ch. unsubscribe-absent ch (closed_down w) refl,
    close-closed (closed_down w) refl,
  )
