-- ===== src/Calls/Hub/Window.antt =====
-- Sequence numbers: what the replay buffer holds, and what a new subscriber finds in its channel.
-- The sequence is a uint64; it does not wrap in fewer than 2 ^ 64 operations.
use Prim.Native.Nat.{min, max}
use air_whatsbot.Common.{
  ℕ, suc, ◌+◌, ◌-◌, ◌^◌, ◌<◌, ◌≡◌, ap, ◌∙◌, List, [], ◌∷◌, ◌++◌, arith, ltb, length, length-append,
  length-drop, drop, select, Bool-cases, inl, inr, ltb→ge,
}
use mathlib.Core.List.{map-append}
use air_whatsbot.Calls.Hub.{CallEvent, World, u64, trim, call_event_replay_limit}
use air_whatsbot.Calls.Hub.Safe.{published, stamped}
use air_whatsbot.Calls.Hub.Span.{
  span, span-cong, drop-span, span-append, select-span, sequences, sequences-drop, sequences-select,
}

module _ {Err File : Type 0} where
  -- The replay buffer holds the newest events, at most 128, with consecutive sequence numbers that
  -- end at the hub's.
  pub record IsWindow (w : World Err File) : Type 0 where
    pub consecutive :
        sequences w.hub.replay
        ≡ span (suc (w.hub.sequence - length w.hub.replay)) (length w.hub.replay)
    pub newest : length w.hub.replay ≡ min call_event_replay_limit w.hub.sequence

  trim-eq :
      (events : List (CallEvent Err File))
      → trim events ≡ drop (length events - call_event_replay_limit) events
  unfolding trim
  trim-eq events = elim (Bool-cases (ltb call_event_replay_limit (length events))) [
    | inl t ↦ rw t
    | inr t ↦
        let l = ltb→ge call_event_replay_limit (length events) t in
        let z : length events - call_event_replay_limit ≡ 0 = omega arith in rw (t, z)
  ]

  pub published-IsWindow :
      (event : CallEvent Err File) (now : ℕ) (w : World Err File)
      → w.hub.sequence + 1 < 2 ^ 64
      → IsWindow w
      → IsWindow (published event now w)
  published-IsWindow event now w small v =
      let e' = stamped event now w in
      let l = length w.hub.replay in
      let a = suc (w.hub.sequence - l) in
      let k = suc l - call_event_replay_limit in
      let len : length (w.hub.replay ++ e' ∷ []) ≡ suc l =
        omega (arith, length-append w.hub.replay (e' ∷ [])) in
      let s : u64 (w.hub.sequence + 1) ≡ w.hub.sequence + 1 = omega arith in
      let t : trim (w.hub.replay ++ e' ∷ []) ≡ drop k (w.hub.replay ++ e' ∷ []) =
        trim-eq (w.hub.replay ++ e' ∷ [])
        ∙ ap (λ n. drop (n - call_event_replay_limit) (w.hub.replay ++ e' ∷ [])) len in
      let n : length (trim (w.hub.replay ++ e' ∷ [])) ≡ suc l - k =
        ap length t ∙ length-drop k (w.hub.replay ++ e' ∷ []) ∙ ap (λ m. m - k) len in
      record {
        consecutive =
            ap sequences t
            ∙ sequences-drop k (w.hub.replay ++ e' ∷ [])
            ∙ ap (drop k) (
                map-append (λ (e : CallEvent Err File). e.sequence) w.hub.replay (e' ∷ [])
                ∙ ap (λ xs. xs ++ e'.sequence ∷ []) v.consecutive
                ∙ span-append a l e'.sequence (omega (arith, v.newest)))
            ∙ drop-span k a (suc l)
            ∙ span-cong (a + k) _ (suc l - k) _ (omega (arith, n, v.newest)) (omega (arith, n));
        newest = omega (arith, n, v.newest);
      }

  -- What a subscription with a given `after` puts in its channel.
  pub replayed :
      (after : ℕ) (w : World Err File)
      → IsWindow w
      → sequences (select (λ e. ltb after e.sequence) w.hub.replay)
        ≡ span
            (suc (max (w.hub.sequence - call_event_replay_limit) after))
            (w.hub.sequence - max (w.hub.sequence - call_event_replay_limit) after)
  replayed after w v =
      sequences-select after w.hub.replay
      ∙ ap (select (ltb after)) v.consecutive
      ∙ select-span after (w.hub.sequence - length w.hub.replay) (length w.hub.replay)
      ∙ span-cong _ _ _ _ (omega (arith, v.newest)) (omega (arith, v.newest))
