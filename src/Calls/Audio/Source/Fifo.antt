-- ===== src/Calls/Audio/Source/Fifo.antt =====
-- What holds of the queue whatever its users do.
use air_whatsbot.Common.{
  ◌≤◌, ◌<◌, ◌≡◌, ap, sym, ◌∙◌, true, false, [], ◌∷◌, ◌++◌, append_assoc, arith, length,
  length-append, ltb→lt, done,
}
use air_whatsbot.Common.Chan.{close_chan}
use air_whatsbot.Calls.Audio.Source.{
  Source, close_once, System, initial, Step, push_begins, push_refused, push_selects,
  push_cancelled, push_done, push_sends, push_returns, reads_queue, close_begins, close_ends,
  cancel, Reach, start, next,
}

module _ {F : Type 0} where
  pub record Inv (s : System F) : Type 0 where
    pub fifo : s.read ++ s.source.frames.buf ≡ s.sent
    pub eight : s.source.frames.cap ≡ 8
    pub bounded : length s.source.frames.buf ≤ 8
    pub unclosed : s.source.frames.closed ≡ false
    pub once_closes : s.source.done_chan.closed ≡ s.source.once
    pub closed_after : s.source.closed ≡ true → s.source.once ≡ true
    pub closers_after : 0 < s.closers → s.source.once ≡ true

  initial-Inv : Inv initial
  unfolding initial
  initial-Inv = ground arith

  -- `Close` closes `done` once: no call of it panics.
  close_once-Inv :
      (s : System F)
      → Inv s
      → close_once s.source
        ≡ done (record s.source {
          done_chan = record s.source.done_chan { closed = true };
          once = true;
        })
  unfolding close_once close_chan
  close_once-Inv s v = ground arith

  Step-Inv : {s t : System F} → Step s t → Inv s → Inv t
  Step-Inv (push_begins f p) v = ground arith
  Step-Inv (push_refused f p c) v = ground arith
  Step-Inv (push_selects f p c) v = ground arith
  Step-Inv (push_cancelled f p c) v = ground arith
  Step-Inv (push_done f p c) v = ground arith
  Step-Inv {s} (push_sends f p room) v = record {
    fifo = sym (append_assoc s.read s.source.frames.buf (f ∷ [])) ∙ ap (λ xs. xs ++ f ∷ []) v.fifo;
    eight = v.eight;
    bounded = omega (arith, length-append s.source.frames.buf (f ∷ []), ltb→lt _ _ room, v.eight);
    unclosed = v.unclosed;
    once_closes = v.once_closes;
    closed_after = v.closed_after;
    closers_after = v.closers_after;
  }
  Step-Inv (push_returns f p) v = ground arith
  Step-Inv {s} (reads_queue f rest e) v = record {
    fifo = append_assoc s.read (f ∷ []) rest ∙ ap (λ xs. s.read ++ xs) (sym e) ∙ v.fifo;
    eight = v.eight;
    bounded = omega (arith, ap length e, v.bounded);
    unclosed = v.unclosed;
    once_closes = v.once_closes;
    closed_after = v.closed_after;
    closers_after = v.closers_after;
  }
  Step-Inv {s} (close_begins source' e) v = ground (arith, close_once-Inv s v)
  Step-Inv (close_ends n e) v = ground arith
  Step-Inv cancel v = ground arith

  Reach-Inv : {s : System F} → Reach s → Inv s
  Reach-Inv start = initial-Inv
  Reach-Inv (next r st) = Step-Inv st (Reach-Inv r)

  -- In every state that pushes, reads, closes and cancellations reach in any interleaving, the frames
  -- read, followed by those still queued, are the frames sent, in order; at most eight are queued; a
  -- further `Close` does not panic; and once a `Close` has returned, `done` is closed.
  pub Reach-fifo :
      (s : System F)
      → Reach s
      → (s.read ++ s.source.frames.buf ≡ s.sent)
        × (length s.source.frames.buf ≤ 8)
        × ((source' : Source F) × (close_once s.source ≡ done source'))
        × (s.source.closed ≡ true → s.source.done_chan.closed ≡ true)
  Reach-fifo s r =
      let v = Reach-Inv r in
      (v.fifo, v.bounded, (_, close_once-Inv s v), λ c. v.once_closes ∙ v.closed_after c)
