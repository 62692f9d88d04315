-- ===== src/Common/Chan.antt =====
-- Go's buffered channels: `make(chan A, cap)`, a plain send, the send of a `select` with a
-- `default`, `close`, and the reader's side.
use air_whatsbot.Common.{
  ℕ, Bool, true, false, Option, none, some, List, [], ◌∷◌, ◌++◌, ltb, if◌then◌else◌, length, Run,
  done, panicked, blocked,
}

pub record Chan {ℓ} (A : Type ℓ) : Type ℓ where
  pub cap : ℕ
  pub buf : List A
  pub closed : Bool

module _ {ℓ} {A : Type ℓ} where
  abbrev pub make_chan : ℕ → Chan A
  make_chan n = record { cap = n; buf = []; closed = false }

  abbrev pub has_room : Chan A → Bool
  has_room c = ltb (length c.buf) c.cap

  abbrev pub push : A → Chan A → Chan A
  push a c = record c { buf = c.buf ++ a ∷ [] }

  -- `c <- a`. A full channel blocks: the model has no reader that drains it meanwhile.
  unfoldable pub send : A → Chan A → Run (Chan A)
  send a c = if c.closed then panicked else if has_room c then done (push a c) else blocked

  -- `select { case c <- a: default: }`, with whether the value was sent.
  unfoldable pub try_send : A → Chan A → Run (Chan A × Bool)
  try_send a c =
      if c.closed then panicked else if has_room c then done (push a c, true) else done (c, false)

  unfoldable pub close_chan : Chan A → Run (Chan A)
  close_chan c = if c.closed then panicked else done (record c { closed = true })

  abbrev recv_from : List A → Chan A → Option A × Chan A
  recv_from [] c = (none, c)
  recv_from (a ∷ rest) c = (some a, record c { buf = rest })

  -- The reader takes the oldest value, if there is one: a closed channel still yields what it held.
  unfoldable pub recv : Chan A → Option A × Chan A
  recv c = recv_from c.buf c
