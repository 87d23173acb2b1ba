-- ===== src/Io/Tx.antt =====
-- `TxLocal` of protocol/src/io/tx.rs: the buffer of serialized messages in front of a connection.
-- An operation takes the state, and returns its poll beside the state that it leaves.
pub mod Output
pub mod Prompt
pub mod Handle
use minimal_vm_tool.Prelude.{
  ℕ, zero, suc, ◌*◌, Bool, true, false, Option, none, some, List, [], ◌∷◌, ◌++◌, length, is_empty,
  drop, leb, if◌then◌else◌, Bytes, newline, Flow, again, done, loop,
}
use minimal_vm_tool.Outcome.{
  Error, plain, context, Result, ok, err, Poll, pending, ready, with_context, ready_ok,
}
use minimal_vm_tool.Io.Writer.{Writer}

-- `Sending`: the serialized message, until it has been taken into a buffer.
abbrev pub Sending : Type 0
Sending = Option Bytes

-- The length of the buffer from which `poll_flush_in_bg` pushes back.
abbrev pub pushback : ℕ
pushback = 1024 * 1024

pub record TxLocal (V : Writer) : Type 0 where
  pub writer : V.Conn
  pub transmitting : Bytes

module _ (V : Writer) where
  unfoldable pub new : V.Conn → TxLocal V
  new w = record { writer = w; transmitting = [] }

  -- The rest of a round of `poll_transmit`, at what `poll_write` returned. `drain(..n)` is within
  -- bounds, since a write takes no more than it is given.
  pub wrote :
      TxLocal V → Poll (Result ℕ) × V.Conn → Flow (TxLocal V) (Poll (Result (Unit {0})) × TxLocal V)
  wrote s (pending, w) = done (pending, record s { writer = w })
  wrote s (ready (err e), w) =
      done (ready (err (context "Failed to write to connection" e)), record s { writer = w })
  wrote s (ready (ok zero), w) =
      done (ready (err (plain "Connection closed while sending message")), record s { writer = w })
  wrote s (ready (ok (suc n)), w) =
      again (record { writer = w; transmitting = drop (suc n) s.transmitting })

  unfoldable pub transmit_round :
      TxLocal V → Flow (TxLocal V) (Poll (Result (Unit {0})) × TxLocal V)
  unfolding wrote
  transmit_round s =
      if is_empty s.transmitting
      then done (ready (ok tt), s)
      else wrote s (V.poll_write s.writer s.transmitting)

  -- Each round that goes on has taken a byte, so the length of the buffer bounds the rounds.
  unfoldable pub poll_transmit : TxLocal V → Poll (Result (Unit {0})) × TxLocal V
  unfolding transmit_round
  poll_transmit s = loop (λ t. (pending, t)) transmit_round (λ t. length t.transmitting) s

  -- The `match` of `poll_flush`.
  pub both_done : Poll (Result (Unit {0})) → Poll (Result (Unit {0})) → Poll (Result (Unit {0}))
  both_done (ready (ok _)) (ready (ok _)) = ready (ok tt)
  both_done (ready (err e)) _ = ready (err e)
  both_done _ (ready (err e)) = ready (err (context "Failed to flush connection" e))
  both_done _ _ = pending

  unfoldable pub poll_flush : TxLocal V → Poll (Result (Unit {0})) × TxLocal V
  unfolding both_done
  poll_flush s =
      let (transmitted, s') = poll_transmit s in
      let (flushed, w) = V.poll_flush s'.writer in
      (both_done transmitted flushed, record s' { writer = w })

  -- The `match` of `poll_flush_in_bg`, outside tests.
  pub in_bg : Poll (Result (Unit {0})) → ℕ → Poll (Result (Unit {0}))
  in_bg (ready (ok _)) len = ready (ok tt)
  in_bg (ready (err e)) len = ready (err e)
  in_bg pending len = if leb pushback len then pending else ready (ok tt)

  unfoldable pub poll_flush_in_bg : TxLocal V → Poll (Result (Unit {0})) × TxLocal V
  unfolding in_bg
  poll_flush_in_bg s = let (r, s') = poll_flush s in (in_bg r (length s'.transmitting), s')

  -- `msg.0.take()` and the `match` on it.
  pub push_message : Sending → TxLocal V → TxLocal V
  push_message none s = s
  push_message (some m) s = record s { transmitting = (s.transmitting ++ m) ++ (newline ∷ []) }

  unfoldable pub poll_send : Sending → TxLocal V → Poll (Result (Unit {0})) × (TxLocal V × Sending)
  unfolding push_message
  poll_send msg s =
      let (r, s₁) = poll_flush_in_bg s in
      ready_ok (r, (s₁, msg))
        (λ _ _.
          let (r', s₂) = poll_flush_in_bg (push_message msg s₁) in
          ready_ok (r', (s₂, none)) (λ _ st. (ready (ok tt), st)))
