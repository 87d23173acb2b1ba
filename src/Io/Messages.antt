-- ===== src/Io/Messages.antt =====
-- `serialize_messages` and `deserialize_messages` of protocol/src/io/mod.rs, with which the tests of
-- the protocol make bytes of messages and messages of bytes. Their `expect`s and `panic!`s are
-- constructors of what they come to.
pub mod RoundTrip
use minimal_vm_tool.Prelude.{
  ℕ, zero, suc, String, Bool, true, false, List, [], ◌∷◌, is_empty, length, Bytes,
}
use minimal_vm_tool.Outcome.{Error, Result, ok, err, Poll, pending, ready}
use minimal_vm_tool.Protocol.{Message}
use minimal_vm_tool.Io.Writer.{Writer}
use minimal_vm_tool.Io.Tx.Handle.{
  Shared, DoSend, Awaited, waiting, finished, panicked, new_tx, send, flush_all, await_send,
  CloseState, flushing, poll_close_tx,
}
use minimal_vm_tool.Io.Rx.{ReadEvent}
use minimal_vm_tool.Io.Rx.Recv.{RxLocal, SharedRx, new_shared, close_rx}
use minimal_vm_tool.Io.Rx.Recv.All.{Drained, all, broke, unfinished, recv_all}

-- The vector, or the panic of an `expect`, or too few polls.
pub data Serialized (V : Writer) : Type 0 where
  vector : V.Conn → Serialized V
  not_sent : Error → Serialized V
  not_flushed : Error → Serialized V
  not_closed : Error → Serialized V
  sender_panicked : Serialized V
  too_few_polls : Serialized V

-- `Vec<u8>` is a writer of tokio's: `V`.
module _ (V : Writer) where
  pub closed_at :
      Poll (Result V.Conn) × (CloseState V × Shared V)
      → (CloseState V → Shared V → Awaited (Result V.Conn) (CloseState V × Shared V))
      → Awaited (Result V.Conn) (CloseState V × Shared V)
  closed_at (pending, (c, s)) go_on = go_on c s
  closed_at (ready r, (c, s)) go_on = finished r (c, s)

  unfoldable pub await_close :
      ℕ → CloseState V → Shared V → Awaited (Result V.Conn) (CloseState V × Shared V)
  unfolding closed_at
  await_close zero c s = waiting (c, s)
  await_close (suc n) c s = closed_at (poll_close_tx V c s) (await_close n)

  -- `.await.expect(…)` on a send, with the panic that an error is.
  unfoldable pub expect_sent :
      (Error → Serialized V)
      → (Shared V → Serialized V)
      → Awaited (Result (Unit {0})) (Shared V × DoSend)
      → Serialized V
  expect_sent panic next (waiting x) = too_few_polls
  expect_sent panic next panicked = sender_panicked
  expect_sent panic next (finished (err e) x) = panic e
  expect_sent panic next (finished (ok _) (s, d)) = next s

  unfoldable pub expect_closed : Awaited (Result V.Conn) (CloseState V × Shared V) → Serialized V
  expect_closed (waiting x) = too_few_polls
  expect_closed panicked = sender_panicked
  expect_closed (finished (err e) x) = not_closed e
  expect_closed (finished (ok w) x) = vector w

  -- At most `n` polls of each future, and the new vector `w`.
  unfoldable pub serialize_messages :
      (Message → Result Bytes) → (Message → String) → ℕ → V.Conn → List Message → Serialized V
  unfolding expect_sent expect_closed
  serialize_messages to_vec describe n w msgs =
      expect_sent not_sent
        (λ s.
          expect_sent not_flushed (λ t. expect_closed (await_close n flushing t))
            (await_send V n s flush_all))
        (await_send V n (new_tx V w) (send to_vec describe msgs))

-- The messages, or the panic of an `expect` or of one of the two checks after the close, with how many
-- bytes or messages it tells of; or too few polls.
pub data Deserialized : Type 0 where
  messages : List Message → Deserialized
  not_received : Error → Deserialized
  not_closed : Error → Deserialized
  bytes_remain : ℕ → Deserialized
  messages_skipped : List Message → Deserialized
  too_few_polls : Deserialized

unfoldable pub checked : List Message → Bytes → List Message → Deserialized
checked res [] [] = messages res
checked res [] (m ∷ skipped) = messages_skipped (m ∷ skipped)
checked res (b ∷ input) skipped = bytes_remain (length (b ∷ input))

unfoldable pub closed_with : List Message → Result (Bytes × List Message) → Deserialized
unfolding checked
closed_with res (ok (input, skipped)) = checked res input skipped
closed_with res (err e) = not_closed e

-- What follows the loop. The mutex of the receiver is in order, since nobody else has it.
unfoldable pub drained_to : Drained → Deserialized
unfolding closed_with
drained_to (all res s) = closed_with res (close_rx (record { broken = false; local = s })).0
drained_to (broke res e) = not_received e
drained_to unfinished = too_few_polls

-- At most `n` polls of the receiver.
unfoldable pub deserialize_messages : (Bytes → Result Message) → ℕ → List ReadEvent → Deserialized
unfolding drained_to
deserialize_messages from_slice n input =
    drained_to (recv_all from_slice n (new_shared input).local)
