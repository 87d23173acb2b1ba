-- ===== src/Tests/TxTests.antt =====
-- protocol/src/io/tx.rs on concrete connections.
use minimal_vm_tool.Prelude.{◌≡◌, refl, true, false, some, [], ◌∷◌, Bytes, String, loop}
use minimal_vm_tool.Outcome.{plain, Result, ok, err, ready}
use minimal_vm_tool.Io.Tx.{TxLocal, poll_transmit, poll_flush, poll_flush_in_bg, poll_send}
use minimal_vm_tool.Io.Tx.Output.{Sends, poll_send-Sends}
use minimal_vm_tool.Io.Tx.Handle.{
  Shared, DoSend, await_send, finished, prepare_msgs, was_closed, flushing, poll_close_tx,
}
use minimal_vm_tool.Io.Tx.Handle.Delivery.{Delivered, await_send-Delivered}
use minimal_vm_tool.Io.Tx.Handle.Progress.{open_tx, send_and_flush_prompt}
use minimal_vm_tool.Io.Tx.Handle.Closed.{ClosePoll, poll_close_tx-ClosePoll}
use minimal_vm_tool.Io.Tx.Handle.Prepare.{serialized, prepare_msgs-eq-serialized}
use minimal_vm_tool.Tests.Writers.{sink, sink-Delivers, sink-Prompt, slow, slow-Delivers}

-- A slow connection, two bytes in the buffer.
abbrev half_sent : TxLocal slow
half_sent = record { writer = ([], true); transmitting = 5 ∷ 6 ∷ [] }

abbrev line_buffered : TxLocal sink
line_buffered = record { writer = 1 ∷ []; transmitting = 2 ∷ 3 ∷ [] }

abbrev closed_handle : Shared slow
closed_handle = record { broken = false; local = err was_closed }

abbrev two_lines : DoSend
two_lines = record { msgs = ok (some (7 ∷ []) ∷ some (8 ∷ 9 ∷ []) ∷ []); flush = true }

-- A serializer that refuses an empty message.
abbrev to_vec : Bytes → Result Bytes
to_vec [] = err (plain "empty")
to_vec (b ∷ bs) = ok (b ∷ bs)

abbrev describe : Bytes → String
describe m = "Failed to prepare message for sending"

poll_send_pends : (poll_send slow (some (7 ∷ [])) half_sent).0 ≡ ready (ok tt)
unfolding poll_send poll_flush_in_bg poll_flush poll_transmit loop
poll_send_pends = refl

poll_send-Sends_example :
    Sends slow slow-Delivers half_sent (some (7 ∷ [])) (poll_send slow (some (7 ∷ [])) half_sent)
poll_send-Sends_example = poll_send-Sends slow slow-Delivers half_sent (some (7 ∷ []))

await_send-Delivered_example :
    Delivered slow slow-Delivers
      (open_tx slow half_sent)
      two_lines
      (await_send slow 20 (open_tx slow half_sent) two_lines)
await_send-Delivered_example =
    await_send-Delivered slow slow-Delivers 20 (open_tx slow half_sent) two_lines

send_and_flush_prompt_example :
    (tx' : TxLocal sink) × (await_send sink 1 (open_tx sink line_buffered) two_lines
      ≡ finished (ok tt) (open_tx sink tx', record { msgs = ok []; flush = true }))
    × (tx'.writer ≡ 1 ∷ 2 ∷ 3 ∷ 7 ∷ 10 ∷ 8 ∷ 9 ∷ 10 ∷ [])
send_and_flush_prompt_example =
    send_and_flush_prompt sink sink-Delivers sink-Prompt 0 (some (7 ∷ []) ∷ some (8 ∷ 9 ∷ []) ∷ [])
      line_buffered

poll_close_tx-ClosePoll_example :
    ClosePoll slow slow-Delivers (5 ∷ 6 ∷ []) (poll_close_tx slow flushing (open_tx slow half_sent))
poll_close_tx-ClosePoll_example =
    poll_close_tx-ClosePoll slow slow-Delivers (5 ∷ 6 ∷ []) flushing (open_tx slow half_sent) refl

prepare_msgs-eq-serialized_example :
    prepare_msgs to_vec describe ((1 ∷ []) ∷ [] ∷ (2 ∷ []) ∷ [])
    ≡ serialized to_vec describe ((1 ∷ []) ∷ [] ∷ (2 ∷ []) ∷ [])
prepare_msgs-eq-serialized_example =
    prepare_msgs-eq-serialized to_vec describe ((1 ∷ []) ∷ [] ∷ (2 ∷ []) ∷ [])
