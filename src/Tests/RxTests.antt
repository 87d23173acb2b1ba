-- ===== src/Tests/RxTests.antt =====
-- protocol/src/io/rx.rs and protocol/src/io together, on concrete streams.
use minimal_vm_tool.Prelude.{
  zero, suc, ◌≡◌, ◌≢◌, refl, sym, true, none, some, List, [], ◌∷◌, arith, Bytes, String, newline,
  loop,
}
use minimal_vm_tool.Outcome.{plain, Result, ok, err, pending}
use minimal_vm_tool.Protocol.{Message, stdin, stdout, stderr, closed, from_stdio, out_stream}
use minimal_vm_tool.Protocol.Kinds.{GivesBack, all_give_back}
use minimal_vm_tool.Io.Tx.{Sending, TxLocal}
use minimal_vm_tool.Io.Tx.Handle.{send_and_flush, prepare_msgs, await_send, finished}
use minimal_vm_tool.Io.Tx.Handle.Progress.{open_tx, send_and_flush_prompt}
use minimal_vm_tool.Io.Rx.{ReadEvent, chunk, wait, MsgReader, position, poll_read_message}
use minimal_vm_tool.Io.Rx.Lines.{lines}
use minimal_vm_tool.Io.Rx.Reads.{Reads, poll_read_message-Reads}
use minimal_vm_tool.Io.Rx.Recv.{RxLocal, new_rx, pop, poll_recv}
use minimal_vm_tool.Io.Rx.Recv.Select.{select, selected, pop-eq-selected}
use minimal_vm_tool.Io.Rx.Recv.Mailbox.{Inbox, Receives, poll_recv-Receives}
use minimal_vm_tool.Io.Rx.Recv.All.{Drains, recv_all, recv_all-Drains}
use minimal_vm_tool.Io.Wire.{IsCodec, received_is_sent}
use minimal_vm_tool.Tests.Writers.{sink, sink-Delivers, sink-Prompt}

-- A codec for three messages; it refuses the others.
abbrev to_vec : Message → Result Bytes
to_vec (stdin closed) = ok (1 ∷ [])
to_vec (stdout closed) = ok (2 ∷ [])
to_vec (stderr closed) = ok (3 ∷ [])
to_vec _ = err (plain "refused")

abbrev from_slice : Bytes → Result Message
from_slice (suc zero ∷ []) = ok (stdin closed)
from_slice (suc (suc zero) ∷ []) = ok (stdout closed)
from_slice (suc (suc (suc zero)) ∷ []) = ok (stderr closed)
from_slice _ = err (plain "refused")

abbrev describe : Message → String
describe m = "Failed to prepare message for sending"

reads_back : (m : Message) (b : Bytes) → to_vec m ≡ ok b → from_slice b ≡ ok m
reads_back m b e = ground arith

one_line : (m : Message) (b : Bytes) → to_vec m ≡ ok b → position newline b ≡ none
unfolding position
one_line m b e = ground arith

not_empty : (m : Message) (b : Bytes) → to_vec m ≡ ok b → b ≢ []
not_empty m b e = ground arith

abbrev codec : IsCodec to_vec from_slice
codec = record { reads_back = reads_back; one_line = one_line; not_empty = not_empty }

abbrev sent_messages : List Message
sent_messages = stdin closed ∷ stdout closed ∷ []

abbrev sent_lines : List Sending
sent_lines = some (1 ∷ []) ∷ some (2 ∷ []) ∷ []

-- The lines of `sent_messages`, in chunks that are not lines, with a wait.
abbrev in_chunks : List ReadEvent
in_chunks = chunk 1 [] ∷ wait ∷ chunk 10 (2 ∷ []) ∷ chunk 10 [] ∷ []

abbrev fresh : TxLocal sink
fresh = record { writer = []; transmitting = [] }

abbrev reading : MsgReader
reading = record { reader = in_chunks; buffer = 10 ∷ [] }

abbrev receiver : RxLocal
receiver = record { reader = record { reader = in_chunks; buffer = [] }; msgs = stderr closed ∷ [] }

abbrev mailbox : List Message
mailbox = stderr closed ∷ sent_messages

-- The blank line is skipped, and the first chunk is no line yet.
reading_waits :
    poll_read_message from_slice reading
    ≡ (pending, record { reader = chunk 10 (2 ∷ []) ∷ chunk 10 [] ∷ []; buffer = 1 ∷ [] })
unfolding poll_read_message loop
reading_waits = refl

stdout_back : GivesBack (from_stdio out_stream)
stdout_back = all_give_back.stdio_back out_stream

pop_skips :
    pop (from_stdio out_stream) (stdin closed ∷ stdout closed ∷ stderr closed ∷ [])
    ≡ (some closed, stdin closed ∷ stderr closed ∷ [])
unfolding pop from_stdio
pop_skips = refl

sent_over_sink :
    (tx' : TxLocal sink) × (await_send sink 1
        (open_tx sink fresh)
        (send_and_flush to_vec describe sent_messages)
      ≡ finished (ok tt) (open_tx sink tx', record { msgs = ok []; flush = true }))
    × (tx'.writer ≡ 1 ∷ 10 ∷ 2 ∷ 10 ∷ [])
unfolding send_and_flush prepare_msgs
sent_over_sink = send_and_flush_prompt sink sink-Delivers sink-Prompt 0 sent_lines fresh

received_is_sent_example : Drains sent_messages (recv_all from_slice 9 (new_rx in_chunks))
unfolding prepare_msgs
received_is_sent_example =
    received_is_sent to_vec describe from_slice codec sink sink-Delivers 1 9 fresh sent_messages
      sent_lines (open_tx sink sent_over_sink.0) (record { msgs = ok []; flush = true }) in_chunks
      refl refl sent_over_sink.1 (sym sent_over_sink.2) (omega arith)

poll_read_message-Reads_example : Reads from_slice reading (poll_read_message from_slice reading)
poll_read_message-Reads_example = poll_read_message-Reads from_slice reading

pop-eq-selected_example :
    pop (from_stdio out_stream) mailbox
    ≡ selected (from_stdio out_stream) mailbox (select (from_stdio out_stream) mailbox)
pop-eq-selected_example = pop-eq-selected (from_stdio out_stream) stdout_back mailbox

inbox : Inbox from_slice receiver mailbox
unfolding lines
inbox = (sent_messages, refl, refl)

poll_recv-Receives_example :
    Receives from_slice
      (from_stdio out_stream)
      4
      mailbox
      (poll_recv (from_stdio out_stream) from_slice receiver)
poll_recv-Receives_example =
    poll_recv-Receives from_slice (from_stdio out_stream) stdout_back receiver mailbox inbox

recv_all-Drains_example : Drains mailbox (recv_all from_slice 9 receiver)
recv_all-Drains_example = recv_all-Drains from_slice 9 receiver mailbox inbox (omega arith)
