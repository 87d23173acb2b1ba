-- ===== src/Tests/MessagesTests.antt =====
-- protocol/src/io/mod.rs on the messages of a session.
use minimal_vm_tool.Prelude.{◌≡◌, refl, List, [], ◌∷◌, Bytes, String, arith, loop}
use minimal_vm_tool.Protocol.{Message, started, stdout, data_of, closed}
use minimal_vm_tool.Io.Tx.{poll_send, poll_flush_in_bg, poll_flush, poll_transmit}
use minimal_vm_tool.Io.Tx.Handle.{
  await_send, poll_do_send, send, prepare_msgs, poll_msgs, shared_send, new_tx, flush_all,
  shared_flush, poll_close_tx, poll_close, drain, drain_round, shutdown,
}
use minimal_vm_tool.Io.Rx.{ReadEvent, chunk}
use minimal_vm_tool.Io.Tx.Handle.Prepare.{serialized}
use minimal_vm_tool.Io.Messages.{
  vector, await_close, serialize_messages, messages, deserialize_messages,
}
use minimal_vm_tool.Io.Messages.RoundTrip.{
  IsVector, Serializes, serialize_messages-Serializes, deserialize_messages-serialize_messages,
}
use minimal_vm_tool.Tests.Writers.{sink, sink-Delivers, sink-Prompt}
use minimal_vm_tool.Tests.Codec.{to_vec, from_slice, codec}

abbrev sink-IsVector : IsVector sink
sink-IsVector = record { delivers = sink-Delivers; prompt = sink-Prompt; shuts = λ w. refl }

abbrev describe : Message → String
describe m = "Failed to prepare message for sending"

abbrev sent_messages : List Message
sent_messages = started (record { pid = 42 }) ∷ stdout (data_of (97 ∷ [])) ∷ stdout closed ∷ []

abbrev sent_bytes : Bytes
sent_bytes = 4 ∷ 53 ∷ 10 ∷ 5 ∷ 108 ∷ 10 ∷ 2 ∷ 10 ∷ []

abbrev in_two : List ReadEvent
in_two = chunk 4 (53 ∷ 10 ∷ 5 ∷ []) ∷ chunk 108 (10 ∷ 2 ∷ 10 ∷ []) ∷ []

serialized_at : serialize_messages sink to_vec describe 1 [] sent_messages ≡ vector sent_bytes
unfolding serialize_messages await_send poll_do_send send prepare_msgs poll_msgs shared_send new_tx
    poll_send poll_flush_in_bg poll_flush poll_transmit loop flush_all shared_flush await_close
    poll_close_tx poll_close drain drain_round shutdown
serialized_at = refl

serialize_messages-Serializes_example :
    Serializes sink sink-Delivers
      (serialized to_vec describe sent_messages)
      (serialize_messages sink to_vec describe 1 [] sent_messages)
serialize_messages-Serializes_example =
    serialize_messages-Serializes sink sink-IsVector to_vec describe 0 [] sent_messages refl

deserialize_messages-serialize_messages_example :
    deserialize_messages from_slice 6 in_two ≡ messages sent_messages
deserialize_messages-serialize_messages_example =
    deserialize_messages-serialize_messages sink sink-IsVector to_vec describe from_slice codec 0 6
      [] sent_bytes sent_messages in_two refl serialized_at refl tt (omega arith)
