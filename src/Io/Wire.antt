-- ===== src/Io/Wire.antt =====
-- The two halves of protocol/src/io together: what is sent is received.
use minimal_vm_tool.Prelude.{
  ℕ, ◌+◌, ◌<◌, ◌≡◌, ◌≢◌, refl, ap, ap₂, ◌∙◌, sym, none, some, List, [], ◌∷◌, ◌++◌, map, length,
  Bytes, String, newline,
}
use minimal_vm_tool.Outcome.{Result, ok, err, ◌>>=◌}
use minimal_vm_tool.Protocol.{Message}
use minimal_vm_tool.Io.Writer.{Writer, Delivers}
use minimal_vm_tool.Io.Tx.{Sending, TxLocal}
use minimal_vm_tool.Io.Tx.Output.{output}
use minimal_vm_tool.Io.Tx.Handle.{
  Shared, DoSend, prepare_msgs, send_and_flush, await_send, finished,
}
use minimal_vm_tool.Io.Tx.Handle.Delivery.{
  frames, frames_of, delivered_of, Delivered, await_send-Delivered,
}
use minimal_vm_tool.Io.Tx.Handle.Progress.{open_tx}
use minimal_vm_tool.Io.Tx.Handle.Prepare.{serialized_one, serialized, prepare_msgs-eq-serialized}
use minimal_vm_tool.Io.Rx.{ReadEvent, position}
use minimal_vm_tool.Io.Rx.Lines.{lines, lines-line, lines-nil}
use minimal_vm_tool.Io.Rx.Reads.{content}
use minimal_vm_tool.Io.Rx.Recv.{new_rx}
use minimal_vm_tool.Io.Rx.Recv.Mailbox.{Inbox}
use minimal_vm_tool.Io.Rx.Recv.All.{Drains, recv_all, recv_all-Drains}

-- What is relied on of serde_json: a message is written on one line that is not empty, and is read
-- back from it.
pub record IsCodec (to_vec : Message → Result Bytes) (from_slice : Bytes → Result Message)
    : Type 0 where
  pub reads_back : (m : Message) (b : Bytes) → to_vec m ≡ ok b → from_slice b ≡ ok m
  pub one_line : (m : Message) (b : Bytes) → to_vec m ≡ ok b → position newline b ≡ none
  pub not_empty : (m : Message) (b : Bytes) → to_vec m ≡ ok b → b ≢ []

module _ (to_vec : Message → Result Bytes) (describe : Message → String)
    (from_slice : Bytes → Result Message) (codec : IsCodec to_vec from_slice) where
  -- The lines that are sent for messages are read as the messages.
  abbrev pub Reads : List Message → List Sending → Type 0
  Reads ms ss = map from_slice (lines (frames ss)) ≡ map ok ms

  one_Reads :
      (m : Message) (ms : List Message) (ss : List Sending) (r : Result Bytes)
      (t : Result (List Sending))
      → to_vec m ≡ r
      → ((rest : List Sending) → t ≡ ok rest → Reads ms rest)
      → (do s ← serialized_one to_vec describe m r; rest ← t; ok (s ∷ rest)) ≡ ok ss
      → Reads (m ∷ ms) ss
  one_Reads m ms ss (err x) t e ih h = cc
  one_Reads m ms ss (ok b) (err x) e ih h = cc
  one_Reads m ms ss (ok b) (ok rest) e ih h =
      let whole : ss ≡ some b ∷ rest = cc in
      ap (λ x. map from_slice (lines (frames x))) whole
      ∙ ap (map from_slice)
          (lines-line b (frames rest) (codec.one_line m b e) (codec.not_empty m b e))
      ∙ ap₂ ◌∷◌ (codec.reads_back m b e) (ih rest refl)

  pub serialized-Reads :
      (ms : List Message) (ss : List Sending) → serialized to_vec describe ms ≡ ok ss → Reads ms ss
  serialized-Reads [] ss h =
      ap (λ x. map from_slice (lines (frames x))) (let none_sent : ss ≡ [] = cc in none_sent)
      ∙ ap (map from_slice) lines-nil
  serialized-Reads (m ∷ ms) ss h =
      one_Reads m ms ss (to_vec m) (serialized to_vec describe ms) refl (serialized-Reads ms) h

  module _ (V : Writer) (D : Delivers V) where
    -- A reader of what was sent and flushed is a mailbox of the messages.
    pub Inbox-send :
        (n : ℕ) (tx : TxLocal V) (ms : List Message) (ss : List Sending) (s' : Shared V)
        (d' : DoSend) (r : List ReadEvent)
        → output V D tx ≡ []
        → prepare_msgs to_vec describe ms ≡ ok ss
        → await_send V n (open_tx V tx) (send_and_flush to_vec describe ms)
          ≡ finished (ok tt) (s', d')
        → content r ≡ delivered_of V D s'.local
        → Inbox from_slice (new_rx r) ms
    unfolding new_rx send_and_flush
    Inbox-send n tx ms ss s' d' r fresh prep run same =
        let all : Delivered V D (open_tx V tx) (send_and_flush to_vec describe ms)
            (finished (ok tt) (s', d')) =
          rw run at
            (await_send-Delivered V D n (open_tx V tx) (send_and_flush to_vec describe ms)) in
        (
          ms,
          refl,
          ap (λ x. map from_slice (lines x)) (same ∙ all ∙ ap₂ ◌++◌ fresh (ap frames_of prep))
              ∙ serialized-Reads ms ss (sym (prepare_msgs-eq-serialized to_vec describe ms) ∙ prep),
        )

    -- Where serialization reads back, gives one non-empty line per message and succeeds for the
    -- given messages, and a send_and_flush of them over an open connection with no output before
    -- has finished without an error, recv_all, over a reader whose bytes are those that the
    -- connection took and with a bound above the number of the messages and of the polls of the
    -- reader, gives all of them in order, or a prefix of them and an error.
    pub received_is_sent :
        (n k : ℕ) (tx : TxLocal V) (ms : List Message) (ss : List Sending) (s' : Shared V)
        (d' : DoSend) (r : List ReadEvent)
        → output V D tx ≡ []
        → prepare_msgs to_vec describe ms ≡ ok ss
        → await_send V n (open_tx V tx) (send_and_flush to_vec describe ms)
          ≡ finished (ok tt) (s', d')
        → content r ≡ delivered_of V D s'.local
        → length ms + length r < k
        → Drains ms (recv_all from_slice k (new_rx r))
    unfolding new_rx
    received_is_sent n k tx ms ss s' d' r fresh prep run same enough =
        recv_all-Drains from_slice k (new_rx r) ms
          (Inbox-send n tx ms ss s' d' r fresh prep run same) enough
