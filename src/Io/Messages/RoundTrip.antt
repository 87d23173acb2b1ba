-- ===== src/Io/Messages/RoundTrip.antt =====
-- What `serialize_messages` makes of messages is what `deserialize_messages` makes them of.
use minimal_vm_tool.Prelude.{
  ℕ, suc, ◌+◌, ◌<◌, ◌≡◌, refl, ap, ◌∙◌, sym, subst, String, Bool, true, false, List, [], ◌++◌,
  append-nil, length, map, Bytes,
}
use minimal_vm_tool.Outcome.{Error, context, Result, ok, err, Poll, pending, ready}
use minimal_vm_tool.Protocol.{Message}
use minimal_vm_tool.Io.Writer.{Writer, Delivers}
use minimal_vm_tool.Io.Tx.{Sending, TxLocal, new}
use minimal_vm_tool.Io.Tx.Prompt.{Prompt}
use minimal_vm_tool.Io.Tx.Output.{output}
use minimal_vm_tool.Io.Tx.Handle.{
  Shared, DoSend, finished, new_tx, prepare_msgs, send, flush_all, await_send, polled, poll_do_send,
  CloseState, flushing, poll_close_tx,
}
use minimal_vm_tool.Io.Tx.Handle.Delivery.{frames, DoesSend, poll_do_send-DoesSend}
use minimal_vm_tool.Io.Tx.Handle.Progress.{open_tx, do_send_prompt}
use minimal_vm_tool.Io.Tx.Handle.Closed.{ClosePoll, poll_close_tx-ClosePoll}
use minimal_vm_tool.Io.Tx.Handle.Shuts.{Returns, poll_close_tx-Returns}
use minimal_vm_tool.Io.Rx.{ReadEvent, close_reader}
use minimal_vm_tool.Io.Rx.Lines.{lines}
use minimal_vm_tool.Io.Rx.Reads.{content}
use minimal_vm_tool.Io.Rx.Recv.{RxLocal, new_rx, new_shared, close_buffer, close_local, close_rx}
use minimal_vm_tool.Io.Rx.Recv.Mailbox.{Inbox}
use minimal_vm_tool.Io.Rx.Recv.All.{
  Drained, all, broke, unfinished, recv_all, Drains, everything, a_prefix, recv_all-Drains,
}
use minimal_vm_tool.Io.Rx.Recv.Steady.{Chunks, Unbroken, recv_all-Unbroken}
use minimal_vm_tool.Io.Wire.{IsCodec, serialized-Reads}
use minimal_vm_tool.Io.Tx.Handle.Prepare.{serialized, prepare_msgs-eq-serialized}
use minimal_vm_tool.Io.Messages.{
  Serialized, vector, not_sent, await_close, closed_at, expect_sent, expect_closed,
  serialize_messages, messages, checked, closed_with, drained_to, deserialize_messages,
}

-- What is relied on of `Vec<u8>` as a writer: it takes everything at once, in order.
pub record IsVector (V : Writer) : Type 0 where
  pub delivers : Delivers V
  pub prompt : Prompt V
  pub shuts : (w : V.Conn) → (V.poll_shutdown w).0 ≡ ready (ok tt)

module _ (V : Writer) (I : IsVector V) where
  -- A send is over at its first poll, and puts its lines behind the output.
  one_poll :
      (n : ℕ) (msgs : List Sending) (flush : Bool) (tx : TxLocal V)
      → (tx' : TxLocal V) × (await_send V
            (suc n)
            (open_tx V tx)
            (record { msgs = ok msgs; flush = flush })
          ≡ finished (ok tt) (open_tx V tx', record { msgs = ok []; flush = flush }))
        × (output V I.delivers tx' ≡ output V I.delivers tx ++ frames msgs)
  unfolding await_send polled
  one_poll n msgs flush tx =
      let (tx', e) = do_send_prompt V I.delivers I.prompt msgs flush tx in
      let d : DoSend = record { msgs = ok msgs; flush = flush } in
      let does =
        subst (DoesSend V I.delivers (open_tx V tx) d) e
          (poll_do_send-DoesSend V I.delivers (open_tx V tx) d) in
      (tx', rw e refl, sym (append-nil (output V I.delivers tx')) ∙ does.0)

  closed_to :
      (n : ℕ) (sent : Bytes) (p : Poll (Result V.Conn) × (CloseState V × Shared V))
      → Returns V I.prompt I.shuts p.0
      → ClosePoll V I.delivers sent p
      → (w : V.Conn) × (expect_closed V (closed_at V p (await_close V n)) ≡ vector w)
        × (I.delivers.delivered w ≡ sent)
  unfolding closed_at expect_closed
  closed_to n sent (pending, (c, s)) r h = absurd r
  closed_to n sent (ready (err e), (c, s)) r h = absurd r
  closed_to n sent (ready (ok w), (c, s)) r h = (w, refl, h.0)

  close_at_once :
      (n : ℕ) (tx : TxLocal V)
      → (w : V.Conn) × (expect_closed V (await_close V (suc n) flushing (open_tx V tx)) ≡ vector w)
        × (I.delivers.delivered w ≡ output V I.delivers tx)
  unfolding await_close
  close_at_once n tx =
      closed_to n (output V I.delivers tx) (poll_close_tx V flushing (open_tx V tx))
        (poll_close_tx-Returns V I.prompt I.shuts tx)
        (poll_close_tx-ClosePoll V I.delivers (output V I.delivers tx) flushing (open_tx V tx) refl)

  module _ (to_vec : Message → Result Bytes) (describe : Message → String) where
    serialized_by :
        (n : ℕ) (w : V.Conn) (ms : List Message) (ss : List Sending)
        → prepare_msgs to_vec describe ms ≡ ok ss
        → I.delivers.delivered w ≡ []
        → (w' : V.Conn) × (serialize_messages V to_vec describe (suc n) w ms ≡ vector w')
          × (I.delivers.delivered w' ≡ frames ss)
    unfolding serialize_messages expect_sent new_tx new send flush_all
    serialized_by n w ms ss e fresh =
        let (t, sends, after_send) = one_poll n ss false (new V w) in
        let (u, flushes, after_flush) = one_poll n [] true t in
        let (w', closes, whole) = close_at_once n u in
        (
          w',
          rw e (rw sends (rw flushes closes)),
          whole
              ∙ after_flush
              ∙ append-nil (output V I.delivers t)
              ∙ after_send
              ∙ ap (λ b. b ++ frames ss) (append-nil (I.delivers.delivered w) ∙ fresh),
        )

other_context :
    (x y : Error) → context "Failed to read from reader" x ≡ context "Failed to parse message" y → ⊥
other_context x y e = cc e

module _ (from_slice : Bytes → Result Message) where
  -- Where nothing is left over, the messages are what was received.
  nothing_left :
      (ms : List Message) (s : RxLocal)
      → s.msgs ≡ []
      → s.reader.buffer ≡ []
      → drained_to (all ms s) ≡ messages ms
  unfolding drained_to close_rx close_local close_buffer close_reader closed_with checked
  nothing_left ms s n b = rw b (rw n refl)

  drained_to-Drains :
      (q : List Message) (d : Drained)
      → Drains q d
      → Unbroken from_slice d
      → drained_to d ≡ messages q
  drained_to-Drains q (all ms s) (everything front end h n b) u =
      nothing_left ms s n b ∙ ap messages (sym h)
  drained_to-Drains q (broke ms e) (a_prefix front rest x h) u = absurd (other_context x u.0 u.1)
  drained_to-Drains q unfinished h u = elim h [ ]

  pub received_by :
      (n : ℕ) (input : List ReadEvent) (ms : List Message)
      → Chunks input
      → Inbox from_slice (new_rx input) ms
      → length ms + length input < n
      → deserialize_messages from_slice n input ≡ messages ms
  unfolding deserialize_messages new_shared new_rx
  received_by n input ms c h lt =
      drained_to-Drains ms (recv_all from_slice n (new_rx input))
        (recv_all-Drains from_slice n (new_rx input) ms h lt)
        (recv_all-Unbroken from_slice n (new_rx input) c)

-- What serializing comes to, by what becomes of the messages one by one.
abbrev pub Serializes : (V : Writer) → Delivers V → Result (List Sending) → Serialized V → Type 0
Serializes V D (ok ss) (vector w) = D.delivered w ≡ frames ss
Serializes V D (err e) (not_sent x) = x ≡ e
Serializes V D r s = ⊥

module _ (V : Writer) (I : IsVector V) (to_vec : Message → Result Bytes)
    (describe : Message → String) where
  Serializes-at :
      (n : ℕ) (w : V.Conn) (ms : List Message) (r : Result (List Sending))
      → prepare_msgs to_vec describe ms ≡ r
      → I.delivers.delivered w ≡ []
      → Serializes V I.delivers r (serialize_messages V to_vec describe (suc n) w ms)
  unfolding serialize_messages expect_sent send await_send polled poll_do_send
  Serializes-at n w ms (ok ss) e fresh =
      let (w', same, whole) = serialized_by V I to_vec describe n w ms ss e fresh in
      subst (Serializes V I.delivers (ok ss)) (sym same) whole
  Serializes-at n w ms (err x) e fresh = rw e refl

  -- Where a vector is a writer that takes everything at once and in order: serialize_messages, over
  -- a new vector, gives the vector with the lines of the messages where they all serialize; else it
  -- panics at its first expect, with the error of the first message that does not.
  pub serialize_messages-Serializes :
      (n : ℕ) (w : V.Conn) (ms : List Message)
      → I.delivers.delivered w ≡ []
      → Serializes V I.delivers
          (serialized to_vec describe ms)
          (serialize_messages V to_vec describe (suc n) w ms)
  serialize_messages-Serializes n w ms fresh =
      Serializes-at n w ms (serialized to_vec describe ms)
        (prepare_msgs-eq-serialized to_vec describe ms) fresh

  module _ (from_slice : Bytes → Result Message) (codec : IsCodec to_vec from_slice) where
    read_back :
        (k : ℕ) (w : V.Conn) (ms : List Message) (input : List ReadEvent)
        (r : Result (List Sending))
        → serialized to_vec describe ms ≡ r
        → Serializes V I.delivers r (vector w)
        → content input ≡ I.delivers.delivered w
        → Chunks input
        → length ms + length input < k
        → deserialize_messages from_slice k input ≡ messages ms
    unfolding new_rx
    read_back k w ms input (err x) e s same c lt = absurd s
    read_back k w ms input (ok ss) e s same c lt =
        received_by from_slice k input ms c
          (
            ms,
            refl,
            ap (λ b. map from_slice (lines b)) (same ∙ s)
                ∙ serialized-Reads to_vec describe from_slice codec ms ss e,
          )
          lt

    -- Where a vector is a writer that takes everything at once and in order, and JSON is as IsCodec
    -- says: what serialize_messages, over a new vector, has made of messages, is made the same
    -- messages by deserialize_messages, in whatever chunks it reads the bytes, with a bound above
    -- the number of messages and of chunks; so that nothing is left over at its close.
    pub deserialize_messages-serialize_messages :
        (n k : ℕ) (w w' : V.Conn) (ms : List Message) (input : List ReadEvent)
        → I.delivers.delivered w ≡ []
        → serialize_messages V to_vec describe (suc n) w ms ≡ vector w'
        → content input ≡ I.delivers.delivered w'
        → Chunks input
        → length ms + length input < k
        → deserialize_messages from_slice k input ≡ messages ms
    deserialize_messages-serialize_messages n k w w' ms input fresh run same c lt =
        read_back k w' ms input (serialized to_vec describe ms) refl
          (subst (Serializes V I.delivers (serialized to_vec describe ms)) run
            (serialize_messages-Serializes n w ms fresh))
          same c lt
