-- ===== src/Io/Rx/Recv.antt =====
-- `MsgBuffer`, `RxLocal` and `Rx` of protocol/src/io/rx.rs: receiving a message of one type, and
-- keeping the others for their receivers.
pub mod Select
pub mod Mailbox
pub mod All
pub mod Steady
pub mod Held
pub mod Share
use minimal_vm_tool.Prelude.{
  ℕ, zero, suc, Bool, false, Option, none, some, List, [], ◌∷◌, ◌++◌, length, get_or, set,
  erase_idx, Bytes, Flow, again, done, loop, if◌then◌else◌,
}
use minimal_vm_tool.Outcome.{Error, plain, Result, ok, err, Poll, pending, ready}
use minimal_vm_tool.Protocol.{Message, no_op, Converted, is, is_not}
use minimal_vm_tool.Io.Rx.{ReadEvent, MsgReader, new_reader, close_reader, poll_read_message}
use minimal_vm_tool.Io.Rx.Lines.{lines}
use minimal_vm_tool.Io.Rx.Reads.{stream}

-- `RxLocal`; `msgs` is the queue of the `MsgBuffer`.
pub record RxLocal : Type 0 where
  pub reader : MsgReader
  pub msgs : List Message

-- `Mutex<RxLocal<R>>`, which the clones of an `Rx` share.
pub record SharedRx : Type 0 where
  pub broken : Bool
  pub local : RxLocal

unfoldable pub new_rx : List ReadEvent → RxLocal
unfolding new_reader
new_rx r = record { reader = new_reader r; msgs = [] }

-- `Rx::new`.
unfoldable pub new_shared : List ReadEvent → SharedRx
new_shared r = record { broken = false; local = new_rx r }

-- `MsgBuffer::push`, and `MsgBuffer::close` with what it leaves.
pub push : List Message → Message → List Message
push queue msg = queue ++ msg ∷ []

unfoldable pub close_buffer : List Message → List Message × List Message
close_buffer queue = (queue, [])

-- `RxLocal::close`.
unfoldable pub close_local : RxLocal → (Bytes × List Message) × RxLocal
unfolding close_reader close_buffer
close_local s =
    let (bytes, reader) = close_reader s.reader in
    let (msgs, left) = close_buffer s.msgs in
    ((bytes, msgs), record { reader = reader; msgs = left })

-- `Rx::close`.
unfoldable pub close_rx : SharedRx → Result (Bytes × List Message) × SharedRx
unfolding close_local
close_rx s =
    if s.broken
    then (err (plain "BUG: Rx Mutex broken"), s)
    else (let (out, local) = close_local s.local in (ok out, record s { local = local }))

module _ {A : Type 0} (from_message : Message → Converted A) where
  -- The `match` in the loop of `MsgBuffer::pop`, at index `ix`, whose place holds a no-op.
  pub popped :
      (List Message → Option A × List Message)
      → ℕ
      → List Message
      → Converted A
      → Option A × List Message
  popped next ix queue (is m) = (some m, erase_idx queue ix)
  popped next ix queue (is_not msg) = next (set queue ix msg)

  -- The loop from index `ix` on, with `n` indices to go.
  pub pop_from : ℕ → ℕ → List Message → Option A × List Message
  unfolding popped
  pop_from zero ix queue = (none, queue)
  pop_from (suc n) ix queue =
      popped (pop_from n (suc ix)) ix (set queue ix no_op) (from_message (get_or queue ix no_op))

  unfoldable pub pop : List Message → Option A × List Message
  unfolding pop_from
  pop queue = pop_from (length queue) 0 queue

  -- The `match` on the conversion of a message that was read.
  pub converted :
      List Message → MsgReader → Converted A → Flow RxLocal (Poll (Result (Option A)) × RxLocal)
  unfolding push
  converted msgs r (is m) = done (ready (ok (some m)), record { reader = r; msgs = msgs })
  converted msgs r (is_not msg) = again (record { reader = r; msgs = push msgs msg })

  module _ (from_slice : Bytes → Result Message) where
    -- The `match` of a round of `RxLocal::poll_recv`.
    pub received :
        List Message
        → Poll (Result (Option Message)) × MsgReader
        → Flow RxLocal (Poll (Result (Option A)) × RxLocal)
    unfolding converted
    received msgs (pending, r) = done (pending, record { reader = r; msgs = msgs })
    received msgs (ready (err e), r) = done (ready (err e), record { reader = r; msgs = msgs })
    received msgs (ready (ok none), r) = done (ready (ok none), record { reader = r; msgs = msgs })
    received msgs (ready (ok (some msg)), r) = converted msgs r (from_message msg)

    unfoldable pub recv_round : RxLocal → Flow RxLocal (Poll (Result (Option A)) × RxLocal)
    unfolding received
    recv_round s = received s.msgs (poll_read_message from_slice s.reader)

    -- Each round that goes on has read a line.
    unfoldable pub recv_loop : RxLocal → Poll (Result (Option A)) × RxLocal
    recv_loop s = loop (λ t. (pending, t)) recv_round (λ t. length (lines (stream t.reader))) s

    -- `RxLocal::poll_recv`, at what `pop` returned.
    pub after_pop : MsgReader → Option A × List Message → Poll (Result (Option A)) × RxLocal
    after_pop r (some m, msgs) = (ready (ok (some m)), record { reader = r; msgs = msgs })
    after_pop r (none, msgs) = recv_loop (record { reader = r; msgs = msgs })

    unfoldable pub poll_recv : RxLocal → Poll (Result (Option A)) × RxLocal
    unfolding after_pop
    poll_recv s = after_pop s.reader (pop s.msgs)

    -- `Rx::poll_recv`, and a poll of the future `Recv`.
    unfoldable pub shared_recv : SharedRx → Poll (Result (Option A)) × SharedRx
    shared_recv s =
        if s.broken
        then (ready (err (plain "BUG: Rx Mutex broken")), s)
        else (let (r, local) = poll_recv s.local in (r, record s { local = local }))
