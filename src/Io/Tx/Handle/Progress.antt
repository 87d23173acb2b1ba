-- ===== src/Io/Tx/Handle/Progress.antt =====
-- On a connection that takes what it is given, a send finishes at its first poll.
use minimal_vm_tool.Prelude.{ℕ, suc, ◌≡◌, refl, true, false, some, List, [], ◌∷◌, ◌++◌, arith, Bool}
use minimal_vm_tool.Outcome.{ok, ready}
use minimal_vm_tool.Io.Writer.{Writer, Delivers}
use minimal_vm_tool.Io.Tx.{Sending, TxLocal, poll_flush, poll_send}
use minimal_vm_tool.Io.Tx.Output.{output, poll_send_lem}
use minimal_vm_tool.Io.Tx.Prompt.{Prompt, poll_flush_prompt, poll_send_prompt}
use minimal_vm_tool.Io.Tx.Handle.{
  Shared, shared_flush, shared_send, poll_msgs, poll_do_send, finished, await_send,
}
use minimal_vm_tool.Io.Tx.Handle.Delivery.{frames, Delivered, await_send-Delivered}

-- The mutex is in order and the writer is there.
abbrev pub open_tx : (V : Writer) → TxLocal V → Shared V
open_tx V tx = record { broken = false; local = ok tx }

module _ (V : Writer) (D : Delivers V) (Q : Prompt V) where
  poll_msgs_prompt :
      (msgs : List Sending) (tx : TxLocal V)
      → (tx' : TxLocal V) × (poll_msgs V msgs (open_tx V tx)
          ≡ some (ready (ok tt), (open_tx V tx', [])))
  unfolding poll_msgs shared_send
  poll_msgs_prompt [] tx = (tx, refl)
  poll_msgs_prompt (msg ∷ msgs) tx =
      let tx₁ = (poll_send V msg tx).1.0 in
      let rest = poll_msgs_prompt msgs tx₁ in
      (rest.0, ground (arith, poll_send_prompt V Q msg tx, (poll_send_lem V D tx msg).1, rest.1))

  pub do_send_prompt :
      (msgs : List Sending) (flush : Bool) (tx : TxLocal V)
      → (tx' : TxLocal V) × (poll_do_send V
            (record { msgs = ok msgs; flush = flush })
            (open_tx V tx)
          ≡ some (ready (ok tt), (open_tx V tx', record { msgs = ok []; flush = flush })))
  unfolding poll_do_send shared_flush
  do_send_prompt msgs true tx =
      let done = poll_msgs_prompt msgs tx in
      ((poll_flush V done.0).1, ground (arith, done.1, poll_flush_prompt V Q done.0))
  do_send_prompt msgs false tx =
      let done = poll_msgs_prompt msgs tx in (done.0, ground (arith, done.1))

  awaited_prompt :
      (n : ℕ) (msgs : List Sending) (tx tx' : TxLocal V)
      → poll_do_send V (record { msgs = ok msgs; flush = true }) (open_tx V tx)
        ≡ some (ready (ok tt), (open_tx V tx', record { msgs = ok []; flush = true }))
      → await_send V (suc n) (open_tx V tx) (record { msgs = ok msgs; flush = true })
        ≡ finished (ok tt) (open_tx V tx', record { msgs = ok []; flush = true })
  unfolding await_send
  awaited_prompt n msgs tx tx' e = rw e refl

  -- Over an open connection that is always ready and takes at least a byte of each write, a
  -- flushing send of serialized messages finishes at its first poll, and has put the buffer and
  -- then the line of each message on the connection.
  pub send_and_flush_prompt :
      (n : ℕ) (msgs : List Sending) (tx : TxLocal V)
      → (tx' : TxLocal V) × (await_send V
            (suc n)
            (open_tx V tx)
            (record { msgs = ok msgs; flush = true })
          ≡ finished (ok tt) (open_tx V tx', record { msgs = ok []; flush = true }))
        × (D.delivered tx'.writer ≡ output V D tx ++ frames msgs)
  send_and_flush_prompt n msgs tx =
      let sent = do_send_prompt msgs true tx in
      let e = awaited_prompt n msgs tx sent.0 sent.1 in
      let all : Delivered V D (open_tx V tx) (record { msgs = ok msgs; flush = true })
          (finished (ok tt) (open_tx V sent.0, record { msgs = ok []; flush = true })) =
        rw e at (
          await_send-Delivered V D (suc n) (open_tx V tx)
            (record { msgs = ok msgs; flush = true })) in
      (sent.0, e, all)
