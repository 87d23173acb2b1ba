-- ===== src/Io/Tx/Prompt.antt =====
-- A connection that takes what it is given: sends go through at the first poll.
use minimal_vm_tool.Prelude.{
  ℕ, zero, suc, ◌≡◌, false, is_empty, arith, Bytes, Bool-cases, inl, inr, done, length,
  loop_induction,
}
use minimal_vm_tool.Outcome.{Result, ok, err, Poll, pending, ready}
use minimal_vm_tool.Io.Writer.{Writer}
use minimal_vm_tool.Io.Tx.{
  Sending, TxLocal, wrote, transmit_round, poll_transmit, poll_flush, poll_flush_in_bg,
  push_message, poll_send,
}
use minimal_vm_tool.Io.Tx.Output.{round_falls}

-- Writes of at least a byte take at least a byte, and flushes succeed.
pub record Prompt (V : Writer) : Type 0 where
  pub taken : V.Conn → Bytes → ℕ
  pub takes :
      (w : V.Conn) (buf : Bytes)
      → is_empty buf ≡ false
      → (V.poll_write w buf).0 ≡ ready (ok (suc (taken w buf)))
  pub flushes : (w : V.Conn) → (V.poll_flush w).0 ≡ ready (ok tt)

module _ (V : Writer) (Q : Prompt V) where
  wrote_prompt :
      (s : TxLocal V) (n : ℕ) (p : Poll (Result ℕ) × V.Conn)
      (a : Poll (Result (Unit {0})) × TxLocal V)
      → p.0 ≡ ready (ok (suc n))
      → wrote V s p ≡ done a
      → a.0 ≡ ready (ok tt)
  unfolding wrote
  wrote_prompt s n (pending, w) a e h = cc
  wrote_prompt s n (ready (err x), w) a e h = cc
  wrote_prompt s n (ready (ok zero), w) a e h = ground arith
  wrote_prompt s n (ready (ok (suc m)), w) a e h = cc

  round_prompt :
      (s : TxLocal V) (a : Poll (Result (Unit {0})) × TxLocal V)
      → transmit_round V s ≡ done a
      → a.0 ≡ ready (ok tt)
  unfolding transmit_round
  round_prompt s a e = elim (Bool-cases (is_empty s.transmitting)) [
    | inl h ↦ ground arith
    | inr h ↦
        wrote_prompt s (Q.taken s.writer s.transmitting) (V.poll_write s.writer s.transmitting) a
          (Q.takes s.writer s.transmitting h) (rw h at e)
  ]

  pub poll_transmit_prompt : (s : TxLocal V) → (poll_transmit V s).0 ≡ ready (ok tt)
  unfolding poll_transmit
  poll_transmit_prompt s =
      loop_induction (λ _ a. a.0 ≡ ready (ok tt)) (λ t. (pending, t)) (transmit_round V)
        (λ t. length t.transmitting) (round_falls V) round_prompt (λ t t' a e h. h) s

  pub poll_flush_prompt : (s : TxLocal V) → (poll_flush V s).0 ≡ ready (ok tt)
  unfolding poll_flush
  poll_flush_prompt s =
      ground (arith, poll_transmit_prompt s, Q.flushes (poll_transmit V s).1.writer)

  poll_flush_in_bg_prompt : (s : TxLocal V) → (poll_flush_in_bg V s).0 ≡ ready (ok tt)
  unfolding poll_flush_in_bg
  poll_flush_in_bg_prompt s = ground (arith, poll_flush_prompt s)

  pub poll_send_prompt : (msg : Sending) (s : TxLocal V) → (poll_send V msg s).0 ≡ ready (ok tt)
  unfolding poll_send
  poll_send_prompt msg s = ground (
    arith,
    poll_flush_in_bg_prompt s,
    poll_flush_in_bg_prompt (push_message V msg (poll_flush_in_bg V s).1),
  )
