-- ===== src/Io/Tx/Handle/Shuts.antt =====
-- On a connection that takes what it is given, `Tx::close` finishes at its first poll.
use minimal_vm_tool.Prelude.{
  ℕ, suc, zero, ◌≡◌, subst, Bool-cases, inl, inr, is_empty, length, loop_induction, done,
}
use minimal_vm_tool.Outcome.{Result, ok, err, Poll, pending, ready}
use minimal_vm_tool.Io.Writer.{Writer}
use minimal_vm_tool.Io.Tx.{TxLocal, poll_flush}
use minimal_vm_tool.Io.Tx.Prompt.{Prompt, poll_flush_prompt}
use minimal_vm_tool.Io.Tx.Handle.{
  shared_flush, Closing, draining, shutting, drained, drain_round, drain, shut, shutdown,
  poll_close, flushing, take_local, flushed, poll_close_tx,
}
use minimal_vm_tool.Io.Tx.Handle.Closed.{drain_falls}
use minimal_vm_tool.Io.Tx.Handle.Progress.{open_tx}

module _ (V : Writer) (Q : Prompt V)
    (shuts : (w : V.Conn) → (V.poll_shutdown w).0 ≡ ready (ok tt)) where
  abbrev IsShutting : Closing V → Type 0
  IsShutting (draining s) = ⊥
  IsShutting (shutting s) = Unit

  drained-IsShutting :
      (s : TxLocal V) (n : ℕ) (p : Poll (Result ℕ) × V.Conn) (c : Closing V)
      → p.0 ≡ ready (ok (suc n))
      → drained V s p ≡ done c
      → IsShutting c
  unfolding drained
  drained-IsShutting s n (pending, w) c e h = absurd (cc e)
  drained-IsShutting s n (ready (err x), w) c e h = absurd (cc e)
  drained-IsShutting s n (ready (ok zero), w) c e h = absurd (cc e)
  drained-IsShutting s n (ready (ok (suc m)), w) c e h = absurd (cc h)

  round-IsShutting : (s : TxLocal V) (c : Closing V) → drain_round V s ≡ done c → IsShutting c
  unfolding drain_round
  round-IsShutting s c e = elim (Bool-cases (is_empty s.transmitting)) [
    | inl h ↦ let same : shutting s ≡ c = cc (rw h at e) in subst IsShutting same tt
    | inr h ↦
        drained-IsShutting s (Q.taken s.writer s.transmitting)
          (V.poll_write s.writer s.transmitting) c (Q.takes s.writer s.transmitting h) (rw h at e)
  ]

  drain-IsShutting : (s : TxLocal V) → IsShutting (drain V s)
  unfolding drain
  drain-IsShutting s =
      loop_induction (λ _ c. IsShutting c) draining (drain_round V) (λ t. length t.transmitting)
        (drain_falls V) round-IsShutting (λ t t' c e h. h) s

  -- A poll that is ready with the writer.
  abbrev pub Returns : Poll (Result V.Conn) → Type 0
  Returns (ready (ok w)) = Unit
  Returns (ready (err e)) = ⊥
  Returns pending = ⊥

  shut-Returns :
      (s : TxLocal V) (p : Poll (Result (Unit {0})) × V.Conn)
      → p.0 ≡ ready (ok tt)
      → Returns (shut V s p).0
  unfolding shut
  shut-Returns s (pending, w) e = absurd (cc e)
  shut-Returns s (ready (err x), w) e = absurd (cc e)
  shut-Returns s (ready (ok _), w) e = tt

  shutdown-Returns : (c : Closing V) → IsShutting c → Returns (shutdown V c).0
  unfolding shutdown
  shutdown-Returns (draining s) h = absurd h
  shutdown-Returns (shutting s) h = shut-Returns s (V.poll_shutdown s.writer) (shuts s.writer)

  flushed-Returns :
      (p : Poll (Result (Unit {0}))) (s : TxLocal V)
      → p ≡ ready (ok tt)
      → Returns (flushed V (p, open_tx V s)).0
  unfolding flushed take_local poll_close
  flushed-Returns pending s e = absurd (cc e)
  flushed-Returns (ready (err x)) s e = absurd (cc e)
  flushed-Returns (ready (ok _)) s e = shutdown-Returns (drain V s) (drain-IsShutting s)

  pub poll_close_tx-Returns : (s : TxLocal V) → Returns (poll_close_tx V flushing (open_tx V s)).0
  unfolding poll_close_tx shared_flush
  poll_close_tx-Returns s =
      flushed-Returns (poll_flush V s).0 (poll_flush V s).1 (poll_flush_prompt V Q s)
