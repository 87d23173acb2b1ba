-- ===== src/Io/Tx/Handle/Closed.antt =====
-- `Tx::close`: what it delivers, and what is left of the handle.
use minimal_vm_tool.Prelude.{
  ℕ, zero, suc, ◌<◌, ◌≡◌, refl, ◌∙◌, sym, Bool, true, false, [], ◌++◌, append-nil, append_assoc,
  arith, Bytes, Bool-cases, inl, inr, is_empty, length, length-drop, drop, take, loop_lem,
  loop_induction, again, done, take-append-drop,
}
use mathlib.Core.List.{append_cancel_left}
use minimal_vm_tool.Outcome.{Result, ok, err, Poll, pending, ready}
use minimal_vm_tool.Io.Writer.{Writer, Delivers, accepted}
use minimal_vm_tool.Io.Tx.{TxLocal}
use minimal_vm_tool.Io.Tx.Output.{output}
use minimal_vm_tool.Io.Tx.Handle.{
  Shared, shared_flush, was_closed, Closing, draining, shutting, drained, drain_round, drain, shut,
  shutdown, poll_close, CloseState, flushing, closing, take_local, flushed, poll_close_tx,
}
use minimal_vm_tool.Io.Tx.Handle.Delivery.{output_of, delivered_of, shared_flush-Flushes}

abbrev pub local_of : {V : Writer} → Closing V → TxLocal V
local_of (draining s) = s
local_of (shutting s) = s

module _ (V : Writer) where
  drained_falls :
      (s s' : TxLocal V) (p : Poll (Result ℕ) × V.Conn)
      → is_empty s.transmitting ≡ false
      → drained V s p ≡ again s'
      → length s'.transmitting < length s.transmitting
  unfolding drained
  drained_falls s s' (pending, w) h e = cc
  drained_falls s s' (ready (err x), w) h e = cc
  drained_falls s s' (ready (ok zero), w) h e = cc
  drained_falls s s' (ready (ok (suc n)), w) h e =
      ground (arith, length-drop (suc n) s.transmitting)

  pub drain_falls :
      (s s' : TxLocal V)
      → drain_round V s ≡ again s'
      → length s'.transmitting < length s.transmitting
  unfolding drain_round
  drain_falls s s' e = elim (Bool-cases (is_empty s.transmitting)) [
    | inl h ↦ cc (rw h at e)
    | inr h ↦ drained_falls s s' (V.poll_write s.writer s.transmitting) h (rw h at e)
  ]

  -- Nothing is drained where nothing is buffered.
  drain-nil : (s : TxLocal V) → s.transmitting ≡ [] → drain V s ≡ shutting s
  unfolding drain drain_round
  drain-nil s e =
      loop_lem draining (drain_round V) (λ t. length t.transmitting) drain_falls s ∙ ground arith

module _ (V : Writer) (D : Delivers V) where
  kept :
      (s : TxLocal V) (p : Poll (Result ℕ) × V.Conn) (c : Closing V)
      → D.delivered p.1 ≡ D.delivered s.writer ++ take (accepted p.0) s.transmitting
      → drained V s p ≡ done c
      → output V D (local_of c) ≡ output V D s
  unfolding drained
  kept s (pending, w) c d e = ground (arith, append-nil (D.delivered s.writer))
  kept s (ready (err x), w) c d e = ground (arith, append-nil (D.delivered s.writer))
  kept s (ready (ok zero), w) c d e = ground (arith, append-nil (D.delivered s.writer))
  kept s (ready (ok (suc n)), w) c d e = cc

  goes_on :
      (s s' : TxLocal V) (p : Poll (Result ℕ) × V.Conn)
      → D.delivered p.1 ≡ D.delivered s.writer ++ take (accepted p.0) s.transmitting
      → drained V s p ≡ again s'
      → output V D s' ≡ output V D s
  unfolding drained
  goes_on s s' (pending, w) d e = cc
  goes_on s s' (ready (err x), w) d e = cc
  goes_on s s' (ready (ok zero), w) d e = cc
  goes_on s s' (ready (ok (suc n)), w) d e = ground (
    arith,
    append_assoc (D.delivered s.writer) (take (suc n) s.transmitting) (drop (suc n) s.transmitting),
    take-append-drop (suc n) s.transmitting,
  )

  round_keeps :
      (s : TxLocal V) (c : Closing V)
      → drain_round V s ≡ done c
      → output V D (local_of c) ≡ output V D s
  unfolding drain_round
  round_keeps s c e = elim (Bool-cases (is_empty s.transmitting)) [
    | inl h ↦ ground arith
    | inr h ↦
        kept s (V.poll_write s.writer s.transmitting) c (D.delivered-write s.writer s.transmitting)
          (rw h at e)
  ]

  round_goes_on : (s s' : TxLocal V) → drain_round V s ≡ again s' → output V D s' ≡ output V D s
  unfolding drain_round
  round_goes_on s s' e = elim (Bool-cases (is_empty s.transmitting)) [
    | inl h ↦ cc (rw h at e)
    | inr h ↦
        goes_on s s' (V.poll_write s.writer s.transmitting)
          (D.delivered-write s.writer s.transmitting) (rw h at e)
  ]

  output-drain : (s : TxLocal V) → output V D (local_of (drain V s)) ≡ output V D s
  unfolding drain
  output-drain s =
      loop_induction (λ t c. output V D (local_of c) ≡ output V D t) draining (drain_round V)
        (λ t. length t.transmitting) (drain_falls V) round_keeps
        (λ t t' c e h. h ∙ round_goes_on t t' e) s

  abbrev Shuts : TxLocal V → Poll (Result V.Conn) × Closing V → Type 0
  Shuts s (r, c) =
      (output V D (local_of c) ≡ output V D s)
      × ((local_of c).transmitting ≡ s.transmitting)
      × ((w : V.Conn) → r ≡ ready (ok w) → w ≡ (local_of c).writer)

  shut-Shuts :
      (s : TxLocal V) (p : Poll (Result (Unit {0})) × V.Conn)
      → D.delivered p.1 ≡ D.delivered s.writer
      → Shuts s (shut V s p)
  unfolding shut
  shut-Shuts s (pending, w) d = ground arith
  shut-Shuts s (ready (err x), w) d = ground arith
  shut-Shuts s (ready (ok _), w) d = ground arith

  shutdown-Shuts : (c : Closing V) → Shuts (local_of c) (shutdown V c)
  unfolding shutdown
  shutdown-Shuts (draining s) = ground arith
  shutdown-Shuts (shutting s) =
      shut-Shuts s (V.poll_shutdown s.writer) (D.delivered-shutdown s.writer)

  -- Polling the close of a `TxLocal` keeps its output.
  pub output-poll_close :
      (c : Closing V) → output V D (local_of (poll_close V c).1) ≡ output V D (local_of c)
  unfolding poll_close
  output-poll_close (draining s) = (shutdown-Shuts (drain V s)).0 ∙ output-drain s
  output-poll_close (shutting s) = (shutdown-Shuts (shutting s)).0

  -- The states of a close that has flushed.
  abbrev Clean : Bytes → Closing V → Type 0
  Clean sent c = (output V D (local_of c) ≡ sent) × ((local_of c).transmitting ≡ [])

  -- What a poll makes of such a state: it stays so, and a writer that is returned has all.
  abbrev Cleans : Bytes → Poll (Result V.Conn) × Closing V → Type 0
  Cleans sent (r, c) = Clean sent c × ((w : V.Conn) → r ≡ ready (ok w) → D.delivered w ≡ sent)

  shutdown-Cleans : (sent : Bytes) (c : Closing V) → Clean sent c → Cleans sent (shutdown V c)
  shutdown-Cleans sent c h =
      let p = shutdown-Shuts c in
      let e = p.0 ∙ h.0 in
      let n = p.1 ∙ h.1 in ((e, n), λ w r. ground (arith, p.2 w r, append-nil (D.delivered w)))

  poll_close-Cleans : (sent : Bytes) (c : Closing V) → Clean sent c → Cleans sent (poll_close V c)
  unfolding poll_close
  poll_close-Cleans sent (draining s) h =
      rw (drain-nil V s h.1) (shutdown-Cleans sent (shutting s) h)
  poll_close-Cleans sent (shutting s) h = shutdown-Cleans sent (shutting s) h

  -- The states of `Tx::close` from which the bytes `sent` are still to be delivered.
  abbrev pub Closes : Bytes → CloseState V → Shared V → Type 0
  Closes sent flushing s = output_of V D s.local ≡ sent
  Closes sent (closing c) s = Clean sent c × (s.local ≡ err was_closed)

  -- What a poll of it may come to.
  abbrev pub ClosePoll : Bytes → Poll (Result V.Conn) × (CloseState V × Shared V) → Type 0
  ClosePoll sent (pending, (c, s)) = Closes sent c s
  ClosePoll sent (ready (ok w), (c, s)) = (D.delivered w ≡ sent) × (s.local ≡ err was_closed)
  ClosePoll sent (ready (err e), (c, s)) = Unit

  closing-ClosePoll :
      (sent : Bytes) (s : Shared V) (p : Poll (Result V.Conn) × Closing V)
      → Cleans sent p
      → s.local ≡ err was_closed
      → ClosePoll sent (p.0, (closing p.1, s))
  closing-ClosePoll sent s (pending, c) h e = (h.0, e)
  closing-ClosePoll sent s (ready (ok w), c) h e = (h.1 w refl, e)
  closing-ClosePoll sent s (ready (err x), c) h e = tt

  take_local-ClosePoll :
      (b : Bool) (l : Result (TxLocal V)) (sent : Bytes)
      → output_of V D l ≡ sent
      → delivered_of V D l ≡ sent
      → ClosePoll sent (take_local V (record { broken = b; local = l }))
  unfolding take_local
  take_local-ClosePoll b (ok tx) sent e d =
      closing-ClosePoll sent (record { broken = b; local = err was_closed })
        (poll_close V (draining tx))
        (poll_close-Cleans sent (draining tx) (
          e,
          append_cancel_left (D.delivered tx.writer) tx.transmitting []
              (e ∙ sym d ∙ sym (append-nil (D.delivered tx.writer))),
        ))
        refl
  take_local-ClosePoll b (err x) sent e d = tt

  flushed_at :
      (sent : Bytes) (p : Poll (Result (Unit {0}))) (b : Bool) (l : Result (TxLocal V))
      → output_of V D l ≡ sent
      → (p ≡ ready (ok tt) → delivered_of V D l ≡ sent)
      → ClosePoll sent (flushed V (p, record { broken = b; local = l }))
  unfolding flushed
  flushed_at sent pending b l e d = e
  flushed_at sent (ready (err x)) b l e d = tt
  flushed_at sent (ready (ok _)) true l e d = tt
  flushed_at sent (ready (ok _)) false l e d = take_local-ClosePoll false l sent e (d refl)

  -- A poll of close, from a state in which given bytes are still to be delivered, waits in such a
  -- state again, fails, or returns the writer with exactly these bytes delivered and leaves the
  -- handle closed.
  pub poll_close_tx-ClosePoll :
      (sent : Bytes) (c : CloseState V) (s : Shared V)
      → Closes sent c s
      → ClosePoll sent (poll_close_tx V c s)
  unfolding poll_close_tx
  poll_close_tx-ClosePoll sent flushing s e =
      let p = shared_flush-Flushes V D s in
      flushed_at sent (shared_flush V s).0 (shared_flush V s).1.broken (shared_flush V s).1.local
        (p.0 ∙ e) (λ r. p.1 r ∙ e)
  poll_close_tx-ClosePoll sent (closing c) s e =
      closing-ClosePoll sent s (poll_close V c) (poll_close-Cleans sent c e.0) e.1
