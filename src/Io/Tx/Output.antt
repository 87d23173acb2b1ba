-- ===== src/Io/Tx/Output.antt =====
-- What a `TxLocal` puts on the connection: every byte once and in order.
use minimal_vm_tool.Prelude.{
  ℕ, zero, suc, ◌<◌, ◌≡◌, refl, ap, ◌∙◌, sym, false, none, some, [], ◌∷◌, ◌++◌, append-nil,
  append_assoc, length, is_empty, take, drop, length-drop, take-append-drop, arith, Bytes, newline,
  nil_of_is_empty, again, done, loop_induction, Bool-cases, ◌⊎◌, inl, inr,
}
use minimal_vm_tool.Outcome.{Result, ok, err, Poll, pending, ready, ready_ok}
use minimal_vm_tool.Io.Writer.{Writer, Delivers, accepted}
use minimal_vm_tool.Io.Tx.{
  Sending, pushback, TxLocal, wrote, transmit_round, poll_transmit, poll_flush, in_bg,
  poll_flush_in_bg, push_message, poll_send,
}

-- The line of a message on the wire, if it has not been taken yet.
abbrev pub frame : Sending → Bytes
frame none = []
frame (some m) = m ++ newline ∷ []

module _ (V : Writer) where
  wrote_falls :
      (s s' : TxLocal V) (p : Poll (Result ℕ) × V.Conn)
      → is_empty s.transmitting ≡ false
      → wrote V s p ≡ again s'
      → length s'.transmitting < length s.transmitting
  unfolding wrote
  wrote_falls s s' (pending, w) h e = cc
  wrote_falls s s' (ready (err x), w) h e = cc
  wrote_falls s s' (ready (ok zero), w) h e = cc
  wrote_falls s s' (ready (ok (suc n)), w) h e = ground (arith, length-drop (suc n) s.transmitting)

  pub round_falls :
      (s s' : TxLocal V)
      → transmit_round V s ≡ again s'
      → length s'.transmitting < length s.transmitting
  unfolding transmit_round
  round_falls s s' e = elim (Bool-cases (is_empty s.transmitting)) [
    | inl h ↦ cc (rw h at e)
    | inr h ↦ wrote_falls s s' (V.poll_write s.writer s.transmitting) h (rw h at e)
  ]

module _ (V : Writer) (D : Delivers V) where
  -- All that was sent so far: what the connection took, and what is still to go.
  abbrev pub output : TxLocal V → Bytes
  output s = D.delivered s.writer ++ s.transmitting

  -- A poll that neither loses nor adds output, and leaves nothing behind where it succeeds.
  abbrev pub Transmits : TxLocal V → Poll (Result (Unit {0})) × TxLocal V → Type 0
  Transmits s (r, s') = (output s' ≡ output s) × (r ≡ ready (ok tt) → s'.transmitting ≡ [])

  output-wrote :
      (s : TxLocal V) (n : ℕ) (w : V.Conn)
      → D.delivered w ≡ D.delivered s.writer ++ take n s.transmitting
      → D.delivered w ++ drop n s.transmitting ≡ output s
  output-wrote s n w e = rw e (
      append_assoc (D.delivered s.writer) (take n s.transmitting) (drop n s.transmitting)
      ∙ ap (◌++◌ (D.delivered s.writer)) (take-append-drop n s.transmitting))

  wrote_returns :
      (s : TxLocal V) (p : Poll (Result ℕ) × V.Conn) (a : Poll (Result (Unit {0})) × TxLocal V)
      → D.delivered p.1 ≡ D.delivered s.writer ++ take (accepted p.0) s.transmitting
      → wrote V s p ≡ done a
      → Transmits s a
  unfolding wrote
  wrote_returns s (pending, w) a d e = ground (arith, append-nil (D.delivered s.writer))
  wrote_returns s (ready (err x), w) a d e = ground (arith, append-nil (D.delivered s.writer))
  wrote_returns s (ready (ok zero), w) a d e = ground (arith, append-nil (D.delivered s.writer))
  wrote_returns s (ready (ok (suc n)), w) a d e = cc

  wrote_continues :
      (s s' : TxLocal V) (p : Poll (Result ℕ) × V.Conn)
      → D.delivered p.1 ≡ D.delivered s.writer ++ take (accepted p.0) s.transmitting
      → wrote V s p ≡ again s'
      → output s' ≡ output s
  unfolding wrote
  wrote_continues s s' (pending, w) d e = cc
  wrote_continues s s' (ready (err x), w) d e = cc
  wrote_continues s s' (ready (ok zero), w) d e = cc
  wrote_continues s s' (ready (ok (suc n)), w) d e = ground (arith, output-wrote s (suc n) w d)

  round_returns :
      (s : TxLocal V) (a : Poll (Result (Unit {0})) × TxLocal V)
      → transmit_round V s ≡ done a
      → Transmits s a
  unfolding transmit_round
  round_returns s a e = elim (Bool-cases (is_empty s.transmitting)) [
    | inl h ↦ ground (arith, nil_of_is_empty s.transmitting h)
    | inr h ↦
        wrote_returns s (V.poll_write s.writer s.transmitting) a
          (D.delivered-write s.writer s.transmitting) (rw h at e)
  ]

  round_continues : (s s' : TxLocal V) → transmit_round V s ≡ again s' → output s' ≡ output s
  unfolding transmit_round
  round_continues s s' e = elim (Bool-cases (is_empty s.transmitting)) [
    | inl h ↦ cc (rw h at e)
    | inr h ↦
        wrote_continues s s' (V.poll_write s.writer s.transmitting)
          (D.delivered-write s.writer s.transmitting) (rw h at e)
  ]

  pub poll_transmit-Transmits : (s : TxLocal V) → Transmits s (poll_transmit V s)
  unfolding poll_transmit
  poll_transmit-Transmits s =
      loop_induction Transmits (λ t. (pending, t)) (transmit_round V) (λ t. length t.transmitting)
        (round_falls V) round_returns (λ t t' a e p. (p.0 ∙ round_continues t t' e, p.1)) s

  pub poll_flush-Transmits : (s : TxLocal V) → Transmits s (poll_flush V s)
  unfolding poll_flush
  poll_flush-Transmits s =
      ground (arith, poll_transmit-Transmits s, D.delivered-flush (poll_transmit V s).1.writer)

  pub output-poll_flush_in_bg : (s : TxLocal V) → output (poll_flush_in_bg V s).1 ≡ output s
  unfolding poll_flush_in_bg
  output-poll_flush_in_bg s = (poll_flush-Transmits s).0

  in_bg-ok :
      (r : Poll (Result (Unit {0}))) (n : ℕ)
      → in_bg V r n ≡ ready (ok tt)
      → (r ≡ ready (ok tt)) ⊎ (n < pushback)
  unfolding in_bg
  in_bg-ok pending n e = ground arith
  in_bg-ok (ready (ok _)) n e = inl refl
  in_bg-ok (ready (err x)) n e = cc

  -- A background flush that is ready has left less than the limit.
  pub transmitting-lt :
      (s : TxLocal V)
      → (poll_flush_in_bg V s).0 ≡ ready (ok tt)
      → length (poll_flush_in_bg V s).1.transmitting < pushback
  unfolding poll_flush_in_bg
  transmitting-lt s e = ground (
    arith,
    in_bg-ok (poll_flush V s).0 (length (poll_flush V s).1.transmitting) e,
    poll_flush-Transmits s,
  )

  pub output-push_message :
      (msg : Sending) (s : TxLocal V) → output (push_message V msg s) ≡ output s ++ frame msg
  unfolding push_message
  output-push_message none s = sym (append-nil (output s))
  output-push_message (some m) s = simp append_assoc

  -- What a poll of a send leaves. Where it succeeds, the message has been taken, its line follows
  -- the output, and less than the pushback limit is buffered; else the line is in the output or
  -- still to be taken.
  abbrev pub Sends : TxLocal V → Sending → Poll (Result (Unit {0})) × (TxLocal V × Sending) → Type 0
  Sends s msg (ready (ok _), (s', msg')) =
      (output s' ≡ output s ++ frame msg) × (msg' ≡ none) × (length s'.transmitting < pushback)
  Sends s msg (pending, (s', msg')) = output s' ++ frame msg' ≡ output s ++ frame msg
  Sends s msg (ready (err e), (s', msg')) = output s' ++ frame msg' ≡ output s ++ frame msg

  -- the second flush of a send, after its message has been pushed
  pushed-Sends :
      (s s₁ : TxLocal V) (msg : Sending) (p : Poll (Result (Unit {0})) × TxLocal V)
      → output s₁ ≡ output s ++ frame msg
      → output p.1 ≡ output s₁
      → (p.0 ≡ ready (ok tt) → length p.1.transmitting < pushback)
      → Sends s msg (ready_ok (p.0, (p.1, none)) (λ _ st. (ready (ok tt), st)))
  pushed-Sends s s₁ msg (pending, t) e h l = append-nil (output t) ∙ h ∙ e
  pushed-Sends s s₁ msg (ready (err x), t) e h l = append-nil (output t) ∙ h ∙ e
  pushed-Sends s s₁ msg (ready (ok _), t) e h l = (h ∙ e, refl, l refl)

  flushed-Sends :
      (s : TxLocal V) (msg : Sending) (p : Poll (Result (Unit {0})) × TxLocal V)
      → output p.1 ≡ output s
      → Sends s msg (
          ready_ok
            (p.0, (p.1, msg))
            (λ _ _.
              let (r', s₂) = poll_flush_in_bg V (push_message V msg p.1) in
              ready_ok (r', (s₂, none)) (λ _ st. (ready (ok tt), st))))
  flushed-Sends s msg (pending, t) e = ap (λ o. o ++ frame msg) e
  flushed-Sends s msg (ready (err x), t) e = ap (λ o. o ++ frame msg) e
  flushed-Sends s msg (ready (ok _), t) e =
      let t₂ = push_message V msg t in
      pushed-Sends s t₂ msg (poll_flush_in_bg V t₂)
        (output-push_message msg t ∙ ap (λ o. o ++ frame msg) e) (output-poll_flush_in_bg t₂)
        (transmitting-lt t₂)

  -- A poll of a send loses no byte and sends none twice, whatever the connection does. Where it
  -- succeeds, the message is taken, its line follows the earlier output, and less than the pushback
  -- limit stays buffered.
  pub poll_send-Sends : (s : TxLocal V) (msg : Sending) → Sends s msg (poll_send V msg s)
  unfolding poll_send
  poll_send-Sends s msg = flushed-Sends s msg (poll_flush_in_bg V s) (output-poll_flush_in_bg s)

  Sends-parts :
      (s : TxLocal V) (msg : Sending) (p : Poll (Result (Unit {0})) × (TxLocal V × Sending))
      → Sends s msg p
      → (output p.1.0 ++ frame p.1.1 ≡ output s ++ frame msg) × (p.0 ≡ ready (ok tt) → p.1.1 ≡ none)
  Sends-parts s msg (pending, (t, m)) h = (h, λ e. cc)
  Sends-parts s msg (ready (err x), (t, m)) h = (h, λ e. cc)
  Sends-parts s msg (ready (ok _), (t, m)) h =
      (ap (λ f. output t ++ frame f) h.1 ∙ append-nil (output t) ∙ h.0, λ e. h.1)

  pub poll_send_lem :
      (s : TxLocal V) (msg : Sending)
      → let (r, (s', msg')) = poll_send V msg s in
        (output s' ++ frame msg' ≡ output s ++ frame msg) × (r ≡ ready (ok tt) → msg' ≡ none)
  poll_send_lem s msg = Sends-parts s msg (poll_send V msg s) (poll_send-Sends s msg)
