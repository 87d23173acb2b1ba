-- ===== src/Io/Tx/Handle/Single.antt =====
-- A send of one message: a poll either leaves it or takes all of its line.
use minimal_vm_tool.Prelude.{
  ◌≡◌, refl, ap, ◌∙◌, sym, subst, Bool, true, false, Option, none, some, List, [], ◌∷◌, ◌++◌,
  append-nil, ◌⊎◌, inl, inr,
}
use minimal_vm_tool.Outcome.{Error, Result, ok, err, Poll, pending, ready, ready_ok}
use minimal_vm_tool.Io.Writer.{Writer, Delivers}
use minimal_vm_tool.Io.Tx.{Sending, TxLocal, poll_flush_in_bg, poll_send, push_message}
use minimal_vm_tool.Io.Tx.Output.{frame, output, output-poll_flush_in_bg, output-push_message}
use minimal_vm_tool.Io.Tx.Handle.{
  Shared, DoSend, shared_send, sent, poll_msgs, finish, poll_do_send,
}
use minimal_vm_tool.Io.Tx.Handle.Delivery.{output_of, shared_flush-Flushes}

-- A poll that is not ready, or is an error.
abbrev pub Unsent : Poll (Result (Unit {0})) → Type 0
Unsent pending = Unit
Unsent (ready (err e)) = Unit
Unsent (ready (ok _)) = ⊥

-- Nothing is left to take.
abbrev pub Taken : Result (List Sending) → Type 0
Taken msgs = (msgs ≡ ok (none ∷ [])) ⊎ (msgs ≡ ok [])

module _ (V : Writer) (D : Delivers V) where
  -- The poll left the message and the output, or took the message into the output.
  abbrev TakesLocal :
      TxLocal V → Sending → Poll (Result (Unit {0})) × (TxLocal V × Sending) → Type 0
  TakesLocal s msg (r, (s', msg')) =
      ((msg' ≡ msg) × (output V D s' ≡ output V D s) × Unsent r)
      ⊎ ((msg' ≡ none) × (output V D s' ≡ output V D s ++ frame msg))

  pushed-TakesLocal :
      (s s₁ : TxLocal V) (msg : Sending) (p : Poll (Result (Unit {0})) × TxLocal V)
      → output V D s₁ ≡ output V D s ++ frame msg
      → output V D p.1 ≡ output V D s₁
      → TakesLocal s msg (ready_ok (p.0, (p.1, none)) (λ _ st. (ready (ok tt), st)))
  pushed-TakesLocal s s₁ msg (pending, t) h e = inr (refl, e ∙ h)
  pushed-TakesLocal s s₁ msg (ready (err x), t) h e = inr (refl, e ∙ h)
  pushed-TakesLocal s s₁ msg (ready (ok _), t) h e = inr (refl, e ∙ h)

  flushed-TakesLocal :
      (s : TxLocal V) (msg : Sending) (p : Poll (Result (Unit {0})) × TxLocal V)
      → output V D p.1 ≡ output V D s
      → TakesLocal s msg (
          ready_ok
            (p.0, (p.1, msg))
            (λ _ _.
              let (r', s₂) = poll_flush_in_bg V (push_message V msg p.1) in
              ready_ok (r', (s₂, none)) (λ _ st. (ready (ok tt), st))))
  flushed-TakesLocal s msg (pending, t) e = inl (refl, e, tt)
  flushed-TakesLocal s msg (ready (err x), t) e = inl (refl, e, tt)
  flushed-TakesLocal s msg (ready (ok _), t) e =
      let t₂ = push_message V msg t in
      pushed-TakesLocal s t₂ msg (poll_flush_in_bg V t₂)
        (output-push_message V D msg t ∙ ap (λ o. o ++ frame msg) e)
        (output-poll_flush_in_bg V D t₂)

  poll_send-TakesLocal : (s : TxLocal V) (msg : Sending) → TakesLocal s msg (poll_send V msg s)
  unfolding poll_send
  poll_send-TakesLocal s msg =
      flushed-TakesLocal s msg (poll_flush_in_bg V s) (output-poll_flush_in_bg V D s)

  abbrev Takes :
      Result (TxLocal V) → Sending → Poll (Result (Unit {0})) × (Shared V × Sending) → Type 0
  Takes l msg (r, (s', msg')) =
      ((msg' ≡ msg) × (output_of V D s'.local ≡ output_of V D l) × Unsent r)
      ⊎ ((msg' ≡ none) × (output_of V D s'.local ≡ output_of V D l ++ frame msg))

  shared_send-Takes :
      (b : Bool) (l : Result (TxLocal V)) (msg : Sending)
      → Takes l msg (shared_send V msg (record { broken = b; local = l }))
  unfolding shared_send
  shared_send-Takes true l msg = inl (refl, refl, tt)
  shared_send-Takes false (ok tx) msg = poll_send-TakesLocal tx msg
  shared_send-Takes false (err e) msg = inl (refl, refl, tt)

  -- What a poll of a send of one message leaves. A panic leaves nothing that satisfies this.
  abbrev pub TakesOne :
      Shared V → Sending → Option (Poll (Result (Unit {0})) × (Shared V × DoSend)) → Type 0
  TakesOne s msg none = ⊥
  TakesOne s msg (some (r, (s', d'))) =
      ((d'.msgs ≡ ok (msg ∷ [])) × (output_of V D s'.local ≡ output_of V D s.local) × Unsent r)
      ⊎ (Taken d'.msgs × (output_of V D s'.local ≡ output_of V D s.local ++ frame msg))

  -- A poll of such a send, at what `poll_send` returned.
  abbrev one_poll :
      Bool
      → Poll (Result (Unit {0})) × (Shared V × Sending)
      → Option (Poll (Result (Unit {0})) × (Shared V × DoSend))
  one_poll flush p = elim (sent V [] (poll_msgs V []) p) [
    | none ↦ none
    | some polled ↦
        let (r, (s', msgs')) = finish V flush polled in
        some (r, (s', record { msgs = ok msgs'; flush = flush }))
  ]

  one_poll-TakesOne :
      (s : Shared V) (flush : Bool) (msg : Sending)
      (p : Poll (Result (Unit {0})) × (Shared V × Sending))
      → Takes s.local msg p
      → TakesOne s msg (one_poll flush p)
  unfolding finish poll_msgs sent
  one_poll-TakesOne s true msg (pending, (t, m)) (inl (a, b, c)) =
      inl (ap (λ x. ok (x ∷ [])) a, b, tt)
  one_poll-TakesOne s false msg (pending, (t, m)) (inl (a, b, c)) =
      inl (ap (λ x. ok (x ∷ [])) a, b, tt)
  one_poll-TakesOne s true msg (ready (err x), (t, m)) (inl (a, b, c)) =
      inl (ap (λ x. ok (x ∷ [])) a, b, tt)
  one_poll-TakesOne s false msg (ready (err x), (t, m)) (inl (a, b, c)) =
      inl (ap (λ x. ok (x ∷ [])) a, b, tt)
  one_poll-TakesOne s flush msg (ready (ok _), (t, m)) (inl (a, b, c)) = absurd c
  one_poll-TakesOne s true msg (pending, (t, m)) (inr (a, b)) =
      inr (inl (ap (λ x. ok (x ∷ [])) a), b)
  one_poll-TakesOne s false msg (pending, (t, m)) (inr (a, b)) =
      inr (inl (ap (λ x. ok (x ∷ [])) a), b)
  one_poll-TakesOne s true msg (ready (err x), (t, m)) (inr (a, b)) =
      inr (inl (ap (λ x. ok (x ∷ [])) a), b)
  one_poll-TakesOne s false msg (ready (err x), (t, m)) (inr (a, b)) =
      inr (inl (ap (λ x. ok (x ∷ [])) a), b)
  one_poll-TakesOne s true msg (ready (ok _), (t, none)) (inr (a, b)) =
      inr (inr refl, (shared_flush-Flushes V D t).0 ∙ b)
  one_poll-TakesOne s false msg (ready (ok _), (t, none)) (inr (a, b)) = inr (inr refl, b)
  one_poll-TakesOne s flush msg (ready (ok _), (t, some m)) (inr (a, b)) = absurd (cc a)

  pub poll_do_send-TakesOne :
      (s : Shared V) (d : DoSend) (msg : Sending)
      → d.msgs ≡ ok (msg ∷ [])
      → TakesOne s msg (poll_do_send V d s)
  unfolding poll_do_send poll_msgs
  poll_do_send-TakesOne s d msg e =
      subst (λ m. TakesOne s msg (poll_do_send V (record { msgs = m; flush = d.flush }) s)) (sym e)
        (one_poll-TakesOne s d.flush msg (shared_send V msg s)
          (shared_send-Takes s.broken s.local msg))

  -- A poll of a send that has nothing left to take: it may have to flush.
  abbrev pub Rests : Shared V → Option (Poll (Result (Unit {0})) × (Shared V × DoSend)) → Type 0
  Rests s none = ⊥
  Rests s (some (r, (s', d'))) = Taken d'.msgs × (output_of V D s'.local ≡ output_of V D s.local)

  Rests-of_TakesOne :
      (s : Shared V) (o : Option (Poll (Result (Unit {0})) × (Shared V × DoSend)))
      → TakesOne s none o
      → Rests s o
  Rests-of_TakesOne s none h = h
  Rests-of_TakesOne s (some (r, (t, d))) (inl (a, b, c)) = (inl a, b)
  Rests-of_TakesOne s (some (r, (t, d))) (inr (a, b)) = (a, b ∙ append-nil (output_of V D s.local))

  poll_nothing :
      (flush : Bool) (s : Shared V)
      → Rests s (poll_do_send V (record { msgs = ok []; flush = flush }) s)
  unfolding poll_do_send poll_msgs finish
  poll_nothing true s = (inr refl, (shared_flush-Flushes V D s).0)
  poll_nothing false s = (inr refl, refl)

  pub poll_do_send-Rests : (s : Shared V) (d : DoSend) → Taken d.msgs → Rests s (poll_do_send V d s)
  poll_do_send-Rests s d (inl e) =
      Rests-of_TakesOne s (poll_do_send V d s) (poll_do_send-TakesOne s d none e)
  poll_do_send-Rests s d (inr e) =
      subst (λ m. Rests s (poll_do_send V (record { msgs = m; flush = d.flush }) s)) (sym e)
        (poll_nothing d.flush s)

  -- A send whose messages could not be prepared fails.
  pub poll_do_send-err :
      (s : Shared V) (d : DoSend) (e : Error)
      → d.msgs ≡ err e
      → poll_do_send V d s ≡ some (ready (err e), (s, d))
  unfolding poll_do_send
  poll_do_send-err s d e h = rw h refl
