-- ===== src/Io/Tx/Handle/Delivery.antt =====
-- `DoSend::poll` and its repeated polls: what a send puts on the connection.
use minimal_vm_tool.Prelude.{
  ℕ, zero, suc, ◌≡◌, refl, ap, ◌∙◌, sym, Bool, true, false, Option, none, some, List, [], ◌∷◌, ◌++◌,
  append-nil, append_assoc, arith, Bytes,
}
use minimal_vm_tool.Outcome.{Result, ok, err, Poll, pending, ready}
use minimal_vm_tool.Io.Writer.{Writer, Delivers}
use minimal_vm_tool.Io.Tx.{Sending, TxLocal, poll_flush}
use minimal_vm_tool.Io.Tx.Output.{frame, output, poll_flush-Transmits, poll_send_lem}
use minimal_vm_tool.Io.Tx.Handle.{
  Shared, DoSend, shared_flush, shared_send, sent, poll_msgs, poll_do_send, Awaited, waiting,
  finished, panicked, polled, await_send,
}

-- The lines of messages that are still to be taken.
abbrev pub frames : List Sending → Bytes
frames [] = []
frames (m ∷ ms) = frame m ++ frames ms

abbrev pub frames_of : Result (List Sending) → Bytes
frames_of (ok msgs) = frames msgs
frames_of (err e) = []

module _ (V : Writer) (D : Delivers V) where
  abbrev pub output_of : Result (TxLocal V) → Bytes
  output_of (ok tx) = output V D tx
  output_of (err e) = []

  abbrev pub delivered_of : Result (TxLocal V) → Bytes
  delivered_of (ok tx) = D.delivered tx.writer
  delivered_of (err e) = []

  -- A poll that keeps the output, and has it all on the connection where it succeeds.
  abbrev pub Flushes : Result (TxLocal V) → Poll (Result (Unit {0})) × Shared V → Type 0
  Flushes l (r, s') =
      (output_of s'.local ≡ output_of l) × (r ≡ ready (ok tt) → delivered_of s'.local ≡ output_of l)

  flush_at :
      (b : Bool) (l : Result (TxLocal V))
      → Flushes l (shared_flush V (record { broken = b; local = l }))
  unfolding shared_flush
  flush_at true l = ground arith
  flush_at false (ok tx) =
      ground
        (arith, poll_flush-Transmits V D tx, append-nil (D.delivered (poll_flush V tx).1.writer))
  flush_at false (err e) = ground arith

  pub shared_flush-Flushes : (s : Shared V) → Flushes s.local (shared_flush V s)
  shared_flush-Flushes s = flush_at s.broken s.local

  abbrev Sends :
      Result (TxLocal V) → Sending → Poll (Result (Unit {0})) × (Shared V × Sending) → Type 0
  Sends l msg (r, (s', msg')) =
      (output_of s'.local ++ frame msg' ≡ output_of l ++ frame msg)
      × (r ≡ ready (ok tt) → msg' ≡ none)

  send_at :
      (b : Bool) (l : Result (TxLocal V)) (msg : Sending)
      → Sends l msg (shared_send V msg (record { broken = b; local = l }))
  unfolding shared_send
  send_at true l msg = ground arith
  send_at false (ok tx) msg = ground (arith, poll_send_lem V D tx msg)
  send_at false (err e) msg = ground arith

  -- What a poll leaves of the messages `msgs`: none lost, none twice, and none left where it
  -- succeeds. A panic leaves nothing that satisfies this.
  abbrev SendsAll :
      Shared V
      → List Sending
      → Option (Poll (Result (Unit {0})) × (Shared V × List Sending))
      → Type 0
  SendsAll s msgs none = ⊥
  SendsAll s msgs (some (r, (s', msgs'))) =
      (output_of s'.local ++ frames msgs' ≡ output_of s.local ++ frames msgs)
      × (r ≡ ready (ok tt) → frames msgs' ≡ [])

  regroup : (a b x y z : Bytes) → a ++ x ≡ b ++ y → a ++ (x ++ z) ≡ b ++ (y ++ z)
  regroup a b x y z e = sym (append_assoc a x z) ∙ ap (λ t. t ++ z) e ∙ append_assoc b y z

  SendsAll-carry :
      (s s' : Shared V) (msg : Sending) (msgs : List Sending)
      (o : Option (Poll (Result (Unit {0})) × (Shared V × List Sending)))
      → output_of s'.local ≡ output_of s.local ++ frame msg
      → SendsAll s' msgs o
      → SendsAll s (msg ∷ msgs) o
  SendsAll-carry s s' msg msgs none e h = h
  SendsAll-carry s s' msg msgs (some (r, (t, left))) e h = (
    h.0 ∙ ap (λ x. x ++ frames msgs) e ∙ append_assoc (output_of s.local) (frame msg) (frames msgs),
    h.1,
  )

  sent-SendsAll :
      (s : Shared V) (msg : Sending) (msgs : List Sending)
      (rest : Shared V → Option (Poll (Result (Unit {0})) × (Shared V × List Sending)))
      (p : Poll (Result (Unit {0})) × (Shared V × Sending))
      → Sends s.local msg p
      → ((t : Shared V) → SendsAll t msgs (rest t))
      → SendsAll s (msg ∷ msgs) (sent V msgs rest p)
  unfolding sent
  sent-SendsAll s msg msgs rest (pending, (t, m)) h ih = (
    regroup (output_of t.local) (output_of s.local) (frame m) (frame msg) (frames msgs) h.0,
    λ e. cc,
  )
  sent-SendsAll s msg msgs rest (ready (err x), (t, m)) h ih = (
    regroup (output_of t.local) (output_of s.local) (frame m) (frame msg) (frames msgs) h.0,
    λ e. cc,
  )
  sent-SendsAll s msg msgs rest (ready (ok _), (t, none)) h ih =
      SendsAll-carry s t msg msgs (rest t) (sym (append-nil (output_of t.local)) ∙ h.0) (ih t)
  sent-SendsAll s msg msgs rest (ready (ok _), (t, some m)) h ih = cc (h.1 refl)

  pub poll_msgs-SendsAll :
      (msgs : List Sending) (s : Shared V) → SendsAll s msgs (poll_msgs V msgs s)
  unfolding poll_msgs
  poll_msgs-SendsAll [] s = (refl, λ e. refl)
  poll_msgs-SendsAll (msg ∷ msgs) s =
      sent-SendsAll s msg msgs (poll_msgs V msgs) (shared_send V msg s)
        (send_at s.broken s.local msg) (poll_msgs-SendsAll msgs)

  -- One poll of a `DoSend`
  abbrev pub DoesSend :
      Shared V → DoSend → Option (Poll (Result (Unit {0})) × (Shared V × DoSend)) → Type 0
  DoesSend s d none = ⊥
  DoesSend s d (some (r, (s', d'))) =
      (output_of s'.local ++ frames_of d'.msgs ≡ output_of s.local ++ frames_of d.msgs)
      × (d'.flush ≡ d.flush)
      × (r ≡ ready (ok tt)
          → (frames_of d'.msgs ≡ [])
            × (d.flush ≡ true → delivered_of s'.local ≡ output_of s'.local))

  finish-DoesSend :
      (s : Shared V) (d : DoSend) (msgs : List Sending)
      (o : Option (Poll (Result (Unit {0})) × (Shared V × List Sending)))
      → SendsAll s msgs o
      → d.msgs ≡ ok msgs
      → poll_msgs V msgs s ≡ o
      → DoesSend s d (poll_do_send V d s)
  unfolding poll_do_send
  finish-DoesSend s d msgs none h e p = absurd h
  finish-DoesSend s d msgs (some (r, (t, left))) h e p = ground (arith, shared_flush-Flushes t)

  do_send_at :
      (s : Shared V) (d : DoSend) (m : Result (List Sending))
      → d.msgs ≡ m
      → DoesSend s d (poll_do_send V d s)
  unfolding poll_do_send
  do_send_at s d (ok msgs) e =
      finish-DoesSend s d msgs (poll_msgs V msgs s) (poll_msgs-SendsAll msgs s) e refl
  do_send_at s d (err x) e = ground arith

  pub poll_do_send-DoesSend : (s : Shared V) (d : DoSend) → DoesSend s d (poll_do_send V d s)
  poll_do_send-DoesSend s d = do_send_at s d d.msgs refl

  -- All of `sent` is on the connection where the send flushes, and else there or in the buffer.
  abbrev pub Settled : Bool → Shared V → Bytes → Type 0
  Settled true s sent = delivered_of s.local ≡ sent
  Settled false s sent = output_of s.local ≡ sent

  -- What any number of polls of a `DoSend` come to.
  abbrev pub Delivered :
      Shared V → DoSend → Awaited (Result (Unit {0})) (Shared V × DoSend) → Type 0
  Delivered s d panicked = ⊥
  Delivered s d (waiting (s', d')) =
      output_of s'.local ++ frames_of d'.msgs ≡ output_of s.local ++ frames_of d.msgs
  Delivered s d (finished (err e) (s', d')) =
      output_of s'.local ++ frames_of d'.msgs ≡ output_of s.local ++ frames_of d.msgs
  Delivered s d (finished (ok _) (s', d')) =
      Settled d.flush s' (output_of s.local ++ frames_of d.msgs)

  Settled-carry :
      (b c : Bool) (s : Shared V) {x y : Bytes} → b ≡ c → x ≡ y → Settled b s x → Settled c s y
  Settled-carry true true s f e h = h ∙ e
  Settled-carry true false s f e h = cc
  Settled-carry false true s f e h = cc
  Settled-carry false false s f e h = h ∙ e

  Delivered-carry :
      (s s' : Shared V) (d d' : DoSend) (a : Awaited (Result (Unit {0})) (Shared V × DoSend))
      → output_of s'.local ++ frames_of d'.msgs ≡ output_of s.local ++ frames_of d.msgs
      → d'.flush ≡ d.flush
      → Delivered s' d' a
      → Delivered s d a
  Delivered-carry s s' d d' (waiting (t, c)) e f h = h ∙ e
  Delivered-carry s s' d d' (finished (err x) (t, c)) e f h = h ∙ e
  Delivered-carry s s' d d' (finished (ok _) (t, c)) e f h = Settled-carry d'.flush d.flush t f e h
  Delivered-carry s s' d d' panicked e f h = h

  settle :
      (b : Bool) (s : Shared V) (sent : Bytes)
      → output_of s.local ≡ sent
      → (b ≡ true → delivered_of s.local ≡ output_of s.local)
      → Settled b s sent
  settle true s sent e h = h refl ∙ e
  settle false s sent e h = e

  polled-Delivered :
      (s : Shared V) (d : DoSend) (o : Option (Poll (Result (Unit {0})) × (Shared V × DoSend)))
      (rest : Shared V → DoSend → Awaited (Result (Unit {0})) (Shared V × DoSend))
      → DoesSend s d o
      → ((t : Shared V) (c : DoSend) → Delivered t c (rest t c))
      → Delivered s d (polled V o rest)
  unfolding polled
  polled-Delivered s d none rest h ih = h
  polled-Delivered s d (some (pending, (t, c))) rest h ih =
      Delivered-carry s t d c (rest t c) h.0 h.1 (ih t c)
  polled-Delivered s d (some (ready (err x), (t, c))) rest h ih = h.0
  polled-Delivered s d (some (ready (ok _), (t, c))) rest h ih =
      let (left, flushed) = h.2 refl in
      settle d.flush t (output_of s.local ++ frames_of d.msgs)
        (sym (append-nil (output_of t.local)) ∙ ap (λ x. output_of t.local ++ x) (sym left) ∙ h.0)
        flushed

  -- However often a send is polled, it does not panic. While it waits or where it fails, the bytes
  -- that the connection took, those in the buffer and the lines still to be taken make up what they
  -- did before, in order. Where it succeeds, its lines follow what was there: on the connection if
  -- the send flushes, else on the connection and in the buffer.
  pub await_send-Delivered :
      (n : ℕ) (s : Shared V) (d : DoSend) → Delivered s d (await_send V n s d)
  unfolding await_send
  await_send-Delivered zero s d = refl
  await_send-Delivered (suc n) s d =
      polled-Delivered s d (poll_do_send V d s) (await_send V n) (poll_do_send-DoesSend s d)
        (await_send-Delivered n)
