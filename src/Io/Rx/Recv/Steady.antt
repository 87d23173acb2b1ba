-- ===== src/Io/Rx/Recv/Steady.antt =====
-- Receiving from a reader that neither waits nor fails, as a slice of bytes is.
use minimal_vm_tool.Prelude.{
  ℕ, zero, suc, ◌≡◌, refl, subst, Option, none, some, List, [], ◌∷◌, length, Bytes, newline, Flow,
  again, done, drop, take, loop_induction,
}
use minimal_vm_tool.Outcome.{Error, context, Result, ok, err, Poll, pending, ready}
use minimal_vm_tool.Protocol.{Message, Converted, is, is_not, from_any}
use minimal_vm_tool.Io.Rx.{
  ReadEvent, chunk, wait, fail, poll_read, position, MsgReader, parsed, parse_line, at_read,
  at_newline, read_round, rounds, poll_read_message,
}
use minimal_vm_tool.Io.Rx.Lines.{lines}
use minimal_vm_tool.Io.Rx.Reads.{stream, round_falls}
use minimal_vm_tool.Io.Rx.Recv.{
  RxLocal, pop, converted, received, recv_round, recv_loop, after_pop, poll_recv,
}
use minimal_vm_tool.Io.Rx.Recv.Mailbox.{recv_falls}
use minimal_vm_tool.Io.Rx.Recv.All.{Drained, all, broke, unfinished, before, got, recv_all}

-- A reader that does not fail, and that waits only where `W` is so.
abbrev pub Calm : Type 0 → List ReadEvent → Type 0
Calm W [] = Unit
Calm W (chunk b bs ∷ rest) = Calm W rest
Calm W (wait ∷ rest) = W × Calm W rest
Calm W (fail e ∷ rest) = ⊥

-- Chunks only.
abbrev pub Chunks : List ReadEvent → Type 0
Chunks = Calm ⊥

abbrev pub ParseError : Error → Type 0
ParseError e = (x : Error) × (e ≡ context "Failed to parse message" x)

-- A poll that leaves such a reader, where it has not come to a line that does not parse.
abbrev pub Steady : {A S : Type 0} → Type 0 → (S → List ReadEvent) → Poll (Result A) × S → Type 0
Steady W at (pending, s) = W × Calm W (at s)
Steady W at (ready (ok a), s) = Calm W (at s)
Steady W at (ready (err e), s) = ParseError e

abbrev SteadyRound :
    {A S : Type 0} → Type 0 → (S → List ReadEvent) → Flow S (Poll (Result A) × S) → Type 0
SteadyRound W at (again s) = Calm W (at s)
SteadyRound W at (done a) = Steady W at a

abbrev source_of : MsgReader → List ReadEvent
source_of s = s.reader

abbrev source : RxLocal → List ReadEvent
source s = s.reader.reader

module _ (W : Type 0) (from_slice : Bytes → Result Message) where
  at_read-Steady :
      (buf : Bytes) (r : List ReadEvent)
      → Calm W r
      → SteadyRound W source_of
          (at_read from_slice (record { reader = r; buffer = buf }) (poll_read r))
  unfolding at_read poll_read
  at_read-Steady [] [] h = h
  at_read-Steady (b ∷ bs) [] h = h
  at_read-Steady buf (chunk b bs ∷ rest) h = h
  at_read-Steady buf (wait ∷ rest) h = h
  at_read-Steady buf (fail e ∷ rest) h = absurd h

  parsed-Steady :
      (s : MsgReader) (r : Result Message)
      → Calm W s.reader
      → Steady W source_of (ready (parsed r), s)
  unfolding parsed
  parsed-Steady s (ok m) h = h
  parsed-Steady s (err e) h = (context "Failed to parse message" e, refl)

  at_newline-Steady :
      (s : MsgReader) (o : Option ℕ)
      → Calm W s.reader
      → SteadyRound W source_of (at_newline from_slice s o)
  unfolding at_newline parse_line
  at_newline-Steady s none h = at_read-Steady s.buffer s.reader h
  at_newline-Steady s (some zero) h = h
  at_newline-Steady s (some (suc ix)) h =
      parsed-Steady (record { reader = s.reader; buffer = drop (suc (suc ix)) s.buffer })
        (from_slice (take (suc ix) s.buffer)) h

  round-Steady :
      (s : MsgReader) (f : Flow MsgReader (Poll (Result (Option Message)) × MsgReader))
      → read_round from_slice s ≡ f
      → Calm W s.reader
      → SteadyRound W source_of f
  unfolding read_round
  round-Steady s f e h =
      subst (SteadyRound W source_of) e (at_newline-Steady s (position newline s.buffer) h)

  poll_read_message-Steady :
      (s : MsgReader) → Calm W s.reader → Steady W source_of (poll_read_message from_slice s)
  unfolding poll_read_message
  poll_read_message-Steady =
      loop_induction (λ s a. Calm W s.reader → Steady W source_of a) (λ t. (pending, t))
        (read_round from_slice) rounds (round_falls from_slice)
        (λ t a e h. round-Steady t (done a) e h)
        (λ t t' a e ih h. ih (round-Steady t (again t') e h))

  module _ {A : Type 0} (f : Message → Converted A) where
    converted-Steady :
        (msgs : List Message) (r : MsgReader) (c : Converted A)
        → Calm W r.reader
        → SteadyRound W source (converted f msgs r c)
    unfolding converted
    converted-Steady msgs r (is m) h = h
    converted-Steady msgs r (is_not m) h = h

    received-Steady :
        (msgs : List Message) (p : Poll (Result (Option Message)) × MsgReader)
        → Steady W source_of p
        → SteadyRound W source (received f from_slice msgs p)
    unfolding received
    received-Steady msgs (pending, r) h = h
    received-Steady msgs (ready (err e), r) h = h
    received-Steady msgs (ready (ok none), r) h = h
    received-Steady msgs (ready (ok (some m)), r) h = converted-Steady msgs r (f m) h

    recv_round-Steady :
        (s : RxLocal) (t : Flow RxLocal (Poll (Result (Option A)) × RxLocal))
        → recv_round f from_slice s ≡ t
        → Calm W s.reader.reader
        → SteadyRound W source t
    unfolding recv_round
    recv_round-Steady s t e h = subst (SteadyRound W source) e (
        received-Steady s.msgs (poll_read_message from_slice s.reader)
          (poll_read_message-Steady s.reader h))

    recv_loop-Steady :
        (s : RxLocal) → Calm W s.reader.reader → Steady W source (recv_loop f from_slice s)
    unfolding recv_loop
    recv_loop-Steady =
        loop_induction (λ s a. Calm W s.reader.reader → Steady W source a) (λ t. (pending, t))
          (recv_round f from_slice) (λ t. length (lines (stream t.reader)))
          (recv_falls from_slice f) (λ t a e h. recv_round-Steady t (done a) e h)
          (λ t t' a e ih h. ih (recv_round-Steady t (again t') e h))

    after_pop-Steady :
        (r : MsgReader) (o : Option A × List Message)
        → Calm W r.reader
        → Steady W source (after_pop f from_slice r o)
    unfolding after_pop
    after_pop-Steady r (some m, msgs) h = h
    after_pop-Steady r (none, msgs) h = recv_loop-Steady (record { reader = r; msgs = msgs }) h

    pub poll_recv-Steady :
        (s : RxLocal) → Calm W s.reader.reader → Steady W source (poll_recv f from_slice s)
    unfolding poll_recv
    poll_recv-Steady s h = after_pop-Steady s.reader (pop f s.msgs) h

module _ (from_slice : Bytes → Result Message) where
  -- Receiving that breaks off does so at a line that does not parse.
  abbrev pub Unbroken : Drained → Type 0
  Unbroken (all ms s) = Unit
  Unbroken (broke ms e) = ParseError e
  Unbroken unfinished = Unit

  before-Unbroken : (m : Message) (d : Drained) → Unbroken d → Unbroken (before m d)
  unfolding before
  before-Unbroken m (all ms s) h = h
  before-Unbroken m (broke ms e) h = h
  before-Unbroken m unfinished h = h

  got-Unbroken :
      (p : Poll (Result (Option Message)) × RxLocal) (next : RxLocal → Drained)
      → Steady ⊥ source p
      → ((s : RxLocal) → Chunks s.reader.reader → Unbroken (next s))
      → Unbroken (got p next)
  unfolding got
  got-Unbroken (pending, s) next h ih = absurd h.0
  got-Unbroken (ready (err e), s) next h ih = h
  got-Unbroken (ready (ok none), s) next h ih = tt
  got-Unbroken (ready (ok (some m)), s) next h ih = before-Unbroken m (next s) (ih s h)

  pub recv_all-Unbroken :
      (n : ℕ) (s : RxLocal) → Chunks s.reader.reader → Unbroken (recv_all from_slice n s)
  unfolding recv_all
  recv_all-Unbroken zero s h = tt
  recv_all-Unbroken (suc n) s h =
      got-Unbroken (poll_recv from_any from_slice s) (recv_all from_slice n)
        (poll_recv-Steady ⊥ from_slice from_any s h) (recv_all-Unbroken n)
