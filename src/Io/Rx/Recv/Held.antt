-- ===== src/Io/Rx/Recv/Held.antt =====
-- Receiving where the mailbox holds given messages and the reader does not fail: no receive fails.
use minimal_vm_tool.Prelude.{
  ◌≡◌, ◌≢◌, ap, subst, refl, ◌∙◌, sym, false, Option, none, some, List, [], ◌∷◌, append-nil, Bytes,
  ℕ,
}
use minimal_vm_tool.Outcome.{Error, context, Result, ok, err, Poll, pending, ready}
use minimal_vm_tool.Protocol.{Message, Converted, is, is_not}
use minimal_vm_tool.Protocol.Kinds.{GivesBack}
use minimal_vm_tool.Io.Rx.Reads.{polls}
use minimal_vm_tool.Io.Rx.Recv.{RxLocal, SharedRx, shared_recv}
use minimal_vm_tool.Io.Rx.Recv.Select.{select, select_at}
use minimal_vm_tool.Io.Rx.Recv.Mailbox.{
  Inbox, Receives, found, at_end, not_yet, failed, poll_recv-Receives,
}
use minimal_vm_tool.Io.Rx.Recv.Steady.{Calm, Steady, poll_recv-Steady}

-- Each of the messages is so.
abbrev pub Each : (Message → Type 0) → List Message → Type 0
Each P [] = Unit
Each P (m ∷ ms) = P m × Each P ms

module _ {A : Type 0} (f : Message → Converted A) (P : Message → Type 0) where
  -- A message of the mailbox, as it was converted, and the others.
  abbrev pub Took : A → List Message → Type 0
  Took a rest = ((m : Message) × P m × (f m ≡ is a)) × Each P rest

  Took-at :
      (m : Message) (q : List Message) (c : Converted A) (o : Option (A × List Message)) (a : A)
      (rest : List Message)
      → f m ≡ c
      → P m
      → Each P q
      → ((b : A) (t : List Message) → o ≡ some (b, t) → Took b t)
      → select_at f m q o c ≡ some (a, rest)
      → Took a rest
  Took-at m q (is x) o a rest e p ps ih h =
      let same : x ≡ a = cc h in
      let others : q ≡ rest = cc h in ((m, p, e ∙ ap is same), subst (Each P) others ps)
  Took-at m q (is_not m') none a rest e p ps ih h = absurd (cc h)
  Took-at m q (is_not m') (some (b, t)) a rest e p ps ih h =
      let same : b ≡ a = cc h in
      let others : m ∷ t ≡ rest = cc h in
      let ((m'', p', e'), more) = ih b t refl in
      ((m'', p', e' ∙ ap is same), subst (Each P) others (p, more))

  pub select-Took :
      (q : List Message) (a : A) (rest : List Message)
      → Each P q
      → select f q ≡ some (a, rest)
      → Took a rest
  unfolding select
  select-Took [] a rest ps h = absurd (cc h)
  select-Took (m ∷ q) a rest (p, ps) h =
      Took-at m q (f m) (select f q) a rest refl p ps (λ b t e. select-Took q b t ps e) h

read_is_not_parse :
    (e x : Error) → context "Failed to read from reader" e ≢ context "Failed to parse message" x
read_is_not_parse e x h = cc h

module _ (from_slice : Bytes → Result Message) where
  -- The receiver, on a mutex that is in order, and its messages.
  abbrev pub Held : SharedRx → List Message → Type 0
  Held rx q = (rx.broken ≡ false) × Calm Unit rx.local.reader.reader × Inbox from_slice rx.local q

  module _ {A : Type 0} (f : Message → Converted A) where
    -- What a receive comes to, with the messages that are left.
    abbrev pub Gets : List Message → Poll (Result (Option A)) × SharedRx → Type 0
    Gets q (pending, rx) = Held rx q
    Gets q (ready (err e), rx) = ⊥
    Gets q (ready (ok none), rx) = (select f q ≡ none) × Held rx q
    Gets q (ready (ok (some a)), rx) =
        (rest : List Message) × (select f q ≡ some (a, rest)) × Held rx rest

    received-Gets :
        (n : ℕ) (q : List Message) (b : SharedRx) {p : Poll (Result (Option A)) × RxLocal}
        → b.broken ≡ false
        → Receives from_slice f n q p
        → Steady Unit (λ s. s.reader.reader) p
        → Gets q (p.0, record b { local = p.1 })
    received-Gets n q b i (found a rest s e h le) st = (rest, e, (i, st, h))
    received-Gets n q b i (at_end s e h d u le) st =
        (e, (i, st, ([], sym h ∙ sym (append-nil s.msgs), d)))
    received-Gets n q b i (not_yet s e h lt) st = (i, st.1, h)
    received-Gets n q b i (failed x s h lt) st = absurd (read_is_not_parse x st.0 st.1)

    pub shared_recv-Gets :
        (back : GivesBack f) (rx : SharedRx) (q : List Message)
        → Held rx q
        → Gets q (shared_recv f from_slice rx)
    unfolding shared_recv
    shared_recv-Gets back rx q (b, c, h) = rw b (
        received-Gets (polls rx.local.reader) q (record { broken = false; local = rx.local }) refl
          (poll_recv-Receives from_slice f back rx.local q h)
          (poll_recv-Steady Unit from_slice f rx.local c))
