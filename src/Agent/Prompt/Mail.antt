-- ===== src/Agent/Prompt/Mail.antt =====
-- What is left for a receiver: the polls of its reader, and the messages of its mailbox.
use minimal_vm_tool.Prelude.{
  ℕ, ◌+◌, ◌*◌, ◌<◌, ◌≤◌, ◌≡◌, ◌≢◌, refl, ◌∙◌, sym, Option, none, some, List, [], ◌∷◌, append-nil,
  arith, length, Bytes, false,
}
use minimal_vm_tool.Outcome.{Result, ok, err, Poll, pending, ready}
use minimal_vm_tool.Protocol.{Message, Converted}
use minimal_vm_tool.Protocol.Kinds.{GivesBack}
use minimal_vm_tool.Io.Rx.Reads.{polls}
use minimal_vm_tool.Io.Rx.Recv.{RxLocal, SharedRx, shared_recv}
use minimal_vm_tool.Io.Rx.Recv.Select.{select, select_at}
use minimal_vm_tool.Io.Rx.Recv.Mailbox.{
  Inbox, Receives, found, at_end, not_yet, failed, poll_recv-Receives,
}
use minimal_vm_tool.Protocol.{
  Stream, in_stream, is, is_not, closed, from_stdio, out_stream, err_stream,
}
use minimal_vm_tool.Io.Rx.Recv.Held.{Each, select-Took}

-- A message may start more turns than a poll of the reader.
abbrev pub mail : RxLocal → List Message → ℕ
mail rx q = polls rx.reader + 4 * length q

-- A message to the agent that does not tell it to close an output.
abbrev pub Allowed : Message → Type 0
Allowed m = (from_stdio out_stream m ≢ is closed) × (from_stdio err_stream m ≢ is closed)

-- The two outputs.
abbrev pub IsOutput : Stream → Type 0
IsOutput in_stream = ⊥
IsOutput out_stream = Unit
IsOutput err_stream = Unit

pub not_closed : (n : Stream) → IsOutput n → (m : Message) → Allowed m → from_stdio n m ≢ is closed
not_closed in_stream o m a = absurd o
not_closed out_stream o m a = a.0
not_closed err_stream o m a = a.1

-- The messages of a receiver, where they are such.
abbrev pub Box : (Bytes → Result Message) → RxLocal → List Message → Type 0
Box from_slice s q = Inbox from_slice s q × Each Allowed q

module _ {A : Type 0} (f : Message → Converted A) where
  shorter_at :
      (m : Message) (q : List Message) (c : Converted A) (o : Option (A × List Message)) (a : A)
      (rest : List Message)
      → ((b : A) (t : List Message) → o ≡ some (b, t) → length q ≡ 1 + length t)
      → select_at f m q o c ≡ some (a, rest)
      → length (m ∷ q) ≡ 1 + length rest
  shorter_at m q (is x) o a rest ih h = ground arith
  shorter_at m q (is_not m') none a rest ih h = cc
  shorter_at m q (is_not m') (some (b, t)) a rest ih h = ground (arith, ih b t)

  length-select :
      (q : List Message) (a : A) (rest : List Message)
      → select f q ≡ some (a, rest)
      → length q ≡ 1 + length rest
  unfolding select
  length-select [] a rest h = cc
  length-select (m ∷ q) a rest h = shorter_at m q (f m) (select f q) a rest (length-select q) h

module _ (from_slice : Bytes → Result Message) {A : Type 0} (f : Message → Converted A) where
  -- The mail after a receive that found mail `n`, by what it gave.
  abbrev pub Spends : ℕ → ℕ → Poll (Result (Option A)) → Type 0
  Spends n n' pending = n' < n
  Spends n n' (ready (err e)) = n' ≤ n
  Spends n n' (ready (ok none)) = n' ≤ n
  Spends n n' (ready (ok (some a))) = n' + 4 ≤ n

  -- What was received is a message of the mailbox.
  abbrev pub Taken : Poll (Result (Option A)) → Type 0
  Taken pending = Unit
  Taken (ready (err e)) = Unit
  Taken (ready (ok none)) = Unit
  Taken (ready (ok (some a))) = (m : Message) × Allowed m × (f m ≡ is a)

  abbrev pub Mails : ℕ → Poll (Result (Option A)) × RxLocal → Type 0
  Mails n (r, s) = (q : List Message) × Box from_slice s q × (Spends n (mail s q) r × Taken r)

  Receives-Mails :
      (n : ℕ) (q : List Message) {p : Poll (Result (Option A)) × RxLocal}
      → Each Allowed q
      → Receives from_slice f n q p
      → Mails (n + 4 * length q) p
  Receives-Mails n q k (found a rest s e h le) =
      let (m, more) = select-Took f Allowed q a rest k e in
      (rest, (h, more), (omega (arith, length-select f q a rest e), m))
  Receives-Mails n q k (at_end s e h d b le) =
      (q, (([], sym h ∙ sym (append-nil s.msgs), d), k), (omega arith, tt))
  Receives-Mails n q k (not_yet s e h lt) = (q, (h, k), (omega arith, tt))
  Receives-Mails n q k (failed x s h lt) = (q, (h, k), (omega arith, tt))

  -- The same of the shared receiver, on a mutex that is in order.
  abbrev pub SharedMails : ℕ → Poll (Result (Option A)) × SharedRx → Type 0
  SharedMails n (r, rx) = (rx.broken ≡ false) × Mails n (r, rx.local)

  pub shared_recv-Mails :
      (back : GivesBack f) (rx : SharedRx) (q : List Message)
      → rx.broken ≡ false
      → Box from_slice rx.local q
      → SharedMails (mail rx.local q) (shared_recv f from_slice rx)
  unfolding shared_recv
  shared_recv-Mails back rx q b (h, k) = rw b (
    refl,
    Receives-Mails (polls rx.local.reader) q k (poll_recv-Receives from_slice f back rx.local q h),
  )
