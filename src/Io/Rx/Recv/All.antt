-- ===== src/Io/Rx/Recv/All.antt =====
-- The loop of `deserialize_messages` of protocol/src/io/mod.rs: receiving until the end of the stream.
use minimal_vm_tool.Prelude.{
  ℕ, zero, suc, ◌+◌, ◌<◌, ◌≡◌, refl, ap, ◌∙◌, Option, none, some, List, [], ◌∷◌, ◌++◌, arith,
  length, Bytes,
}
use minimal_vm_tool.Outcome.{Error, context, Result, ok, err, Poll, pending, ready}
use minimal_vm_tool.Protocol.{Message, from_any}
use minimal_vm_tool.Protocol.Kinds.{GivesBack}
use minimal_vm_tool.Io.Rx.Reads.{polls}
use minimal_vm_tool.Io.Rx.Recv.{RxLocal, poll_recv}
use minimal_vm_tool.Io.Rx.Recv.Select.{select}
use minimal_vm_tool.Io.Rx.Recv.Mailbox.{
  Inbox, Receives, found, at_end, not_yet, failed, poll_recv-Receives,
}

-- All messages up to the end, and the receiver there; those up to a panic of `expect`; or too few
-- polls.
pub data Drained : Type 0 where
  all : List Message → RxLocal → Drained
  broke : List Message → Error → Drained
  unfinished : Drained

unfoldable pub before : Message → Drained → Drained
before m (all ms s) = all (m ∷ ms) s
before m (broke ms e) = broke (m ∷ ms) e
before m unfinished = unfinished

unfoldable pub got : Poll (Result (Option Message)) × RxLocal → (RxLocal → Drained) → Drained
unfolding before
got (pending, s) next = next s
got (ready (err e), s) next = broke [] e
got (ready (ok none), s) next = all [] s
got (ready (ok (some m)), s) next = before m (next s)

module _ (from_slice : Bytes → Result Message) where
  -- At most `n` polls.
  unfoldable pub recv_all : ℕ → RxLocal → Drained
  unfolding got
  recv_all zero s = unfinished
  recv_all (suc n) s = got (poll_recv from_any from_slice s) (recv_all n)

from_any-GivesBack : GivesBack from_any
unfolding from_any
from_any-GivesBack msg msg' e = cc

cons_of_select :
    (q : List Message) (m : Message) (rest : List Message)
    → select from_any q ≡ some (m, rest)
    → q ≡ m ∷ rest
unfolding select from_any
cons_of_select [] m rest e = cc
cons_of_select (x ∷ q) m rest e = cc

nil_of_select : (q : List Message) → select from_any q ≡ none → q ≡ []
unfolding select from_any
nil_of_select [] e = refl
nil_of_select (x ∷ q) e = cc

-- What receiving everything may come to, with the messages `q` in the mailbox.
pub data Drains (q : List Message) : Drained → Type 0 where
  everything :
      (ms : List Message) (s : RxLocal)
      → q ≡ ms
      → s.msgs ≡ []
      → s.reader.buffer ≡ []
      → Drains q (all ms s)
  a_prefix :
      (ms rest : List Message) (x : Error)
      → q ≡ ms ++ rest
      → Drains q (broke ms (context "Failed to read from reader" x))

Drains-before :
    (m : Message) (q rest : List Message) {d : Drained}
    → q ≡ m ∷ rest
    → Drains rest d
    → Drains q (before m d)
unfolding before
Drains-before m q rest e (everything ms s h n b) = everything (m ∷ ms) s (e ∙ ap (◌∷◌ m) h) n b
Drains-before m q rest e (a_prefix ms r x h) = a_prefix (m ∷ ms) r x (e ∙ ap (◌∷◌ m) h)

module _ (from_slice : Bytes → Result Message) where
  got-Drains :
      (n k : ℕ) (q : List Message) {p : Poll (Result (Option Message)) × RxLocal}
      → Receives from_slice from_any k q p
      → length q + k < suc n
      → ((s : RxLocal) (r : List Message)
          → Inbox from_slice s r
          → length r + polls s.reader < n
          → Drains r (recv_all from_slice n s))
      → Drains q (got p (recv_all from_slice n))
  unfolding got
  got-Drains n k q (found m rest s' e h le) lt ih =
      let split = cons_of_select q m rest e in
      Drains-before m q rest split (ih s' rest h (omega (arith, ap length split)))
  got-Drains n k q (at_end s' e h d b le) lt ih =
      let none_left = nil_of_select q e in everything [] s' none_left (h ∙ none_left) b
  got-Drains n k q (not_yet s' e h less) lt ih = ih s' q h (omega arith)
  got-Drains n k q (failed e s' h less) lt ih = a_prefix [] q e refl

  -- Where the mailbox holds given messages, and the bound is above the number of these and of the
  -- polls of the reader, receiving everything gives all of them in order, or a prefix of them and
  -- an error.
  pub recv_all-Drains :
      (n : ℕ) (s : RxLocal) (q : List Message)
      → Inbox from_slice s q
      → length q + polls s.reader < n
      → Drains q (recv_all from_slice n s)
  unfolding recv_all
  recv_all-Drains zero s q h lt = absurd (omega arith)
  recv_all-Drains (suc n) s q h lt =
      got-Drains n (polls s.reader) q
        (poll_recv-Receives from_slice from_any from_any-GivesBack s q h) lt (recv_all-Drains n)
