-- ===== src/Io/Rx/Recv/Share.antt =====
-- Receivers of different types on one `Rx`: each gets its own messages, and leaves those of the others.
use minimal_vm_tool.Prelude.{
  ◌≡◌, refl, ap, ◌∙◌, sym, subst, false, Option, none, some, List, [], ◌∷◌, ◌++◌, append-nil, arith,
  Bytes,
}
use minimal_vm_tool.Outcome.{Result, ok, err, Poll, pending, ready}
use minimal_vm_tool.Protocol.{Message, Converted, is, is_not}
use minimal_vm_tool.Protocol.Kinds.{GivesBack}
use minimal_vm_tool.Io.Rx.Reads.{polls}
use minimal_vm_tool.Io.Rx.Recv.{RxLocal, SharedRx, poll_recv, shared_recv}
use minimal_vm_tool.Io.Rx.Recv.Select.{select, select_at}
use minimal_vm_tool.Io.Rx.Recv.Mailbox.{
  Inbox, Receives, found, at_end, not_yet, failed, poll_recv-Receives,
}

abbrev pub accepted_in : {A : Type 0} → Converted A → List A → List A
accepted_in (is a) rest = a ∷ rest
accepted_in (is_not m) rest = rest

module _ {A : Type 0} (f : Message → Converted A) where
  -- The messages of a mailbox that a type accepts.
  abbrev pub wanted : List Message → List A
  wanted [] = []
  wanted (m ∷ q) = accepted_in (f m) (wanted q)

  abbrev pub rest_of : List Message → Option (A × List Message) → List Message
  rest_of q none = q
  rest_of q (some (a, rest)) = rest

  -- The mailbox after a poll with a result.
  abbrev pub left_by : List Message → Poll (Result (Option A)) → List Message
  left_by q (ready (ok (some a))) = rest_of q (select f q)
  left_by q (ready (ok none)) = q
  left_by q (ready (err e)) = q
  left_by q pending = q

  abbrev pub taken_by : Poll (Result (Option A)) → List A
  taken_by (ready (ok (some a))) = a ∷ []
  taken_by (ready (ok none)) = []
  taken_by (ready (err e)) = []
  taken_by pending = []

  wanted_at :
      (m : Message) (q : List Message) (c : Converted A) (o : Option (A × List Message)) (a : A)
      (rest : List Message)
      → f m ≡ c
      → select f q ≡ o
      → ((b : A) (t : List Message) → select f q ≡ some (b, t) → wanted q ≡ b ∷ wanted t)
      → select_at f m q o c ≡ some (a, rest)
      → accepted_in c (wanted q) ≡ a ∷ wanted rest
  wanted_at m q (is x) o a rest e s ih h = ground arith
  wanted_at m q (is_not m') none a rest e s ih h = cc
  wanted_at m q (is_not m') (some (b, t)) a rest e s ih h = ground (arith, ih b t s)

  wanted-select :
      (q : List Message) (a : A) (rest : List Message)
      → select f q ≡ some (a, rest)
      → wanted q ≡ a ∷ wanted rest
  unfolding select
  wanted-select [] a rest h = cc
  wanted-select (m ∷ q) a rest h =
      wanted_at m q (f m) (select f q) a rest refl refl (wanted-select q) h

  none_at :
      (m : Message) (q : List Message) (c : Converted A) (o : Option (A × List Message))
      → select f q ≡ o
      → (select f q ≡ none → wanted q ≡ [])
      → select_at f m q o c ≡ none
      → accepted_in c (wanted q) ≡ []
  none_at m q (is x) o s ih h = cc
  none_at m q (is_not m') none s ih h = ih s
  none_at m q (is_not m') (some (b, t)) s ih h = cc

  wanted-select-none : (q : List Message) → select f q ≡ none → wanted q ≡ []
  unfolding select
  wanted-select-none [] h = refl
  wanted-select-none (m ∷ q) h = none_at m q (f m) (select f q) refl (wanted-select-none q) h

  -- A poll is at the end of the stream only where nothing is wanted.
  abbrev pub Exhausts : List Message → Poll (Result (Option A)) → Type 0
  Exhausts q (ready (ok none)) = wanted q ≡ []
  Exhausts q (ready (ok (some a))) = Unit
  Exhausts q (ready (err e)) = Unit
  Exhausts q pending = Unit

module _ {A B : Type 0} (f : Message → Converted A) (g : Message → Converted B) where
  -- No message is for both types.
  abbrev pub Apart : Type 0
  Apart = (m : Message) (a : A) (b : B) → f m ≡ is a → g m ≡ is b → ⊥

  skip_other :
      (m : Message) (c : Converted B) (r : List B) (a : A)
      → Apart
      → f m ≡ is a
      → g m ≡ c
      → accepted_in c r ≡ r
  skip_other m (is b) r a apart e h = absurd (apart m a b e h)
  skip_other m (is_not m') r a apart e h = refl

  other_at :
      (apart : Apart) (m : Message) (q : List Message) (c : Converted A)
      (o : Option (A × List Message)) (a : A) (rest : List Message)
      → f m ≡ c
      → select f q ≡ o
      → ((b : A) (t : List Message) → select f q ≡ some (b, t) → wanted g q ≡ wanted g t)
      → select_at f m q o c ≡ some (a, rest)
      → accepted_in (g m) (wanted g q) ≡ wanted g rest
  other_at apart m q (is x) o a rest e s ih h =
      let same : q ≡ rest = ground arith in
      skip_other m (g m) (wanted g q) x apart e refl ∙ ap (wanted g) same
  other_at apart m q (is_not m') none a rest e s ih h = cc
  other_at apart m q (is_not m') (some (b, t)) a rest e s ih h =
      let same : m ∷ t ≡ rest = ground arith in
      ap (accepted_in (g m)) (ih b t s) ∙ ap (wanted g) same

  other-select :
      (apart : Apart) (q : List Message) (a : A) (rest : List Message)
      → select f q ≡ some (a, rest)
      → wanted g q ≡ wanted g rest
  unfolding select
  other-select apart [] a rest h = cc
  other-select apart (m ∷ q) a rest h =
      other_at apart m q (f m) (select f q) a rest refl refl (other-select apart q) h

  other-rest_of :
      (apart : Apart) (q : List Message) (o : Option (A × List Message))
      → select f q ≡ o
      → wanted g q ≡ wanted g (rest_of f q o)
  other-rest_of apart q none e = refl
  other-rest_of apart q (some (a, rest)) e = other-select apart q a rest e

  -- A poll for one type leaves the messages of the other.
  pub wanted-left_by :
      Apart
      → (q : List Message) (r : Poll (Result (Option A))) → wanted g q ≡ wanted g (left_by f q r)
  wanted-left_by apart q pending = refl
  wanted-left_by apart q (ready (err e)) = refl
  wanted-left_by apart q (ready (ok none)) = refl
  wanted-left_by apart q (ready (ok (some a))) = other-rest_of apart q (select f q) refl

module _ (from_slice : Bytes → Result Message) {A : Type 0} (f : Message → Converted A) where
  -- A poll for one type: what it takes is the first that is wanted.
  abbrev pub Serves : List Message → Poll (Result (Option A)) × RxLocal → Type 0
  Serves q (r, s') =
      Inbox from_slice s' (left_by f q r)
      × (wanted f q ≡ taken_by f r ++ wanted f (left_by f q r))
      × Exhausts f q r

  Serves-of_Receives :
      (n : _) (q : List Message) {p : Poll (Result (Option A)) × RxLocal}
      → Receives from_slice f n q p
      → Serves q p
  Serves-of_Receives n q (found m rest s' e h k) =
      let left : rest_of f q (select f q) ≡ rest = ap (rest_of f q) e in
      (
        subst (Inbox from_slice s') (sym left) h,
        wanted-select f q m rest e ∙ ap (λ l. m ∷ wanted f l) (sym left),
        tt,
      )
  Serves-of_Receives n q (at_end s' e h d b le) =
      (([], sym h ∙ sym (append-nil s'.msgs), d), refl, wanted-select-none f q e)
  Serves-of_Receives n q (not_yet s' e h k) = (h, refl, tt)
  Serves-of_Receives n q (failed x s' h k) = (h, refl, tt)

  -- Where the mailbox holds given messages, and the conversion gives a message that it refuses back
  -- unchanged, a poll for a type leaves the mailbox with the messages that it did not take: those
  -- that are wanted as that type are what it gave and then what is left of them, and where it ends
  -- there are none left.
  pub poll_recv-Serves :
      (back : GivesBack f) (s : RxLocal) (q : List Message)
      → Inbox from_slice s q
      → Serves q (poll_recv f from_slice s)
  poll_recv-Serves back s q h =
      Serves-of_Receives (polls s.reader) q (poll_recv-Receives from_slice f back s q h)

-- A poll of the shared receiver, on a mutex that is in order.
module _ (from_slice : Bytes → Result Message) {A : Type 0} (f : Message → Converted A)
    (back : GivesBack f) where
  abbrev pub Polled : List Message → Poll (Result (Option A)) × SharedRx → Type 0
  Polled q (r, rx) = (rx.broken ≡ false) × Serves from_slice f q (r, rx.local)

  pub shared_recv-Polled :
      (rx : SharedRx) (q : List Message)
      → rx.broken ≡ false
      → Inbox from_slice rx.local q
      → Polled q (shared_recv f from_slice rx)
  unfolding shared_recv
  shared_recv-Polled rx q b h = rw b (refl, poll_recv-Serves from_slice f back rx.local q h)
