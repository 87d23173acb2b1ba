-- ===== src/Io/Rx/Recv/Mailbox.antt =====
-- `RxLocal::poll_recv`: the queue and the stream together are one mailbox of typed messages.
use minimal_vm_tool.Prelude.{
  ℕ, ◌≤◌, ◌<◌, ◌≡◌, refl, ap, ap₂, ◌∙◌, sym, subst, Option, none, some, List, [], ◌∷◌, ◌++◌, map,
  append-nil, append-cons, arith, length, Bytes, Flow, again, done, loop_induction,
}
use minimal_vm_tool.Outcome.{Error, context, Result, ok, err, Poll, pending, ready}
use minimal_vm_tool.Protocol.{Message, Converted, is, is_not}
use minimal_vm_tool.Protocol.Kinds.{GivesBack}
use minimal_vm_tool.Io.Rx.{MsgReader, parsed, parse_line}
use minimal_vm_tool.Io.Rx.Lines.{lines, lines-nil}
use minimal_vm_tool.Io.Rx.Reads.{
  stream, polls, content, Reads, line, ended, waits, fails, poll_read_message-Reads,
}
use minimal_vm_tool.Io.Rx.Recv.{
  RxLocal, push, converted, received, recv_round, recv_loop, after_pop, poll_recv,
}
use minimal_vm_tool.Io.Rx.Recv.Select.{
  select, select_at, selected, pop-eq-selected, after, select-append_of_none, select-append_of_some,
}

nil_of_map : (ms : List Message) → ◌≡◌ {A = List (Result Message)} [] (map ok ms) → ms ≡ []
nil_of_map [] e = refl
nil_of_map (m ∷ ms) e = cc

module _ (from_slice : Bytes → Result Message) where
  -- The lines of a stream are the messages `ms`.
  abbrev pub Holds : MsgReader → List Message → Type 0
  Holds r ms = map from_slice (lines (stream r)) ≡ map ok ms

  -- The messages of a receiver: those in its queue, and those of its stream.
  abbrev pub Inbox : RxLocal → List Message → Type 0
  Inbox s q = (ms : List Message) × (q ≡ s.msgs ++ ms) × Holds s.reader ms

  module _ {A : Type 0} (f : Message → Converted A) where
    -- What a poll for one type may come to, with the messages `q` in the mailbox.
    pub data Receives (n : ℕ) (q : List Message) : Poll (Result (Option A)) × RxLocal → Type 0 where
      found :
          (m : A) (rest : List Message) (s' : RxLocal)
          → select f q ≡ some (m, rest)
          → Inbox s' rest
          → polls s'.reader ≤ n
          → Receives n q (ready (ok (some m)), s')
      at_end :
          (s' : RxLocal)
          → select f q ≡ none
          → s'.msgs ≡ q
          → Holds s'.reader []
          → s'.reader.buffer ≡ []
          → polls s'.reader ≤ n
          → Receives n q (ready (ok none), s')
      not_yet :
          (s' : RxLocal)
          → select f s'.msgs ≡ none
          → Inbox s' q
          → polls s'.reader < n
          → Receives n q (pending, s')
      failed :
          (e : Error) (s' : RxLocal)
          → Inbox s' q
          → polls s'.reader < n
          → Receives n q (ready (err (context "Failed to read from reader" e)), s')

    -- A round that goes on has taken a line of the stream.
    abbrev Falls : MsgReader → Flow RxLocal (Poll (Result (Option A)) × RxLocal) → Type 0
    Falls r (done a) = Unit
    Falls r (again s') = length (lines (stream s'.reader)) < length (lines (stream r))

    converted-Falls :
        (msgs : List Message) (r r' : MsgReader) (c : Converted A)
        → length (lines (stream r')) < length (lines (stream r))
        → Falls r (converted f msgs r' c)
    unfolding converted
    converted-Falls msgs r r' (is m) h = tt
    converted-Falls msgs r r' (is_not m) h = h

    line_Falls :
        (msgs : List Message) (r r' : MsgReader) (c : Result Message)
        → length (lines (stream r')) < length (lines (stream r))
        → Falls r (received f from_slice msgs (ready (parsed c), r'))
    unfolding received parsed
    line_Falls msgs r r' (err x) h = tt
    line_Falls msgs r r' (ok msg) h = converted-Falls msgs r r' (f msg) h

    received-Falls :
        (msgs : List Message) (r : MsgReader) {p : Poll (Result (Option Message)) × MsgReader}
        → Reads from_slice r p
        → Falls r (received f from_slice msgs p)
    unfolding received parse_line
    received-Falls msgs r (line l r' e h) =
        line_Falls msgs r r' (from_slice l) (omega (arith, ap length e))
    received-Falls msgs r (ended r' e b n) = tt
    received-Falls msgs r (waits r' e h) = tt
    received-Falls msgs r (fails x r' e h) = tt

    pub recv_falls :
        (s s' : RxLocal)
        → recv_round f from_slice s ≡ again s'
        → length (lines (stream s'.reader)) < length (lines (stream s.reader))
    unfolding recv_round
    recv_falls s s' e =
        subst (Falls s.reader) e
          (received-Falls s.msgs s.reader (poll_read_message-Reads from_slice s.reader))

    abbrev Turn : ℕ → List Message → Flow RxLocal (Poll (Result (Option A)) × RxLocal) → Type 0
    Turn n q (done a) = Receives n q a
    Turn n q (again s') = Inbox s' q × (select f s'.msgs ≡ none) × (polls s'.reader ≤ n)

    module _ (back : GivesBack f) where
      converted-Turn :
          (k : ℕ) (q msgs ms : List Message) (r : MsgReader) (msg : Message) (c : Converted A)
          → f msg ≡ c
          → q ≡ msgs ++ msg ∷ ms
          → Holds r ms
          → select f msgs ≡ none
          → polls r ≤ k
          → Turn k q (converted f msgs r c)
      unfolding converted push select
      converted-Turn k q msgs ms r msg (is m) e h hold n le =
          found m (msgs ++ ms) (record { reader = r; msgs = msgs })
            (ap (select f) h
              ∙ select-append_of_none f msgs (msg ∷ ms) n
              ∙ ap (λ c. after f msgs (select_at f msg ms (select f ms) c)) e)
            (ms, refl, hold) le
      converted-Turn k q msgs ms r msg (is_not msg') e h hold n le =
          let same = back msg msg' e in
          (
            (
              ms,
              h ∙ sym (append-cons msgs msg ms) ∙ ap (λ m. (msgs ++ m ∷ []) ++ ms) (sym same),
              hold,
            ),
            select-append_of_none f msgs (msg' ∷ []) n
                ∙ ap (after f msgs) (ap (select_at f msg' [] none) (ap f same ∙ e)),
            le,
          )

      line_Turn :
          (j : ℕ) (q msgs ms : List Message) (r' : MsgReader) (l : Bytes) (c : Result Message)
          → from_slice l ≡ c
          → (c ∷ map from_slice (lines (stream r'))) ≡ map ok ms
          → q ≡ msgs ++ ms
          → select f msgs ≡ none
          → polls r' ≤ j
          → Turn j q (received f from_slice msgs (ready (parsed c), r'))
      unfolding received parsed
      line_Turn j q msgs [] r' l c e h k n le = cc
      line_Turn j q msgs (m ∷ ms) r' l (err x) e h k n le = cc
      line_Turn j q msgs (m ∷ ms) r' l (ok msg) e h k n le =
          let first : m ≡ msg = cc in
          let others : Holds r' ms = cc in
          converted-Turn j q msgs ms r' msg (f msg) refl (k ∙ ap (λ x. msgs ++ x ∷ ms) first) others
            n le

      received-Turn :
          (j : ℕ) (q msgs ms : List Message) (r : MsgReader)
          → q ≡ msgs ++ ms
          → Holds r ms
          → select f msgs ≡ none
          → polls r ≤ j
          → {p : Poll (Result (Option Message)) × MsgReader} → Reads from_slice r p
          → Turn j q (received f from_slice msgs p)
      unfolding received parse_line
      received-Turn j q msgs ms r k hold n le (line l r' e h) =
          line_Turn j q msgs ms r' l (from_slice l) refl (ap (map from_slice) (sym e) ∙ hold) k n
            (omega arith)
      received-Turn j q msgs ms r k hold n le (ended r' e b d) =
          let all =
            k
            ∙ ap (λ x. msgs ++ x) (nil_of_map ms (ap (map from_slice) (sym e) ∙ hold))
            ∙ append-nil msgs in
          at_end (record { reader = r'; msgs = msgs }) (ap (select f) all ∙ n) (sym all)
            (ap₂ (λ x y. map from_slice (lines (x ++ content y))) b d
              ∙ ap (map from_slice) lines-nil)
            b (omega (arith, ap length d))
      received-Turn j q msgs ms r k hold n le (waits r' e h) =
          not_yet (record { reader = r'; msgs = msgs }) n
            (ms, k, ap (map from_slice) (sym e) ∙ hold) (omega arith)
      received-Turn j q msgs ms r k hold n le (fails x r' e h) =
          failed x (record { reader = r'; msgs = msgs }) (ms, k, ap (map from_slice) (sym e) ∙ hold)
            (omega arith)

      round_Turn :
          (j : ℕ) (s : RxLocal) (q : List Message)
          (t : Flow RxLocal (Poll (Result (Option A)) × RxLocal))
          → recv_round f from_slice s ≡ t
          → Inbox s q
          → select f s.msgs ≡ none
          → polls s.reader ≤ j
          → Turn j q t
      unfolding recv_round
      round_Turn j s q t e h n le = subst (Turn j q) e (
          received-Turn j q s.msgs h.0 s.reader h.1 h.2 n le
            (poll_read_message-Reads from_slice s.reader))

      abbrev Waiting : RxLocal → Poll (Result (Option A)) × RxLocal → Type 0
      Waiting s a =
          (j : ℕ) (q : List Message)
          → Inbox s q
          → select f s.msgs ≡ none
          → polls s.reader ≤ j
          → Receives j q a

      recv_loop-Receives : (s : RxLocal) → Waiting s (recv_loop f from_slice s)
      unfolding recv_loop
      recv_loop-Receives =
          loop_induction Waiting (λ t. (pending, t)) (recv_round f from_slice)
            (λ t. length (lines (stream t.reader))) recv_falls
            (λ t a e j q h n le. round_Turn j t q (done a) e h n le)
            (λ t t' a e w j q h n le.
              let next = round_Turn j t q (again t') e h n le in w j q next.0 next.1 next.2)

      after_pop-Receives :
          (s : RxLocal) (q : List Message) (o : Option (A × List Message))
          → select f s.msgs ≡ o
          → Inbox s q
          → Receives (polls s.reader) q (after_pop f from_slice s.reader (selected f s.msgs o))
      unfolding after_pop
      after_pop-Receives s q none n h = recv_loop-Receives s (polls s.reader) q h n (omega arith)
      after_pop-Receives s q (some (a, rest)) n h =
          found a (rest ++ h.0) (record s { msgs = rest })
            (ap (select f) h.1 ∙ select-append_of_some f s.msgs h.0 a rest n) (h.0, refl, h.2)
            (omega arith)

      -- Where the mailbox, the queue and then the lines of the stream, holds given messages, and
      -- the conversion gives a message that it refuses back unchanged, a poll for its type takes
      -- the first message that it accepts and leaves the others in order; or it ends with every
      -- message in the queue and none accepted; or it waits, or fails on a read error, with the
      -- mailbox as it was and a poll of the reader less to come.
      pub poll_recv-Receives :
          (s : RxLocal) (q : List Message)
          → Inbox s q
          → Receives (polls s.reader) q (poll_recv f from_slice s)
      unfolding poll_recv
      poll_recv-Receives s q h =
          subst (λ p. Receives (polls s.reader) q (after_pop f from_slice s.reader p))
            (sym (pop-eq-selected f back s.msgs)) (after_pop-Receives s q (select f s.msgs) refl h)
