-- ===== src/Io/Rx/Reads.antt =====
-- `MsgReader::poll_read_message` reads the lines of the stream, whatever its chunks are.
use minimal_vm_tool.Prelude.{
  ℕ, zero, suc, ◌+◌, ◌≤◌, ◌<◌, ◌≡◌, refl, ap, ◌∙◌, sym, subst, Option, none, some, List, [], ◌∷◌,
  ◌++◌, append-nil, append_assoc, drop, take, length, length-append, length-drop, arith, Bytes,
  newline, Flow, again, done, loop_induction,
}
use minimal_vm_tool.Outcome.{Error, context, Result, ok, err, Poll, pending, ready}
use minimal_vm_tool.Protocol.{Message}
use minimal_vm_tool.Io.Rx.{
  ReadEvent, chunk, wait, fail, poll_read, position, MsgReader, weight, parse_line, at_read,
  at_newline, read_round, rounds_at, rounds, poll_read_message,
}
use minimal_vm_tool.Io.Rx.Lines.{
  lines, lines_at, lines-none, position-append_newline, position-lt, keep-take,
  lines-append_newline,
}

-- The bytes that a reader has still to deliver.
abbrev pub content : List ReadEvent → Bytes
content [] = []
content (chunk b bs ∷ rest) = (b ∷ bs) ++ content rest
content (wait ∷ rest) = content rest
content (fail e ∷ rest) = content rest

abbrev pub stream : MsgReader → Bytes
stream s = s.buffer ++ content s.reader

abbrev pub polls : MsgReader → ℕ
polls s = length s.reader

module _ (from_slice : Bytes → Result Message) where
  -- What a poll may come to, by the lines of the stream.
  pub data Reads (s : MsgReader) : Poll (Result (Option Message)) × MsgReader → Type 0 where
    line :
        (l : Bytes) (s' : MsgReader)
        → lines (stream s) ≡ l ∷ lines (stream s')
        → polls s' ≤ polls s
        → Reads s (ready (parse_line from_slice l), s')
    ended :
        (s' : MsgReader)
        → lines (stream s) ≡ []
        → s'.buffer ≡ []
        → s'.reader ≡ []
        → Reads s (ready (ok none), s')
    waits :
        (s' : MsgReader)
        → lines (stream s) ≡ lines (stream s')
        → polls s' < polls s
        → Reads s (pending, s')
    fails :
        (e : Error) (s' : MsgReader)
        → lines (stream s) ≡ lines (stream s')
        → polls s' < polls s
        → Reads s (ready (err (context "Failed to read from reader" e)), s')

  Reads-carry :
      (s t : MsgReader) {a : Poll (Result (Option Message)) × MsgReader}
      → lines (stream s) ≡ lines (stream t)
      → polls t ≤ polls s
      → Reads t a
      → Reads s a
  Reads-carry s t e h (line l s' p q) = line l s' (e ∙ p) (omega arith)
  Reads-carry s t e h (ended s' p b r) = ended s' (e ∙ p) b r
  Reads-carry s t e h (waits s' p q) = waits s' (e ∙ p) (omega arith)
  Reads-carry s t e h (fails x s' p q) = fails x s' (e ∙ p) (omega arith)

  -- A round that goes on, and one that returns.
  abbrev Round : MsgReader → Flow MsgReader (Poll (Result (Option Message)) × MsgReader) → Type 0
  Round s (again s') =
      (lines (stream s) ≡ lines (stream s')) × (polls s' ≤ polls s) × (rounds s' < rounds s)
  Round s (done a) = Reads s a

  rounds-le :
      (o : Option ℕ) (s : MsgReader) → rounds_at o s ≤ suc (length s.buffer + weight s.reader)
  rounds-le none s = omega arith
  rounds-le (some zero) s = omega arith
  rounds-le (some (suc ix)) s = omega arith

  at_read-Round :
      (buf : Bytes) (r : List ReadEvent)
      → position newline buf ≡ none
      → Round
          (record { reader = r; buffer = buf })
          (at_read from_slice (record { reader = r; buffer = buf }) (poll_read r))
  unfolding at_read poll_read
  at_read-Round [] [] e = ended (record { reader = []; buffer = [] }) (lines-none [] e) refl refl
  at_read-Round (c ∷ cs) [] e = (
    ap lines (append-nil (c ∷ cs))
        ∙ sym (lines-append_newline (c ∷ cs) e)
        ∙ ap lines (sym (append-nil ((c ∷ cs) ++ newline ∷ []))),
    omega arith,
    omega (
      arith,
      ap (λ o. rounds_at o (record { reader = []; buffer = (c ∷ cs) ++ newline ∷ [] }))
          (position-append_newline (c ∷ cs) e),
      ap (λ o. rounds_at o (record { reader = []; buffer = c ∷ cs })) e,
    ),
  )
  at_read-Round buf (wait ∷ r) e = waits (record { reader = r; buffer = buf }) refl (omega arith)
  at_read-Round buf (fail x ∷ r) e =
      fails x (record { reader = r; buffer = buf }) refl (omega arith)
  at_read-Round buf (chunk b bs ∷ r) e = (
    ap lines (sym (append_assoc buf (b ∷ bs) (content r))),
    omega arith,
    omega (
      arith,
      ap (λ o. rounds_at o (record { reader = chunk b bs ∷ r; buffer = buf })) e,
      length-append buf (b ∷ bs),
      rounds-le (position newline (buf ++ b ∷ bs)) (record { reader = r; buffer = buf ++ b ∷ bs }),
    ),
  )

  at_newline-Round :
      (s : MsgReader) (o : Option ℕ)
      → position newline s.buffer ≡ o
      → Round s (at_newline from_slice s o)
  unfolding at_newline
  at_newline-Round s none e = at_read-Round s.buffer s.reader e
  at_newline-Round s (some zero) e =
      let full = ap (λ o. rounds_at o s) e in
      let less = length-drop 1 s.buffer in
      (
        lines_at s.buffer (content s.reader) 0 e,
        omega arith,
        omega (
          arith,
          position-lt s.buffer 0 e,
          rounds-le (position newline (drop 1 s.buffer)) (record s { buffer = drop 1 s.buffer }),
        ),
      )
  at_newline-Round s (some (suc ix)) e =
      line (take (suc ix) s.buffer) (record s { buffer = drop (suc (suc ix)) s.buffer })
        (lines_at s.buffer (content s.reader) (suc ix) e
          ∙ keep-take s.buffer ix (lines (drop (suc (suc ix)) s.buffer ++ content s.reader))
              (position-lt s.buffer (suc ix) e))
        (omega arith)

  read_round-Round :
      (s : MsgReader) (f : Flow MsgReader (Poll (Result (Option Message)) × MsgReader))
      → read_round from_slice s ≡ f
      → Round s f
  unfolding read_round
  read_round-Round s f e = subst (Round s) e (at_newline-Round s (position newline s.buffer) refl)

  pub round_falls : (s s' : MsgReader) → read_round from_slice s ≡ again s' → rounds s' < rounds s
  round_falls s s' e = (read_round-Round s (again s') e).2

  -- A poll of the reader gives the parse of the first line of the stream that is not empty, a
  -- missing newline at the end of the stream not minded, and leaves the lines after it; or it ends,
  -- where there is no such line; or it waits, or fails on a read error, with the lines as they were
  -- and a poll of the reader less to come. This is so whatever chunks the stream comes in.
  pub poll_read_message-Reads : (s : MsgReader) → Reads s (poll_read_message from_slice s)
  unfolding poll_read_message
  poll_read_message-Reads s =
      loop_induction Reads (λ t. (pending, t)) (read_round from_slice) rounds round_falls
        (λ t a e. read_round-Round t (done a) e)
        (λ t t' a e h.
          Reads-carry t t' (read_round-Round t (again t') e).0 (read_round-Round t (again t') e).1
            h)
        s
