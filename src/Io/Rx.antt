-- ===== src/Io/Rx.antt =====
-- `MsgReader` and `MsgBuffer` of protocol/src/io/rx.rs.
-- The reader, `tokio::io::AsyncRead`, is the sequence of what its polls return: any sequence, of
-- chunks of any length, waits and errors. After the last of them it is at the end of the stream.
pub mod Lines
pub mod Reads
pub mod Recv
use minimal_vm_tool.Prelude.{
  ℕ, zero, suc, ◌+◌, ◌-◌, ◌≡◌, Bool, true, false, Option, none, some, List, [], ◌∷◌, ◌++◌, length,
  is_empty, drop, take, get_or, set, erase_idx, ◌==◌, if◌then◌else◌, Bytes, newline, Flow, again,
  done, loop,
}
use minimal_vm_tool.Outcome.{Error, context, Result, ok, err, Poll, pending, ready, with_context}
use minimal_vm_tool.Protocol.{Message, no_op, Converted, is, is_not}

-- What a `poll_read` returns: bytes, at least one; nothing yet; or an error.
pub data ReadEvent : Type 0 where
  chunk : ℕ → Bytes → ReadEvent
  wait : ReadEvent
  fail : Error → ReadEvent

unfoldable pub poll_read : List ReadEvent → Poll (Result Bytes) × List ReadEvent
poll_read [] = (ready (ok []), [])
poll_read (chunk b bs ∷ rest) = (ready (ok (b ∷ bs)), rest)
poll_read (wait ∷ rest) = (pending, rest)
poll_read (fail e ∷ rest) = (ready (err e), rest)

-- `iter().position(|&c| c == b)`.
unfoldable pub position : ℕ → Bytes → Option ℕ
position b [] = none
position b (c ∷ cs) =
    let rest = position b cs in
    if c == b then some 0 else elim rest [ none ↦ none | some ix ↦ some (suc ix) ]

pub record MsgReader : Type 0 where
  pub reader : List ReadEvent
  pub buffer : Bytes

-- How many bytes the reader may still deliver, and one more for each poll of it.
abbrev pub weight : List ReadEvent → ℕ
weight [] = 0
weight (chunk b bs ∷ rest) = suc (suc (length bs)) + weight rest
weight (wait ∷ rest) = suc (weight rest)
weight (fail e ∷ rest) = suc (weight rest)

unfoldable pub new_reader : List ReadEvent → MsgReader
new_reader r = record { reader = r; buffer = [] }

-- `MsgReader::close`: what it returns, and what it leaves.
unfoldable pub close_reader : MsgReader → Bytes × MsgReader
close_reader s = (s.buffer, record s { buffer = [] })

-- A line at hand is the last round; else each round uses up a byte or a poll of the reader.
abbrev pub rounds_at : Option ℕ → MsgReader → ℕ
rounds_at (some (suc ix)) s = 0
rounds_at (some zero) s = suc (length s.buffer + weight s.reader)
rounds_at none s = suc (length s.buffer + weight s.reader)

abbrev pub rounds : MsgReader → ℕ
rounds s = rounds_at (position newline s.buffer) s

-- The result for a line, at what serde_json returned; the context is added twice in the source.
unfoldable pub parsed : Result Message → Result (Option Message)
parsed (ok msg) = ok (some msg)
parsed (err e) = err (context "Failed to parse message" (context "Failed to parse message" e))

module _ (from_slice : Bytes → Result Message) where
  unfoldable pub parse_line : Bytes → Result (Option Message)
  unfolding parsed
  parse_line line = parsed (from_slice line)

  -- The branch of the loop that found no newline, at what `poll_read` returned.
  pub at_read :
      MsgReader
      → Poll (Result Bytes) × List ReadEvent
      → Flow MsgReader (Poll (Result (Option Message)) × MsgReader)
  at_read s (pending, r) = done (pending, record s { reader = r })
  at_read s (ready (err e), r) =
      done (ready (err (context "Failed to read from reader" e)), record s { reader = r })
  at_read s (ready (ok []), r) =
      if is_empty s.buffer
      then done (ready (ok none), record s { reader = r })
      else again (record { reader = r; buffer = s.buffer ++ newline ∷ [] })
  at_read s (ready (ok (b ∷ bs)), r) = again (record { reader = r; buffer = s.buffer ++ b ∷ bs })

  -- The `match` on the position of a newline.
  pub at_newline :
      MsgReader → Option ℕ → Flow MsgReader (Poll (Result (Option Message)) × MsgReader)
  unfolding at_read poll_read parse_line
  at_newline s (some zero) = again (record s { buffer = drop 1 s.buffer })
  at_newline s (some (suc ix)) = done (
    ready (parse_line (take (suc ix) s.buffer)),
    record s { buffer = drop (suc (suc ix)) s.buffer },
  )
  at_newline s none = at_read s (poll_read s.reader)

  unfoldable pub read_round :
      MsgReader → Flow MsgReader (Poll (Result (Option Message)) × MsgReader)
  unfolding at_newline position
  read_round s = at_newline s (position newline s.buffer)

  unfoldable pub poll_read_message : MsgReader → Poll (Result (Option Message)) × MsgReader
  unfolding read_round
  poll_read_message s = loop (λ t. (pending, t)) read_round rounds s
