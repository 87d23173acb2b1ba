-- ===== src/Agent/Chunks.antt =====
-- `read_line_or_chunk` of agent/src/main.rs: what the agent sends on of the output of its process.
-- The pipe is the sequence of what its polls return, as in protocol/src/io/rx.rs.
pub mod Broken
pub mod Polls
pub mod Pieces
pub mod Intact
use minimal_vm_tool.Prelude.{
  ℕ, suc, Bool, true, false, Option, none, some, List, [], ◌∷◌, ◌++◌, length, is_empty, drop, take,
  if◌then◌else◌, Bytes, newline, Flow, again, done, loop,
}
use minimal_vm_tool.Outcome.{Error, Result, ok, err, Poll, pending, ready}
use minimal_vm_tool.Io.Rx.{ReadEvent, poll_read, position}

-- The pipe `r`, and `buffer`, which the caller keeps between two calls.
pub record Pipe : Type 0 where
  pub reader : List ReadEvent
  pub buffer : Bytes

abbrev pub Chunk : Type 0
Chunk = Poll (Result (Option Bytes)) × Pipe

-- The whole buffer, which is left empty.
abbrev pub all_of : Pipe → Chunk
all_of s = (ready (ok (some s.buffer)), record s { buffer = [] })

-- The branch without a newline, at what the read returned.
pub line_read : Pipe → Poll (Result Bytes) × List ReadEvent → Flow Pipe Chunk
line_read s (pending, r) = done (pending, record s { reader = r })
line_read s (ready (err e), r) = done (ready (err e), record s { reader = r })
line_read s (ready (ok []), r) =
    if is_empty s.buffer
    then done (ready (ok none), record s { reader = r })
    else done (all_of (record s { reader = r }))
line_read s (ready (ok (b ∷ bs)), r) = again (record { reader = r; buffer = s.buffer ++ b ∷ bs })

pub line_at : Pipe → Option ℕ → Flow Pipe Chunk
unfolding line_read poll_read
line_at s (some pos) =
    done
      (ready (ok (some (take (suc pos) s.buffer))), record s { buffer = drop (suc pos) s.buffer })
line_at s none = line_read s (poll_read s.reader)

unfoldable pub line_round : Pipe → Flow Pipe Chunk
unfolding line_at position
line_round s = line_at s (position newline s.buffer)

-- The `match` on what the read returned, where lines are not waited for.
pub chunk_read : Pipe → Poll (Result Bytes) × List ReadEvent → Chunk
chunk_read s (pending, r) = (pending, record s { reader = r })
chunk_read s (ready (err e), r) = (ready (err e), record s { reader = r })
chunk_read s (ready (ok []), r) =
    if is_empty s.buffer
    then (ready (ok none), record s { reader = r })
    else all_of (record s { reader = r })
chunk_read s (ready (ok (b ∷ bs)), r) = all_of (record { reader = r; buffer = s.buffer ++ b ∷ bs })

-- Each round but the last takes an event of the pipe.
abbrev pub events : Pipe → ℕ
events s = length s.reader

unfoldable pub read_line_or_chunk : Bool → Pipe → Chunk
unfolding line_round chunk_read poll_read
read_line_or_chunk true s = loop (λ t. (pending, t)) line_round events s
read_line_or_chunk false s = chunk_read s (poll_read s.reader)
