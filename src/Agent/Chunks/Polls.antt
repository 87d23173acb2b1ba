-- ===== src/Agent/Chunks/Polls.antt =====
-- A poll of `read_line_or_chunk` does not add to the events of its pipe.
use minimal_vm_tool.Prelude.{
  ℕ, ◌≤◌, ◌≡◌, Bool, true, false, Option, none, some, List, [], ◌∷◌, arith, length, Bytes, Flow,
  again, done, loop_induction,
}
use minimal_vm_tool.Outcome.{pending}
use minimal_vm_tool.Io.Rx.{ReadEvent, chunk, wait, fail, poll_read, position}
use minimal_vm_tool.Agent.Chunks.{
  Pipe, Chunk, line_read, line_at, line_round, chunk_read, events, read_line_or_chunk,
}
use minimal_vm_tool.Agent.Chunks.Pieces.{line_round_falls}

abbrev Less : Pipe → Flow Pipe Chunk → Type 0
Less s (again s') = events s' ≤ events s
Less s (done a) = events a.1 ≤ events s

line_read-Less :
    (buf : Bytes) (r : List ReadEvent)
    → Less
        (record { reader = r; buffer = buf })
        (line_read (record { reader = r; buffer = buf }) (poll_read r))
unfolding line_read poll_read
line_read-Less [] [] = omega arith
line_read-Less (c ∷ cs) [] = omega arith
line_read-Less buf (wait ∷ r) = omega arith
line_read-Less buf (fail x ∷ r) = omega arith
line_read-Less buf (chunk b bs ∷ r) = omega arith

line_at-Less : (s : Pipe) (o : Option ℕ) → Less s (line_at s o)
unfolding line_at
line_at-Less s none = line_read-Less s.buffer s.reader
line_at-Less s (some pos) = omega arith

line_round-Less : (s : Pipe) (a : Chunk) → line_round s ≡ done a → events a.1 ≤ events s
unfolding line_round
line_round-Less s a e =
    let h : Less s (done a) = rw e at (line_at-Less s (position 10 s.buffer)) in h

chunk_read_le :
    (buf : Bytes) (r : List ReadEvent)
    → events (chunk_read (record { reader = r; buffer = buf }) (poll_read r)).1 ≤ length r
unfolding chunk_read poll_read
chunk_read_le [] [] = omega arith
chunk_read_le (c ∷ cs) [] = omega arith
chunk_read_le buf (wait ∷ r) = omega arith
chunk_read_le buf (fail x ∷ r) = omega arith
chunk_read_le buf (chunk b bs ∷ r) = omega arith

pub events-read_line_or_chunk :
    (lb : Bool) (s : Pipe) → events (read_line_or_chunk lb s).1 ≤ events s
unfolding read_line_or_chunk
events-read_line_or_chunk false s = chunk_read_le s.buffer s.reader
events-read_line_or_chunk true s =
    loop_induction (λ t a. events a.1 ≤ events t) (λ t. (pending, t)) line_round events
      line_round_falls line_round-Less
      (λ t t' a e h. let lower = line_round_falls t t' e in omega arith) s
