-- ===== src/Agent/Chunks/Intact.antt =====
-- `read_line_or_chunk` on a pipe that does not fail.
use minimal_vm_tool.Prelude.{
  ℕ, ◌≡◌, subst, Bool, true, false, Option, none, some, List, [], ◌∷◌, Bytes, Flow, again, done,
  newline, loop_induction,
}
use minimal_vm_tool.Outcome.{ok, err, pending, ready}
use minimal_vm_tool.Io.Rx.{ReadEvent, chunk, wait, fail, poll_read, position}
use minimal_vm_tool.Io.Rx.Recv.Steady.{Calm}
use minimal_vm_tool.Agent.Chunks.{
  Pipe, Chunk, line_read, line_at, line_round, chunk_read, events, read_line_or_chunk,
}
use minimal_vm_tool.Agent.Chunks.Pieces.{line_round_falls}

-- A read of such a pipe does not fail, and leaves such a pipe.
abbrev pub Intact : Chunk → Type 0
Intact (ready (err e), p) = ⊥
Intact (ready (ok o), p) = Calm Unit p.reader
Intact (pending, p) = Calm Unit p.reader

abbrev IntactRound : Flow Pipe Chunk → Type 0
IntactRound (again p) = Calm Unit p.reader
IntactRound (done a) = Intact a

line_read-Intact :
    (buf : Bytes) (r : List ReadEvent)
    → Calm Unit r
    → IntactRound (line_read (record { reader = r; buffer = buf }) (poll_read r))
unfolding line_read poll_read
line_read-Intact [] [] h = h
line_read-Intact (c ∷ cs) [] h = h
line_read-Intact buf (wait ∷ r) h = h.1
line_read-Intact buf (fail x ∷ r) h = absurd h
line_read-Intact buf (chunk b bs ∷ r) h = h

line_at-Intact : (s : Pipe) (o : Option ℕ) → Calm Unit s.reader → IntactRound (line_at s o)
unfolding line_at
line_at-Intact s none h = line_read-Intact s.buffer s.reader h
line_at-Intact s (some pos) h = h

line_round-Intact :
    (s : Pipe) (f : Flow Pipe Chunk) → line_round s ≡ f → Calm Unit s.reader → IntactRound f
unfolding line_round
line_round-Intact s f e h = subst IntactRound e (line_at-Intact s (position newline s.buffer) h)

chunk_read-Intact :
    (buf : Bytes) (r : List ReadEvent)
    → Calm Unit r
    → Intact (chunk_read (record { reader = r; buffer = buf }) (poll_read r))
unfolding chunk_read poll_read
chunk_read-Intact [] [] h = h
chunk_read-Intact (c ∷ cs) [] h = h
chunk_read-Intact buf (wait ∷ r) h = h.1
chunk_read-Intact buf (fail x ∷ r) h = absurd h
chunk_read-Intact buf (chunk b bs ∷ r) h = h

pub read_line_or_chunk-Intact :
    (lb : Bool) (s : Pipe) → Calm Unit s.reader → Intact (read_line_or_chunk lb s)
unfolding read_line_or_chunk
read_line_or_chunk-Intact false s h = chunk_read-Intact s.buffer s.reader h
read_line_or_chunk-Intact true s h =
    loop_induction (λ t a. Calm Unit t.reader → Intact a) (λ t. (pending, t)) line_round events
      line_round_falls (λ t a e h. line_round-Intact t (done a) e h)
      (λ t t' a e ih h. ih (line_round-Intact t (again t') e h)) s h
