-- ===== src/Agent/Chunks/Broken.antt =====
-- `read_line_or_chunk` on a pipe that gives nothing more: what is buffered may come, but no end.
use minimal_vm_tool.Prelude.{
  ◌≡◌, sym, subst, Option, none, some, List, [], ◌∷◌, Bytes, Bool, true, false, newline, ℕ, follow,
  loop_lem,
}
use minimal_vm_tool.Outcome.{ok, err, pending, ready}
use minimal_vm_tool.Io.Rx.{ReadEvent, chunk, wait, fail, poll_read, position}
use minimal_vm_tool.Agent.Chunks.{
  Pipe, Chunk, line_round, line_at, line_read, chunk_read, events, read_line_or_chunk,
}
use minimal_vm_tool.Agent.Chunks.Pieces.{line_round_falls}

-- Polls that are pending, and then one that fails.
abbrev pub Blocked : List ReadEvent → Type 0
Blocked [] = ⊥
Blocked (chunk b bs ∷ r) = ⊥
Blocked (wait ∷ r) = Blocked r
Blocked (fail e ∷ r) = r ≡ []

-- A pipe that gives nothing more.
abbrev pub Doomed : Pipe → Type 0
Doomed p = Blocked p.reader

abbrev pub DoomedRead : Chunk → Type 0
DoomedRead (pending, p) = Doomed p
DoomedRead (ready (err e), p) = Unit
DoomedRead (ready (ok none), p) = ⊥
DoomedRead (ready (ok (some d)), p) = Doomed p

doomed_read :
    (buffer : Bytes) (r : List ReadEvent) (o : Option ℕ)
    → Blocked r
    → DoomedRead
        (follow (line_at (record { reader = r; buffer = buffer }) o) (read_line_or_chunk true))
unfolding line_at line_read poll_read
doomed_read buffer r (some pos) h = h
doomed_read buffer [] none h = absurd h
doomed_read buffer (chunk b bs ∷ r) none h = absurd h
doomed_read buffer (wait ∷ r) none h = h
doomed_read buffer (fail e ∷ r) none h = tt

chunk_read-DoomedRead :
    (buffer : Bytes) (r : List ReadEvent)
    → Blocked r
    → DoomedRead (chunk_read (record { reader = r; buffer = buffer }) (poll_read r))
unfolding chunk_read poll_read
chunk_read-DoomedRead buffer [] h = absurd h
chunk_read-DoomedRead buffer (chunk b bs ∷ r) h = absurd h
chunk_read-DoomedRead buffer (wait ∷ r) h = h
chunk_read-DoomedRead buffer (fail e ∷ r) h = tt

pub read_line_or_chunk-DoomedRead :
    (lb : Bool) (p : Pipe) → Doomed p → DoomedRead (read_line_or_chunk lb p)
unfolding read_line_or_chunk line_round
read_line_or_chunk-DoomedRead false p h = chunk_read-DoomedRead p.buffer p.reader h
read_line_or_chunk-DoomedRead true p h =
    subst DoomedRead (sym (loop_lem (λ t. (pending, t)) line_round events line_round_falls p))
      (doomed_read p.buffer p.reader (position newline p.buffer) h)
