-- ===== src/Agent/Chunks/Pieces.antt =====
-- `read_line_or_chunk` cuts the output of a process into pieces, and loses none of it.
use minimal_vm_tool.Prelude.{
  ℕ, zero, suc, ◌≤◌, ◌<◌, ◌≡◌, ◌≢◌, refl, ap, ◌∙◌, sym, subst, ◌⊎◌, inl, inr, Bool, true, false,
  Option, none, some, List, [], ◌∷◌, ◌++◌, append_assoc, drop, take, length, take-append-drop,
  arith, Bytes, newline, Flow, again, done, loop_induction,
}
use minimal_vm_tool.Outcome.{Error, ok, err, pending, ready}
use minimal_vm_tool.Io.Rx.{ReadEvent, chunk, wait, fail, poll_read, position}
use minimal_vm_tool.Io.Rx.Lines.{position-lt}
use minimal_vm_tool.Io.Rx.Reads.{content}
use minimal_vm_tool.Agent.Chunks.{
  Pipe, Chunk, line_read, line_at, line_round, chunk_read, events, read_line_or_chunk,
}

-- The output that has not been passed on.
abbrev pub output : Pipe → Bytes
output s = s.buffer ++ content s.reader

-- A line with its newline and no other, or the end of the output, which has no newline.
abbrev pub IsLine : Bytes → Pipe → Type 0
IsLine d s' =
    ((ix : ℕ) × (position newline d ≡ some ix) × (length d ≡ suc ix))
    ⊎ ((position newline d ≡ none) × (output s' ≡ []))

abbrev pub IsPiece : Bool → Bytes → Pipe → Type 0
IsPiece true d s' = IsLine d s'
IsPiece false d s' = Unit

-- What a poll may come to.
pub data Cuts (line_buffered : Bool) (s : Pipe) : Chunk → Type 0 where
  gives :
      (d : Bytes) (s' : Pipe)
      → output s ≡ d ++ output s'
      → d ≢ []
      → IsPiece line_buffered d s'
      → Cuts line_buffered s (ready (ok (some d)), s')
  ended : (s' : Pipe) → output s ≡ [] → output s' ≡ [] → Cuts line_buffered s (ready (ok none), s')
  waits :
      (s' : Pipe) → output s ≡ output s' → events s' < events s → Cuts line_buffered s (pending, s')
  fails :
      (e : Error) (s' : Pipe)
      → output s ≡ output s'
      → events s' < events s
      → Cuts line_buffered s (ready (err e), s')

position-take :
    (bs : Bytes) (ix : ℕ)
    → position newline bs ≡ some ix
    → position newline (take (suc ix) bs) ≡ some ix
unfolding position
position-take [] ix e = absurd (cc e)
position-take (c ∷ cs) zero e = ground arith
position-take (c ∷ cs) (suc ix) e = ground (arith, position-take cs ix)

length-take : (bs : Bytes) (n : ℕ) → n ≤ length bs → length (take n bs) ≡ n
length-take bs zero h = refl
length-take [] (suc n) h = omega arith
length-take (c ∷ cs) (suc n) h = omega (arith, length-take cs n)

Cuts-carry :
    {b : Bool} (s t : Pipe) {a : Chunk}
    → output s ≡ output t
    → events t ≤ events s
    → Cuts b t a
    → Cuts b s a
Cuts-carry s t e h (gives d s' p n l) = gives d s' (e ∙ p) n l
Cuts-carry s t e h (ended s' p q) = ended s' (e ∙ p) q
Cuts-carry s t e h (waits s' p q) = waits s' (e ∙ p) (omega arith)
Cuts-carry s t e h (fails x s' p q) = fails x s' (e ∙ p) (omega arith)

abbrev Round : Pipe → Flow Pipe Chunk → Type 0
Round s (again s') = (output s ≡ output s') × (events s' < events s)
Round s (done a) = Cuts true s a

cons_ne_nil : {c : ℕ} {cs : Bytes} → (c ∷ cs) ≢ []
cons_ne_nil = λ e. absurd (cc e)

line_read-Round :
    (buf : Bytes) (r : List ReadEvent)
    → position newline buf ≡ none
    → Round
        (record { reader = r; buffer = buf })
        (line_read (record { reader = r; buffer = buf }) (poll_read r))
unfolding line_read poll_read
line_read-Round [] [] e = ended (record { reader = []; buffer = [] }) refl refl
line_read-Round (c ∷ cs) [] e =
    gives (c ∷ cs) (record { reader = []; buffer = [] }) refl cons_ne_nil (inr (e, refl))
line_read-Round buf (wait ∷ r) e = waits (record { reader = r; buffer = buf }) refl (omega arith)
line_read-Round buf (fail x ∷ r) e =
    fails x (record { reader = r; buffer = buf }) refl (omega arith)
line_read-Round buf (chunk b bs ∷ r) e = (sym (append_assoc buf (b ∷ bs) (content r)), omega arith)

line_at-Round : (s : Pipe) (o : Option ℕ) → position newline s.buffer ≡ o → Round s (line_at s o)
unfolding line_at
line_at-Round s none e = line_read-Round s.buffer s.reader e
line_at-Round s (some pos) e =
    let d = take (suc pos) s.buffer in
    let ends = position-take s.buffer pos e in
    let long = length-take s.buffer (suc pos) (position-lt s.buffer pos e) in
    gives d (record s { buffer = drop (suc pos) s.buffer })
      (ap (λ b. b ++ content s.reader) (sym (take-append-drop (suc pos) s.buffer))
        ∙ append_assoc d (drop (suc pos) s.buffer) (content s.reader))
      (λ n. absurd (omega (arith, long, ap length n))) (inl (pos, ends, long))

line_round-Round : (s : Pipe) (f : Flow Pipe Chunk) → line_round s ≡ f → Round s f
unfolding line_round
line_round-Round s f e = subst (Round s) e (line_at-Round s (position newline s.buffer) refl)

pub line_round_falls : (s s' : Pipe) → line_round s ≡ again s' → events s' < events s
line_round_falls s s' e = (line_round-Round s (again s') e).1

chunk_read-Cuts :
    (buf : Bytes) (r : List ReadEvent)
    → Cuts false
        (record { reader = r; buffer = buf })
        (chunk_read (record { reader = r; buffer = buf }) (poll_read r))
unfolding chunk_read poll_read
chunk_read-Cuts [] [] = ended (record { reader = []; buffer = [] }) refl refl
chunk_read-Cuts (c ∷ cs) [] =
    gives (c ∷ cs) (record { reader = []; buffer = [] }) refl cons_ne_nil tt
chunk_read-Cuts buf (wait ∷ r) = waits (record { reader = r; buffer = buf }) refl (omega arith)
chunk_read-Cuts buf (fail x ∷ r) = fails x (record { reader = r; buffer = buf }) refl (omega arith)
chunk_read-Cuts [] (chunk b bs ∷ r) =
    gives (b ∷ bs) (record { reader = r; buffer = [] }) refl cons_ne_nil tt
chunk_read-Cuts (c ∷ cs) (chunk b bs ∷ r) =
    gives (c ∷ cs ++ b ∷ bs) (record { reader = r; buffer = [] })
      (sym (append_assoc (c ∷ cs) (b ∷ bs) (content r))) cons_ne_nil tt

-- A poll of read_line_or_chunk gives a piece of the output that is not empty, which is a line with
-- its newline, or the end of the output without one, where lines are asked for; or it ends, with no
-- output left; or it waits, or fails on a read error, with the output as it was and a poll of the
-- pipe less to come. A piece and what is left are the output before.
pub read_line_or_chunk-Cuts :
    (line_buffered : Bool) (s : Pipe) → Cuts line_buffered s (read_line_or_chunk line_buffered s)
unfolding read_line_or_chunk
read_line_or_chunk-Cuts false s = chunk_read-Cuts s.buffer s.reader
read_line_or_chunk-Cuts true s =
    loop_induction (Cuts true) (λ t. (pending, t)) line_round events line_round_falls
      (λ t a e. line_round-Round t (done a) e)
      (λ t t' a e h.
        let step = line_round-Round t (again t') e in
        let lower = step.1 in Cuts-carry t t' step.0 (omega arith) h)
      s
