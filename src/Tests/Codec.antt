-- ===== src/Tests/Codec.antt =====
-- A codec of the exec protocol, for some of its messages.
use Prim.Native.String.{compare}
use text.Mathlib.Text.{is_eq}
use text.Mathlib.TextEquality.{eq_iff}
use minimal_vm_tool.Prelude.{
  String, Option, Bool, true, ap, ◌∙◌, sym, ℕ, ◌+◌, ◌-◌, ◌≡◌, ◌≢◌, refl, ap₂, false, some, none,
  List, [], ◌∷◌, Bytes, newline, arith, if◌then◌else◌, ◌==◌, map,
}
use minimal_vm_tool.Prelude.Int.{ℤ, pos, negsuc}
use minimal_vm_tool.Outcome.{plain, Result, ok, err}
use minimal_vm_tool.Protocol.{
  Exec, Message, exec, started, exited, kill, error, no_op, stdin, stdout, stderr, data_of, closed,
}
use minimal_vm_tool.Io.Rx.{position}
use minimal_vm_tool.Io.Wire.{IsCodec}

-- A tag, and bytes above that of a newline.
abbrev raised : Bytes → Bytes
raised bs = map (λ b. b + 11) bs

abbrev lowered : Bytes → Bytes
lowered bs = map (λ b. b - 11) bs

abbrev exited_line : ℤ → Result Bytes
exited_line (pos n) = ok (8 ∷ (n + 11) ∷ [])
exited_line (negsuc n) = ok (12 ∷ (n + 11) ∷ [])

abbrev pub command : Exec
command = record { prog = "cat"; args = []; pwd = none; user = none; line_buffered_io = none }

-- The one command that it serializes.
abbrev command_if : Bool → Result Bytes
command_if true = ok (7 ∷ [])
command_if false = err (plain "refused")

abbrev command_line :
    String → List String → Option String → Option String → Option Bool → Result Bytes
command_line prog [] none none none = command_if (is_eq (compare prog "cat"))
command_line prog args pwd user lb = err (plain "refused")

abbrev exec_line : Exec → Result Bytes
exec_line x = command_line x.prog x.args x.pwd x.user x.line_buffered_io

-- The one error that it serializes.
abbrev error_line : Bool → Result Bytes
error_line true = ok (9 ∷ [])
error_line false = err (plain "refused")

abbrev pub to_vec : Message → Result Bytes
to_vec (stdin closed) = ok (1 ∷ [])
to_vec (stdout closed) = ok (2 ∷ [])
to_vec (stderr closed) = ok (3 ∷ [])
to_vec (started s) = ok (4 ∷ (s.pid + 11) ∷ [])
to_vec (exec x) = exec_line x
to_vec (exited s) = exited_line s.status
to_vec (stdout (data_of bs)) = ok (5 ∷ raised bs)
to_vec (stdin (data_of bs)) = ok (6 ∷ raised bs)
to_vec (stderr (data_of bs)) = ok (13 ∷ raised bs)
to_vec (error x) = error_line (is_eq (compare x.message "failed"))
to_vec m = err (plain "refused")

abbrev started_from : Bytes → Result Message
started_from (n ∷ []) = ok (started (record { pid = n - 11 }))
started_from bs = err (plain "refused")

abbrev exited_from : Bytes → Result Message
exited_from (n ∷ []) = ok (exited (record { status = pos (n - 11) }))
exited_from bs = err (plain "refused")

abbrev signalled_from : Bytes → Result Message
signalled_from (n ∷ []) = ok (exited (record { status = negsuc (n - 11) }))
signalled_from bs = err (plain "refused")

abbrev tagged : ℕ → Bytes → Result Message
tagged t bs =
    if t == 1
    then ok (stdin closed)
    else if t == 2
    then ok (stdout closed)
    else if t == 3
    then ok (stderr closed)
    else if t == 4
    then started_from bs
    else if t == 5
    then ok (stdout (data_of (lowered bs)))
    else if t == 6
    then ok (stdin (data_of (lowered bs)))
    else if t == 7
    then ok (exec command)
    else if t == 8
    then exited_from bs
    else if t == 9
    then ok (error (record { message = "failed" }))
    else if t == 12
    then signalled_from bs
    else if t == 13
    then ok (stderr (data_of (lowered bs)))
    else err (plain "refused")

abbrev pub from_slice : Bytes → Result Message
from_slice [] = err (plain "refused")
from_slice (t ∷ bs) = tagged t bs

lowered-raised : (bs : Bytes) → lowered (raised bs) ≡ bs
lowered-raised [] = refl
lowered-raised (b ∷ bs) = ap₂ ◌∷◌ (omega arith) (lowered-raised bs)

raised_one_line : (bs : Bytes) → position newline (raised bs) ≡ none
unfolding position
raised_one_line [] = refl
raised_one_line (b ∷ bs) = ground (arith, raised_one_line bs)

reads_exited :
    (z : ℤ) (b : Bytes) → exited_line z ≡ ok b → from_slice b ≡ ok (exited (record { status = z }))
reads_exited (pos n) b e = ground arith
reads_exited (negsuc n) b e = ground arith

error_back :
    (text : String) (o : Bool) (b : Bytes)
    → is_eq (compare text "failed") ≡ o
    → error_line o ≡ ok b
    → (b ≡ 9 ∷ []) × (text ≡ "failed")
error_back text true b e h = (cc h, (eq_iff text "failed").0 e)
error_back text false b e h = absurd (cc h)

command_back :
    (prog : String) (o : Bool) (b : Bytes)
    → is_eq (compare prog "cat") ≡ o
    → command_if o ≡ ok b
    → (b ≡ 7 ∷ []) × (prog ≡ "cat")
command_back prog true b e h = (cc h, (eq_iff prog "cat").0 e)
command_back prog false b e h = absurd (cc h)

exec_back :
    (prog : String) (args : List String) (pwd user : Option String) (lb : Option Bool) (b : Bytes)
    → command_line prog args pwd user lb ≡ ok b
    → (b ≡ 7 ∷ [])
      × (record { prog = prog; args = args; pwd = pwd; user = user; line_buffered_io = lb }
          ≡ command)
exec_back prog [] none none none b e =
    let (line, same) = command_back prog (is_eq (compare prog "cat")) b refl e in
    (
      line,
      ap (λ p. record { prog = p; args = []; pwd = none; user = none; line_buffered_io = none })
          same,
    )
exec_back prog (a ∷ args) pwd user lb b e = absurd (cc e)
exec_back prog [] (some p) user lb b e = absurd (cc e)
exec_back prog [] none (some u) lb b e = absurd (cc e)
exec_back prog [] none none (some l) b e = absurd (cc e)

exec_line_back : (x : Exec) (b : Bytes) → exec_line x ≡ ok b → (b ≡ 7 ∷ []) × (x ≡ command)
exec_line_back x b e = exec_back x.prog x.args x.pwd x.user x.line_buffered_io b e

pub reads_back : (m : Message) (b : Bytes) → to_vec m ≡ ok b → from_slice b ≡ ok m
reads_back (stdin closed) b e = ground arith
reads_back (stdout closed) b e = ground arith
reads_back (stderr closed) b e = ground arith
reads_back (started s) b e = ground arith
reads_back (stdout (data_of bs)) b e = ground (arith, lowered-raised bs)
reads_back (stdin (data_of bs)) b e = ground (arith, lowered-raised bs)
reads_back (stderr (data_of bs)) b e = ground (arith, lowered-raised bs)
reads_back (exec x) b e =
    let (line, same) = exec_line_back x b e in ap from_slice line ∙ ap (λ c. ok (exec c)) (sym same)
reads_back (exited x) b e = reads_exited x.status b e
reads_back no_op b e = cc
reads_back (kill x) b e = cc
reads_back (error x) b e =
    let (line, same) = error_back x.message (is_eq (compare x.message "failed")) b refl e in
    ap from_slice line ∙ ap (λ t. ok (error (record { message = t }))) (sym same)

one_line_exited : (z : ℤ) (b : Bytes) → exited_line z ≡ ok b → position newline b ≡ none
unfolding position
one_line_exited (pos n) b e = ground arith
one_line_exited (negsuc n) b e = ground arith

pub one_line : (m : Message) (b : Bytes) → to_vec m ≡ ok b → position newline b ≡ none
unfolding position
one_line (stdin closed) b e = ground arith
one_line (stdout closed) b e = ground arith
one_line (stderr closed) b e = ground arith
one_line (started s) b e = ground arith
one_line (stdout (data_of bs)) b e = ground (arith, raised_one_line bs)
one_line (stdin (data_of bs)) b e = ground (arith, raised_one_line bs)
one_line (stderr (data_of bs)) b e = ground (arith, raised_one_line bs)
one_line (exec x) b e = ap (position newline) (exec_line_back x b e).0
one_line (exited x) b e = one_line_exited x.status b e
one_line (kill x) b e = cc
one_line (error x) b e =
    let (line, same) = error_back x.message (is_eq (compare x.message "failed")) b refl e in
    ap (position newline) line
one_line no_op b e = cc

not_empty_exited : (z : ℤ) (b : Bytes) → exited_line z ≡ ok b → b ≢ []
not_empty_exited (pos n) b e = ground arith
not_empty_exited (negsuc n) b e = ground arith

pub not_empty : (m : Message) (b : Bytes) → to_vec m ≡ ok b → b ≢ []
not_empty (stdin closed) b e = ground arith
not_empty (stdout closed) b e = ground arith
not_empty (stderr closed) b e = ground arith
not_empty (started s) b e = ground arith
not_empty (stdout (data_of bs)) b e = ground arith
not_empty (stdin (data_of bs)) b e = ground arith
not_empty (stderr (data_of bs)) b e = ground arith
not_empty (exec x) b e = let line = (exec_line_back x b e).0 in λ n. cc (line, n)
not_empty (exited x) b e = not_empty_exited x.status b e
not_empty (kill x) b e = cc
not_empty (error x) b e =
    let (line, same) = error_back x.message (is_eq (compare x.message "failed")) b refl e in
    λ n. cc (line, n)
not_empty no_op b e = cc

abbrev pub codec : IsCodec to_vec from_slice
codec = record { reads_back = reads_back; one_line = one_line; not_empty = not_empty }
