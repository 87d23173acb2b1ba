-- ===== src/Agent/Tasks.antt =====
-- The four tasks that `main` of agent/src/main.rs joins. A task is the `await` that it is at, and a
-- turn of it is one poll of what it awaits there. In a `select!` the turn says which branch is polled.
pub mod Sending
pub mod Copying
pub mod Feeding
pub mod Watching
pub mod Hearing
pub mod Killing
use minimal_vm_tool.Prelude.{
  ℕ, Bool, true, false, Option, none, some, List, [], ◌∷◌, ◌++◌, Bytes, String,
}
use minimal_vm_tool.Prelude.Int.{ℤ}
use minimal_vm_tool.Outcome.{Error, plain, context, Result, ok, err, Poll, pending, ready}
use minimal_vm_tool.Protocol.{
  Message, stdin, stdout, stderr, exited, Stdio, data_of, closed, Kill, from_kill, Stream,
  in_stream, out_stream, err_stream, from_stdio, from_bytes_or_closed,
}
use minimal_vm_tool.Io.Writer.{Writer}
use minimal_vm_tool.Io.Rx.{ReadEvent}
use minimal_vm_tool.Io.Rx.Recv.{SharedRx, shared_recv}
use minimal_vm_tool.Io.Tx.Handle.{Shared, DoSend, send, send_and_flush, poll_do_send}
use minimal_vm_tool.Agent.Chunks.{Pipe, Chunk, read_line_or_chunk}
use minimal_vm_tool.Agent.Process.{
  Os, KillCall, Process, Wait, locking, signal, poll_wait, drop_wait, drop_process,
}

-- What the tasks use of other crates: the connection, the child and its standard input (with
-- `write_all`, which is given what is left to write), serde_json, `format!` of a text and an error in
-- `{:?}`, and `close` of a descriptor, with what later polls of the pipe return.
pub record Env : Type 1 where
  pub writer : Writer
  pub child : Os
  pub Input : Type 0
  pub write_all : Input → Bytes → Poll (Result (Unit {0})) × (Input × Bytes)
  pub to_vec : Message → Result Bytes
  pub describe : Message → String
  pub from_slice : Bytes → Result Message
  pub format_debug : String → Error → String
  pub close_fd : List ReadEvent → Result (Unit {0}) × List ReadEvent

-- `Message::Stdin`, `Message::Stdout` and `Message::Stderr`.
abbrev pub on_stream : Stream → Stdio → Message
on_stream in_stream s = stdin s
on_stream out_stream s = stdout s
on_stream err_stream s = stderr s

abbrev pub closing_message : Stream → String
closing_message in_stream = "closing stdin"
closing_message out_stream = "closing stdout"
closing_message err_stream = "closing stderr"

-- The branches of a `select!`: the task's own work, and `rx.recv()`.
pub data Branch : Type 0 where
  works receives : Branch

-- `stdout` and `stderr`. At the `select!`, whether the branch of `rx.recv()` is enabled; at the send
-- of data; at the send of the end. `aborted` is a panic.
pub data Copy : Type 0 where
  selecting : Bool → Pipe → Copy
  passing : Pipe → DoSend → Copy
  closing : DoSend → Copy
  ended : Result (Unit {0}) → Copy
  aborted : Copy

-- `stdin`: at `rx.recv()`, at `write_all` with what is left of the data, and at the send of the end.
-- The input of the child is there until the task has ended, which drops it.
pub data Feed (I : Type 0) : Type 0 where
  waiting : I → Feed I
  writing : I → Bytes → Feed I
  announcing : I → DoSend → Feed I
  ended : I → Result (Unit {0}) → Feed I
  aborted : Feed I

-- `exit`: at the `select!`, with the future of `process.wait()`; and at the send of the status.
pub data Watch (V : Os) : Type 0 where
  watching : Wait → Process V → Watch V
  reporting : Process V → DoSend → Watch V
  ended : Result (Unit {0}) → Watch V
  aborted : Watch V

abbrev pub Sent : Writer → Type 0
Sent V = Option (Poll (Result (Unit {0})) × (Shared V × DoSend))

-- Where a task goes from a send, and the sender as the poll left it.
abbrev pub after_send :
    {V : Writer} {T : Type 0}
    → Sent V
    → Shared V
    → T
    → (DoSend → T)
    → (Result (Unit {0}) → T)
    → T × Shared V
after_send none tx panic stay go = (panic, tx)
after_send (some (pending, (tx', d))) tx panic stay go = (stay d, tx')
after_send (some (ready r, (tx', d))) tx panic stay go = (go r, tx')

module _ (E : Env) where
  open E use {writer, child, Input}

  -- `tx.send(&[m])` and `tx.send_and_flush(&[m])`.
  abbrev pub send_one : Message → DoSend
  send_one m = send E.to_vec E.describe (m ∷ [])

  abbrev pub send_last : Message → DoSend
  send_last m = send_and_flush E.to_vec E.describe (m ∷ [])

  -- The branch of `read_line_or_chunk`.
  unfoldable pub copy_read : Stream → Bool → Chunk → Copy
  copy_read name enabled (pending, p) = selecting enabled p
  copy_read name enabled (ready (err e), p) = ended (err e)
  copy_read name enabled (ready (ok none), p) = closing (send_last (on_stream name closed))
  copy_read name enabled (ready (ok (some d)), p) =
      passing p (send_one (on_stream name (data_of d)))

  unfoldable pub closed_fd : Stream → Pipe → Result (Unit {0}) × List ReadEvent → Copy
  closed_fd name p (ok _, r) = selecting true (record p { reader = r })
  closed_fd name p (err e, r) = ended (err (plain (E.format_debug (closing_message name) e)))

  -- The branch of `rx.recv()`: another result than `Closed` disables it.
  unfoldable pub copy_received : Stream → Pipe → Poll (Result (Option Stdio)) → Copy
  unfolding closed_fd
  copy_received name p pending = selecting true p
  copy_received name p (ready (err e)) = selecting false p
  copy_received name p (ready (ok none)) = selecting false p
  copy_received name p (ready (ok (some (data_of d)))) = selecting false p
  copy_received name p (ready (ok (some closed))) = closed_fd name p (E.close_fd p.reader)

  unfoldable pub copy_passed : Pipe → Result (Unit {0}) → Copy
  copy_passed p (ok _) = selecting true p
  copy_passed p (err e) = ended (err e)

  -- A turn of `stdout` or `stderr`.
  unfoldable pub copy_turn :
      Stream → Bool → Branch → Copy → Shared writer → SharedRx → Copy × (Shared writer × SharedRx)
  unfolding copy_read copy_received copy_passed
  copy_turn name lb works (selecting enabled p) tx rx =
      (copy_read name enabled (read_line_or_chunk lb p), (tx, rx))
  copy_turn name lb receives (selecting true p) tx rx =
      let (r, rx') = shared_recv (from_stdio name) E.from_slice rx in
      (copy_received name p r, (tx, rx'))
  copy_turn name lb receives (selecting false p) tx rx = (selecting false p, (tx, rx))
  copy_turn name lb branch (passing p d) tx rx =
      let (t, tx') = after_send (poll_do_send writer d tx) tx aborted (passing p) (copy_passed p) in
      (t, (tx', rx))
  copy_turn name lb branch (closing d) tx rx =
      let (t, tx') = after_send (poll_do_send writer d tx) tx aborted closing ended in
      (t, (tx', rx))
  copy_turn name lb branch (ended r) tx rx = (ended r, (tx, rx))
  copy_turn name lb branch aborted tx rx = (aborted, (tx, rx))

  -- The `while let` of `stdin`.
  unfoldable pub feed_received : Input → Poll (Result (Option (Option Bytes))) → Feed Input
  feed_received i pending = waiting i
  feed_received i (ready (err e)) = ended i (err e)
  feed_received i (ready (ok none)) = announcing i (send_last (stdin closed))
  feed_received i (ready (ok (some none))) = announcing i (send_last (stdin closed))
  feed_received i (ready (ok (some (some bytes)))) = writing i bytes

  unfoldable pub feed_written : Poll (Result (Unit {0})) × (Input × Bytes) → Feed Input
  feed_written (pending, (i, left)) = writing i left
  feed_written (ready (err e), (i, left)) = ended i (err e)
  feed_written (ready (ok _), (i, left)) = waiting i

  -- A turn of `stdin`.
  unfoldable pub feed_turn :
      Feed Input → Shared writer → SharedRx → Feed Input × (Shared writer × SharedRx)
  unfolding feed_received feed_written
  feed_turn (waiting i) tx rx =
      let (r, rx') = shared_recv (from_bytes_or_closed in_stream) E.from_slice rx in
      (feed_received i r, (tx, rx'))
  feed_turn (writing i left) tx rx = (feed_written (E.write_all i left), (tx, rx))
  feed_turn (announcing i d) tx rx =
      let (t, tx') = after_send (poll_do_send writer d tx) tx aborted (announcing i) (ended i) in
      (t, (tx', rx))
  feed_turn (ended i r) tx rx = (ended i r, (tx, rx))
  feed_turn aborted tx rx = (aborted, (tx, rx))

  -- The end of `exit` drops its `Process`.
  unfoldable pub watch_ended : Process child → Result (Unit {0}) → Watch child × List KillCall
  watch_ended p r = (ended r, (drop_process child p).0)

  -- The branch of `process.wait()`.
  unfoldable pub watch_waited :
      Poll (Result ℤ) × (Wait × Process child) → Watch child × List KillCall
  unfolding watch_ended
  watch_waited (pending, (w, p)) = (watching w p, [])
  watch_waited (ready (err e), (w, p)) = watch_ended p (err e)
  watch_waited (ready (ok status), (w, p)) =
      (reporting p (send_last (exited (record { status = status }))), [])

  -- The branch of `rx.recv()`, after the future of `process.wait()` has been dropped.
  unfoldable pub watch_received :
      Wait → Process child → Poll (Result (Option Kill)) → Watch child × List KillCall
  unfolding watch_ended
  watch_received w p pending = (watching w p, [])
  watch_received w p (ready (err e)) = watch_ended (drop_wait child w p) (err e)
  watch_received w p (ready (ok none)) = (watching locking (drop_wait child w p), [])
  watch_received w p (ready (ok (some k))) =
      let p' = drop_wait child w p in (watching locking p', signal child p' k.signal)

  unfoldable pub watch_reported : Process child → Watch child → Watch child × List KillCall
  unfolding watch_ended
  watch_reported p (ended r) = watch_ended p r
  watch_reported p other = (other, [])

  -- A turn of `exit`, with the calls of kill(2) that it makes.
  unfoldable pub watch_turn :
      Branch
      → Watch child
      → Shared writer
      → SharedRx
      → (Watch child × List KillCall) × (Shared writer × SharedRx)
  unfolding watch_waited watch_received watch_reported
  watch_turn works (watching w p) tx rx = (watch_waited (poll_wait child w p), (tx, rx))
  watch_turn receives (watching w p) tx rx =
      let (r, rx') = shared_recv from_kill E.from_slice rx in (watch_received w p r, (tx, rx'))
  watch_turn branch (reporting p d) tx rx =
      let (t, tx') = after_send (poll_do_send writer d tx) tx aborted (reporting p) ended in
      (watch_reported p t, (tx', rx))
  watch_turn branch (ended r) tx rx = ((ended r, []), (tx, rx))
  watch_turn branch aborted tx rx = ((aborted, []), (tx, rx))
