-- ===== src/Agent/Main.antt =====
-- `main` of agent/src/main.rs: it receives an `Exec`, spawns its process, says `Started`, runs the
-- session, and ends the connection.
pub mod Story
pub mod Turns
pub mod Conversation
pub mod Heard
pub mod Children
pub mod Hosting
pub mod Obedience
pub mod Closing
pub mod Phases
pub mod Serving
pub mod Ends
pub mod Whole
pub mod Tells
pub mod Telling
pub mod Unfailed
pub mod Good
pub mod Account
use minimal_vm_tool.Prelude.{ℕ, String, Bool, true, false, Option, none, some, List, [], ◌∷◌}
use minimal_vm_tool.Outcome.{
  Error, plain, context, with_context, Result, ok, err, Poll, pending, ready, ◌>>=◌,
}
use minimal_vm_tool.Protocol.{Exec, from_exec, Message, started, error}
use minimal_vm_tool.Io.Rx.{ReadEvent}
use minimal_vm_tool.Io.Rx.Recv.{SharedRx, shared_recv}
use minimal_vm_tool.Io.Tx.Handle.{
  Shared, DoSend, flush_all, poll_do_send, CloseState, poll_close_tx,
}
use minimal_vm_tool.Agent.Chunks.{Pipe}
use minimal_vm_tool.Agent.Process.{Process, running}
use minimal_vm_tool.Agent.Spawn.{Kernel, Command, ok_or, command_of}
use minimal_vm_tool.Agent.Tasks.{Env, Copy, Feed, Watch, send_one, Sent, after_send}
use minimal_vm_tool.Agent.Session.{Session, Turn, start, session_turn}

-- What `command.spawn()` gives: `tokio::process::Child`.
pub record Spawned (E : Env) : Type 0 where
  pub child : E.child.Child
  pub stdin : Option E.Input
  pub stdout : Option (List ReadEvent)
  pub stderr : Option (List ReadEvent)

-- `process::Child`, its outputs with the buffers that `main` makes for them.
pub record Child (E : Env) : Type 0 where
  pub pid : ℕ
  pub process : Process E.child
  pub input : E.Input
  pub output : Pipe
  pub errors : Pipe

-- The rest of what `main` uses: the kernel and the agent's user id, `command.spawn()`, and the text of
-- an error. The last flush and shutdown of the closed connection, whose results are ignored, are left
-- out.
pub record Host (E : Env) : Type 0 where
  pub kernel : Kernel
  pub uid : ℕ
  pub spawn_command : Command → Result (Spawned E)
  pub to_string : Error → String

-- Where `main` is: at `rx.recv()`, at the send of `Started`, in the session, at the send of `Error`, at
-- the flush, at the close, and after it, with the connection where it was closed well.
pub data Main (E : Env) : Type 0 where
  expecting : Shared E.writer → SharedRx → Main E
  greeting : Bool → DoSend → Session E → Main E
  serving : Bool → Session E → Main E
  apologizing : DoSend → Shared E.writer → Main E
  flushing : DoSend → Shared E.writer → Main E
  closing : CloseState E.writer → Shared E.writer → Main E
  gone : Option (E.writer.Conn) → Shared E.writer → Main E
  aborted : Shared E.writer → Main E

abbrev pub copy_result : Copy → Option (Result (Unit {0}))
copy_result (Copy.ended r) = some r
copy_result (Copy.selecting b p) = none
copy_result (Copy.passing p d) = none
copy_result (Copy.closing d) = none
copy_result Copy.aborted = none

abbrev pub feed_result : {I : Type 0} → Feed I → Option (Result (Unit {0}))
feed_result (Feed.ended i r) = some r
feed_result (Feed.waiting i) = none
feed_result (Feed.writing i left) = none
feed_result (Feed.announcing i d) = none
feed_result Feed.aborted = none

module _ (E : Env) where
  abbrev pub watch_result : Watch E.child → Option (Result (Unit {0}))
  watch_result (Watch.ended r) = some r
  watch_result (Watch.watching w p) = none
  watch_result (Watch.reporting p d) = none
  watch_result Watch.aborted = none

  -- `tokio::join!`, and then the `?` on its results.
  unfoldable pub joined :
      Option (Result (Unit {0}))
      → Option (Result (Unit {0}))
      → Option (Result (Unit {0}))
      → Option (Result (Unit {0}))
      → Option (Result (Unit {0}))
  joined (some exit) (some stdin) (some stdout) (some stderr) =
      some (exit >>= λ _. stdin >>= λ _. stdout >>= λ _. stderr)
  joined _ _ _ _ = none

  unfoldable pub joined_session : Session E → Option (Result (Unit {0}))
  unfolding joined
  joined_session s =
      joined (watch_result s.exit_task) (feed_result s.stdin_task) (copy_result s.stdout_task)
        (copy_result s.stderr_task)

  module _ (H : Host E) where
    -- The end of `process::spawn`, from `child.id()` on: `unwrap_or(0)`, and the three `take`s.
    unfoldable pub pid_of : Option ℕ → ℕ
    pid_of (some pid) = pid
    pid_of none = 0

    unfoldable pub child_of : Spawned E → Result (Child E)
    unfolding pid_of
    child_of s = do
      stdin ← ok_or s.stdin (plain "Failed to capture child stdin")
      stdout ← ok_or s.stdout (plain "Failed to capture child stdout")
      stderr ← ok_or s.stderr (plain "Failed to capture child stderr")
      ok (record {
        pid = pid_of (E.child.id s.child);
        process = record {
          pid = pid_of (E.child.id s.child);
          held = false;
          proc = running s.child;
        };
        input = stdin;
        output = record { reader = stdout; buffer = [] };
        errors = record { reader = stderr; buffer = [] };
      })

    -- `process::spawn`.
    unfoldable pub spawn : Exec → Result (Child E)
    unfolding child_of
    spawn exec = do
      command ← command_of H.kernel H.uid exec
      s ← with_context "Failed to spawn child process" (H.spawn_command command)
      child_of s

    -- The `match` on the status of the `async` block.
    unfoldable pub concluded : Result (Unit {0}) → Shared E.writer → Main E
    concluded (ok _) tx = flushing flush_all tx
    concluded (err e) tx = apologizing (send_one E (error (record { message = H.to_string e }))) tx

    -- `spawn` and the send of `Started`, at an `Exec`. The buffering is `unwrap_or(true)`.
    pub buffered : Option Bool → Bool
    buffered (some b) = b
    buffered none = true

    unfoldable pub spawned : Exec → Shared E.writer → SharedRx → Result (Child E) → Main E
    unfolding concluded buffered
    spawned exec tx rx (err e) =
        concluded (err (plain (E.format_debug "Failed to spawn child" e))) tx
    spawned exec tx rx (ok c) =
        greeting (buffered exec.line_buffered_io) (send_one E (started (record { pid = c.pid })))
          (start E tx rx c.input c.output c.errors c.process)

    unfoldable pub expected : Shared E.writer → SharedRx → Poll (Result (Option Exec)) → Main E
    unfolding spawned concluded
    expected tx rx pending = expecting tx rx
    expected tx rx (ready (err e)) = concluded (err e) tx
    expected tx rx (ready (ok none)) = concluded (err (plain "Connection closed")) tx
    expected tx rx (ready (ok (some exec))) = spawned exec tx rx (spawn exec)

    unfoldable pub greeted : Bool → Session E → Shared E.writer → Result (Unit {0}) → Main E
    unfolding concluded
    greeted lb s tx (ok _) = serving lb (record s { tx = tx })
    greeted lb s tx (err e) = concluded (err e) tx

    unfoldable pub served : Bool → Session E → Option (Result (Unit {0})) → Main E
    unfolding concluded
    served lb s none = serving lb s
    served lb s (some r) = concluded r s.tx

    unfoldable pub greeting_polled : Bool → Session E → Sent E.writer → Main E
    unfolding greeted
    greeting_polled lb s none = aborted s.tx
    greeting_polled lb s (some (pending, (tx, d))) = greeting lb d (record s { tx = tx })
    greeting_polled lb s (some (ready r, (tx, d))) = greeted lb s tx r

    -- The results of the last send and of the flush are ignored.
    unfoldable pub apologizing_polled : Shared E.writer → Sent E.writer → Main E
    apologizing_polled tx none = aborted tx
    apologizing_polled tx (some (pending, (tx', d))) = apologizing d tx'
    apologizing_polled tx (some (ready r, (tx', d))) = flushing flush_all tx'

    unfoldable pub flushing_polled : Shared E.writer → Sent E.writer → Main E
    flushing_polled tx none = aborted tx
    flushing_polled tx (some (pending, (tx', d))) = flushing d tx'
    flushing_polled tx (some (ready r, (tx', d))) = closing CloseState.flushing tx'

    unfoldable pub closing_polled :
        Poll (Result (E.writer.Conn)) × (CloseState E.writer × Shared E.writer) → Main E
    closing_polled (pending, (c, tx)) = closing c tx
    closing_polled (ready (ok w), (c, tx)) = gone (some w) tx
    closing_polled (ready (err e), (c, tx)) = gone none tx

    -- A poll of `main` where it awaits. In a session it is the poll of a task.
    unfoldable pub main_turn : Turn → Main E → Main E
    unfolding expected greeting_polled apologizing_polled flushing_polled closing_polled served
        joined_session
    main_turn turn (expecting tx rx) =
        let (r, rx') = shared_recv from_exec E.from_slice rx in expected tx rx' r
    main_turn turn (greeting lb d s) = greeting_polled lb s (poll_do_send E.writer d s.tx)
    main_turn turn (serving lb s) =
        let s' = session_turn E lb turn s in served lb s' (joined_session s')
    main_turn turn (apologizing d tx) = apologizing_polled tx (poll_do_send E.writer d tx)
    main_turn turn (flushing d tx) = flushing_polled tx (poll_do_send E.writer d tx)
    main_turn turn (closing c tx) = closing_polled (poll_close_tx E.writer c tx)
    main_turn turn (gone w tx) = gone w tx
    main_turn turn (aborted tx) = aborted tx

    unfoldable pub run_main : List Turn → Main E → Main E
    unfolding main_turn
    run_main [] m = m
    run_main (turn ∷ turns) m = run_main turns (main_turn turn m)
