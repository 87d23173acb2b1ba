-- ===== src/Agent/Session/Speech.antt =====
-- What the agent says in a session: one order of messages, in which each task's are as they should be.
use minimal_vm_tool.Prelude.{◌≡◌, refl, sym, List, [], ◌∷◌, ◌++◌, append-nil, Bytes, Bool, inl, map}
use minimal_vm_tool.Prelude.Int.{ℤ}
use minimal_vm_tool.Outcome.{ok, err}
use minimal_vm_tool.Protocol.{
  Message, Stdio, data_of, closed, Stream, in_stream, out_stream, err_stream,
}
use minimal_vm_tool.Io.Writer.{Delivers}
use minimal_vm_tool.Io.Rx.Recv.{SharedRx}
use minimal_vm_tool.Io.Tx.Handle.{Shared}
use minimal_vm_tool.Io.Tx.Handle.Delivery.{output_of}
use minimal_vm_tool.Agent.Chunks.{Pipe}
use minimal_vm_tool.Agent.Chunks.Pieces.{output}
use minimal_vm_tool.Agent.Process.{Process}
use minimal_vm_tool.Agent.Tasks.{Env, Copy, Feed, Watch}
use minimal_vm_tool.Agent.Tasks.Sending.{on, Wired}
use minimal_vm_tool.Agent.Tasks.Copying.{
  SilentClosed, joined_bytes, Relayed, Copies, Copies-Relayed,
}
use minimal_vm_tool.Agent.Tasks.Feeding.{AtMostClosed, Feeds, Feeds-AtMostClosed}
use minimal_vm_tool.Agent.Tasks.Watching.{StatusOf, exits, AtMostOne, Watches, Watches-AtMostOne}
use minimal_vm_tool.Agent.Session.{Session, Turn, start, session_turn, run_turns}
use minimal_vm_tool.Agent.Session.Steps.{Spoken, session_turn-Spoken}

module _ (E : Env) (D : Delivers E.writer) (F : SilentClosed E) (base out errors : Bytes)
    (begun : Process E.child) where
  run_turns-Spoken :
      (lb : Bool) (turns : List Turn) (s : Session E)
      → Spoken E D F base out errors begun s
      → Spoken E D F base out errors begun (run_turns E lb turns s)
  unfolding run_turns
  run_turns-Spoken lb [] s v = v
  run_turns-Spoken lb (turn ∷ turns) s (log, v) =
      run_turns-Spoken lb turns (session_turn E lb turn s)
        (session_turn-Spoken E D F base out errors begun lb turn s log v)

  -- What has been sent of an output, by the state of its task: all of it where that has ended well.
  abbrev pub Told : Bytes → List Stdio → Copy → Type 0
  Told all sent (Copy.ended (ok _)) =
      (ds : List Bytes) × (joined_bytes ds ≡ all) × (sent ≡ map data_of ds ++ closed ∷ [])
  Told all sent (Copy.ended (err e)) = Relayed all sent
  Told all sent (Copy.selecting b p) = Relayed all sent
  Told all sent (Copy.passing p d) = Relayed all sent
  Told all sent (Copy.closing d) = Relayed all sent
  Told all sent Copy.aborted = ⊥

  told :
      (name : Stream) (all : Bytes) (sent : List Stdio) (t : Copy)
      → Copies E D F name all sent t
      → Told all sent t
  told name all sent (Copy.ended (ok _)) h = h
  told name all sent (Copy.ended (err e)) h = h
  told name all sent (Copy.selecting b p) h =
      Copies-Relayed E D F name all sent (Copy.selecting b p) h
  told name all sent (Copy.passing p d) h = Copies-Relayed E D F name all sent (Copy.passing p d) h
  told name all sent (Copy.closing d) h = Copies-Relayed E D F name all sent (Copy.closing d) h
  told name all sent Copy.aborted h = h

  -- The same of the end of the input, and of the exit status.
  abbrev pub Announced : List Stdio → Feed E.Input → Type 0
  Announced sent (Feed.ended i (ok _)) = sent ≡ closed ∷ []
  Announced sent (Feed.ended i (err e)) = AtMostClosed sent
  Announced sent (Feed.waiting i) = sent ≡ []
  Announced sent (Feed.writing i left) = sent ≡ []
  Announced sent (Feed.announcing i d) = AtMostClosed sent
  Announced sent Feed.aborted = ⊥

  announced : (sent : List Stdio) (t : Feed E.Input) → Feeds E D sent t → Announced sent t
  announced sent (Feed.ended i (ok _)) h = h
  announced sent (Feed.ended i (err e)) h = h
  announced sent (Feed.waiting i) h = h
  announced sent (Feed.writing i left) h = h
  announced sent (Feed.announcing i d) h = Feeds-AtMostClosed E D sent (Feed.announcing i d) h
  announced sent Feed.aborted h = h

  abbrev pub Reported : List ℤ → Watch E.child → Type 0
  Reported sent (Watch.ended (ok _)) =
      (status : ℤ) × StatusOf E.child begun.proc status × (sent ≡ status ∷ [])
  Reported sent (Watch.ended (err e)) = AtMostOne sent
  Reported sent (Watch.watching w p) = sent ≡ []
  Reported sent (Watch.reporting p d) = AtMostOne sent
  Reported sent Watch.aborted = ⊥

  reported : (sent : List ℤ) (t : Watch E.child) → Watches E D begun sent t → Reported sent t
  reported sent (Watch.ended (ok _)) h = h
  reported sent (Watch.ended (err e)) h = h
  reported sent (Watch.watching w p) h = h.0
  reported sent (Watch.reporting p d) h = Watches-AtMostOne E D begun sent (Watch.reporting p d) h
  reported sent Watch.aborted h = h

  -- The lines that the sender has put out are those of one list of messages.
  abbrev pub Speaks : Session E → Type 0
  Speaks s =
      (log : List Message) × Wired E D base log s.tx
      × Told out (on out_stream log) s.stdout_task
      × Told errors (on err_stream log) s.stderr_task
      × Announced (on in_stream log) s.stdin_task
      × Reported (exits log) s.exit_task

  speaks : (s : Session E) → Spoken E D F base out errors begun s → Speaks s
  speaks s (log, v) = (
    log,
    v.wired,
    told out_stream out (on out_stream log) s.stdout_task v.stdout_copies,
    told err_stream errors (on err_stream log) s.stderr_task v.stderr_copies,
    announced (on in_stream log) s.stdin_task v.stdin_feeds,
    reported (exits log) s.exit_task v.exit_watches,
  )

-- Where a writer delivers in order, and reads of a closed descriptor of an output give nothing:
-- whatever the turns of the four tasks of a session are, no task panics, and what the sender has
-- put out since the session began is the lines of one list of messages. Of each output it has a
-- start of the bytes in pieces, all of them and then Closed where the task has ended well; of the
-- input, its Closed exactly once where the input task has ended well; and one exit status, which
-- the waiting for the process comes to, where the exit task has.
pub run_turns-Speaks :
    (E : Env) (D : Delivers E.writer) (F : SilentClosed E) (lb : Bool) (turns : List Turn)
    (tx : Shared E.writer) (rx : SharedRx) (input : E.Input) (out errors : Pipe)
    (process : Process E.child)
    → Speaks E D F
        (output_of E.writer D tx.local)
        (output out)
        (output errors)
        process
        (run_turns E lb turns (start E tx rx input out errors process))
unfolding start
run_turns-Speaks E D F lb turns tx rx input out errors process =
    let base = output_of E.writer D tx.local in
    speaks E D F base (output out) (output errors) process
      (run_turns E lb turns (start E tx rx input out errors process))
      (run_turns-Spoken E D F base (output out) (output errors) process lb turns
        (start E tx rx input out errors process)
        (
          [],
          record {
            wired = ([], refl, sym (append-nil base));
            stdin_feeds = refl;
            stdout_copies = ([], [], refl, append-nil (output out), inl refl);
            stderr_copies = ([], [], refl, append-nil (output errors), inl refl);
            exit_watches = (refl, λ z h. h);
          },
        ))
