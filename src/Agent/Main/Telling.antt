-- ===== src/Agent/Main/Telling.antt =====
-- Each turn of `main` keeps what `Tells` says, and so does its run.
use minimal_vm_tool.Prelude.{ℕ, ◌≡◌, refl, none, some, List, [], ◌∷◌, Bytes, inr}
use minimal_vm_tool.Outcome.{Error, ok}
use minimal_vm_tool.Protocol.{from_exec}
use minimal_vm_tool.Io.Rx.Recv.{shared_recv}
use minimal_vm_tool.Io.Tx.Output.{frame}
use minimal_vm_tool.Io.Tx.Handle.{poll_do_send, poll_close_tx}
use minimal_vm_tool.Io.Tx.Handle.Delivery.{frames}
use minimal_vm_tool.Io.Tx.Handle.Closed.{poll_close_tx-ClosePoll}
use minimal_vm_tool.Io.Tx.Handle.Single.{poll_do_send-Rests}
use minimal_vm_tool.Agent.Chunks.Pieces.{output}
use minimal_vm_tool.Agent.Tasks.{Env}
use minimal_vm_tool.Agent.Tasks.Sending.{poll_do_send-Posts}
use minimal_vm_tool.Agent.Session.{Turn, session_turn}
use minimal_vm_tool.Agent.Session.Steps.{session_turn-Spoken}
use minimal_vm_tool.Agent.Prompt.{Prompts}
use minimal_vm_tool.Agent.Main.{
  Child, Host, Main, expecting, greeting, serving, apologizing, flushing, closing, gone, aborted,
  joined_session, main_turn, run_main,
}
use minimal_vm_tool.Agent.Main.Story.{hello, sorry}
use minimal_vm_tool.Agent.Main.Turns.{posts}
use minimal_vm_tool.Agent.Tasks.Copying.{SilentClosed}
use minimal_vm_tool.Agent.Main.Whole.{Bearing, Apologizing}
use minimal_vm_tool.Agent.Main.Phases.{Bounded, Phase}
use minimal_vm_tool.Agent.Main.Ends.{main_turn-Phase}
use minimal_vm_tool.Agent.Prompt.Loaded.{goes_through}
use minimal_vm_tool.Agent.Main.Tells.{
  Tells, expected-Tells, greeting_polled-Tells, served-Tells, apologized-Tells, flushed-Tells,
  closed-Tells,
}

module _ (E : Env) (H : Host E) (Q : Prompts E) (F : SilentClosed E) (A : Type 0)
    (B : Child E → Type 0)
    (says : A → (e : Error) → (b : Bytes) × (E.to_vec (sorry E H e) ≡ ok b)) where
  module _ (most : ℕ) (bounded : Bounded E H Q most) where
    main_turn-Tells :
        (k : ℕ) (turn : Turn) (m : Main E)
        → Phase E H Q most bounded k m
        → Tells E H Q F A B says m
        → (Apologizing E (main_turn E H turn m) → A)
        → Bearing E H B m
        → Tells E H Q F A B says (main_turn E H turn m)
    unfolding main_turn
    main_turn-Tells k turn (expecting tx rx) h w a u =
        let q = shared_recv from_exec E.from_slice rx in
        expected-Tells E H Q F A B says tx q.1 q.0 w a u
    main_turn-Tells k turn (greeting lb d s) h (exec, c, i, m, st, p) a u =
        greeting_polled-Tells E H Q F A B says lb exec c s (poll_do_send E.writer d s.tx) i st
          (posts E H Q.delivers F [] (hello E H c) s.tx d p) m a
    main_turn-Tells k turn (serving lb s) h (exec, c, i, m, b, e, (log, v)) a u =
        let s' = session_turn E lb turn s in
        served-Tells E H Q F A B says lb exec c b s' (joined_session E s') refl i m e
          (session_turn-Spoken E Q.delivers F (frame (some b)) (output c.output) (output c.errors)
            c.process lb turn s log v)
          a
    main_turn-Tells k turn (apologizing d tx) h (a, before, e, t, l, w) _ u =
        let (tx', d', _, through) = goes_through E Q d tx (l.0, l.2) h.0 in
        apologized-Tells E H Q F A B says before e tx (poll_do_send E.writer d tx) t
          (poll_do_send-Posts E Q.delivers [] before (sorry E H e) tx d w (inr l))
          ((tx', d'), through) a
    main_turn-Tells k turn (flushing d tx) h (t, v) a u =
        flushed-Tells E H Q F A B says tx (poll_do_send E.writer d tx) v
          (poll_do_send-Rests E.writer Q.delivers tx d t)
    main_turn-Tells k turn (closing c tx) h (log, ss, t, e, v) a u =
        closed-Tells E H Q F A B says log ss (poll_close_tx E.writer c tx) t e
          (poll_close_tx-ClosePoll E.writer Q.delivers (frames ss) c tx v)
    main_turn-Tells k turn (gone (some w) tx) h v a u = v
    main_turn-Tells k turn (gone none tx) h v a u = v
    main_turn-Tells k turn (aborted tx) h v a u = v

    -- Along turns that keep `I`, under which `main` sends its `Error` only where `A` is so.
    pub run_main-Tells :
        (I : Main E → Type 0)
        → ((turn : Turn) (m : Main E) → I m → I (main_turn E H turn m))
        → ((m : Main E) → I m → Apologizing E m → A)
        → ((m : Main E) → I m → Bearing E H B m)
        → (k : ℕ) (turns : List Turn) (m : Main E) → Phase E H Q most bounded k m
        → Tells E H Q F A B says m
        → I m
        → Tells E H Q F A B says (run_main E H turns m)
    unfolding run_main
    run_main-Tells I keeps may bears k [] m h v i = v
    run_main-Tells I keeps may bears k (turn ∷ turns) m h v i =
        let i' = keeps turn m i in
        run_main-Tells I keeps may bears k turns (main_turn E H turn m)
          (main_turn-Phase E H Q most bounded k turn m h)
          (main_turn-Tells k turn m h v (may (main_turn E H turn m) i') (bears m i)) i'
