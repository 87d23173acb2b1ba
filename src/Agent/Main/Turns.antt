-- ===== src/Agent/Main/Turns.antt =====
-- Each turn of `main` keeps the invariant of its states.
use minimal_vm_tool.Prelude.{
  ◌≡◌, refl, ap, ◌∙◌, Option, none, some, List, [], ◌∷◌, ◌++◌, append-nil, Bytes, Bool, ◌⊎◌, inl,
  inr,
}
use minimal_vm_tool.Outcome.{Error, Result, ok, err, Poll, pending, ready}
use minimal_vm_tool.Protocol.{Message, Exec, from_exec, in_stream, out_stream, err_stream}
use minimal_vm_tool.Io.Writer.{Delivers}
use minimal_vm_tool.Io.Rx.Recv.{SharedRx, shared_recv}
use minimal_vm_tool.Io.Tx.{Sending}
use minimal_vm_tool.Io.Tx.Output.{frame}
use minimal_vm_tool.Io.Tx.Handle.{
  Shared, DoSend, flush_all, poll_do_send, CloseState, poll_close_tx,
}
use minimal_vm_tool.Io.Tx.Handle.Delivery.{frames}
use minimal_vm_tool.Io.Tx.Handle.Closed.{ClosePoll, poll_close_tx-ClosePoll}
use minimal_vm_tool.Io.Tx.Handle.Prepare.{serialized}
use minimal_vm_tool.Io.Tx.Handle.Single.{Taken, Rests, poll_do_send-Rests}
use minimal_vm_tool.Agent.Chunks.Pieces.{output}
use minimal_vm_tool.Agent.Tasks.{Env, Sent}
use minimal_vm_tool.Agent.Tasks.Sending.{on, Wired, Outgoing, Posts, poll_do_send-Posts}
use minimal_vm_tool.Agent.Tasks.Copying.{SilentClosed, so_far, Copies-Relayed}
use minimal_vm_tool.Agent.Tasks.Feeding.{Feeds-AtMostClosed}
use minimal_vm_tool.Agent.Tasks.Watching.{exits, Watches-AtMostOne}
use minimal_vm_tool.Agent.Session.{Session, Turn, start, session_turn}
use minimal_vm_tool.Agent.Session.Steps.{IsSession, Spoken, session_turn-Spoken}
use minimal_vm_tool.Agent.Main.{
  Child, Host, Main, expecting, greeting, serving, apologizing, flushing, closing, gone, aborted,
  greeted, served, greeting_polled, apologizing_polled, flushing_polled, closing_polled,
  joined_session, main_turn, run_main,
}
use minimal_vm_tool.Agent.Main.Story.{
  IsChildOf, Talks, hello, sorry, Story, silent, opened, Told, Says, IsMain, Wired-cons, said_one,
  concluded_err, concluded_at, expected-IsMain, session_begins,
}

module _ (E : Env) (H : Host E) (D : Delivers E.writer) (F : SilentClosed E) where
  -- A session that has not sent anything.
  pub quiet : (c : Child E) → Talks E H c []
  quiet c = (so_far [] (output c.output) refl, so_far [] (output c.errors) refl, inl refl, inl refl)

  pub begins_again :
      (c : Child E) (s : Session E) (tx : Shared E.writer)
      → ((tx₀ : Shared E.writer) × (rx : SharedRx) × (s
            ≡ start E tx₀ rx c.input c.output c.errors c.process))
      → (tx₁ : Shared E.writer) × (rx : SharedRx) × (record s { tx = tx }
          ≡ start E tx₁ rx c.input c.output c.errors c.process)
  unfolding start
  begins_again c s tx (tx₀, rx, h) = (tx, rx, ap (λ (x : Session E). record x { tx = tx }) h)

  -- `Started` is what has been put out.
  pub starts :
      (c : Child E) (s : Session E) (tx : Shared E.writer)
      → ((tx₀ : Shared E.writer) × (rx : SharedRx) × (s
            ≡ start E tx₀ rx c.input c.output c.errors c.process))
      → Wired E D [] (hello E H c ∷ []) tx
      → (b : Bytes) × (E.to_vec (hello E H c) ≡ ok b)
        × Spoken E D F
            (frame (some b))
            (output c.output)
            (output c.errors)
            c.process
            (record s { tx = tx })
  starts c s tx st (ss, e, o) =
      let (b, to, one) = said_one E H D F (hello E H c) (E.to_vec (hello E H c)) ss refl e in
      (b, to, session_begins E H D F c s tx st b (o ∙ ap frames one ∙ append-nil (frame (some b))))

  greeting_ends :
      (lb : Bool) (exec : Exec) (c : Child E) (s : Session E) (tx : Shared E.writer)
      (r : Result (Unit {0}))
      → IsChildOf E H exec c
      → ((tx₀ : Shared E.writer) × (rx : SharedRx) × (s
            ≡ start E tx₀ rx c.input c.output c.errors c.process))
      → Wired E D [] (hello E H c ∷ []) tx
      → IsMain E H D F (greeted E H lb s tx r)
  unfolding greeted
  greeting_ends lb exec c s tx (ok _) h st w =
      let (b, to, spoken) = starts c s tx st w in (exec, c, h, b, to, spoken)
  greeting_ends lb exec c s tx (err e) h st w =
      concluded_err E H D F (hello E H c ∷ []) e tx (opened exec c [] h (quiet c)) w

  greeting_polled-IsMain :
      (lb : Bool) (exec : Exec) (c : Child E) (s : Session E) (o : Sent E.writer)
      → IsChildOf E H exec c
      → ((tx : Shared E.writer) × (rx : SharedRx) × (s
            ≡ start E tx rx c.input c.output c.errors c.process))
      → Posts E D [] [] (hello E H c) o
      → IsMain E H D F (greeting_polled E H lb s o)
  unfolding greeting_polled greeted
  greeting_polled-IsMain lb exec c s none h st p = p
  greeting_polled-IsMain lb exec c s (some (pending, (tx, d))) h st (inl (w, i, u)) =
      (exec, c, h, begins_again c s tx st, inl (i, w))
  greeting_polled-IsMain lb exec c s (some (ready (err e), (tx, d))) h st (inl (w, i, u)) =
      concluded_err E H D F [] e tx silent w
  greeting_polled-IsMain lb exec c s (some (ready (ok _), (tx, d))) h st (inl (w, i, u)) = absurd u
  greeting_polled-IsMain lb exec c s (some (pending, (tx, d))) h st (inr (w, t)) =
      (exec, c, h, begins_again c s tx st, inr (t, w))
  greeting_polled-IsMain lb exec c s (some (ready r, (tx, d))) h st (inr (w, t)) =
      greeting_ends lb exec c s tx r h st w

  -- A poll of a send that has been taken leaves it taken.
  Posts-of_Rests :
      (log : List Message) (m : Message) (tx : Shared E.writer) (o : Sent E.writer)
      → Wired E D [] (log ++ m ∷ []) tx
      → Rests E.writer D tx o
      → Posts E D [] log m o
  Posts-of_Rests log m tx none w h = h
  Posts-of_Rests log m tx (some (r, (tx', d))) (ss, e, o) (t, same) = inr ((ss, e, same ∙ o), t)

  -- What a poll of a send leaves, by whether the message has been taken.
  pub posts :
      (log : List Message) (m : Message) (tx : Shared E.writer) (d : DoSend)
      → ((Outgoing E D m d × Wired E D [] log tx)
          ⊎ (Taken d.msgs × Wired E D [] (log ++ m ∷ []) tx))
      → Posts E D [] log m (poll_do_send E.writer d tx)
  posts log m tx d (inl (i, w)) = poll_do_send-Posts E D [] log m tx d w i
  posts log m tx d (inr (t, w)) =
      Posts-of_Rests log m tx (poll_do_send E.writer d tx) w (poll_do_send-Rests E.writer D tx d t)

  pub session_Talks :
      (c : Child E) (base : Bytes) (log : List Message) (s : Session E)
      → IsSession E D F base (output c.output) (output c.errors) c.process log s
      → Talks E H c log
  session_Talks c base log s v = (
    Copies-Relayed E D F out_stream (output c.output) (on out_stream log) s.stdout_task
        v.stdout_copies,
    Copies-Relayed E D F err_stream (output c.errors) (on err_stream log) s.stderr_task
        v.stderr_copies,
    Feeds-AtMostClosed E D (on in_stream log) s.stdin_task v.stdin_feeds,
    Watches-AtMostOne E D c.process (exits log) s.exit_task v.exit_watches,
  )

  served-IsMain :
      (lb : Bool) (exec : Exec) (c : Child E) (b : Bytes) (s : Session E)
      (r : Option (Result (Unit {0})))
      → IsChildOf E H exec c
      → E.to_vec (hello E H c) ≡ ok b
      → Spoken E D F (frame (some b)) (output c.output) (output c.errors) c.process s
      → IsMain E H D F (served E H lb s r)
  unfolding served
  served-IsMain lb exec c b s none h e v = (exec, c, h, b, e, v)
  served-IsMain lb exec c b s (some r) h e (log, v) =
      concluded_at E H D F (hello E H c ∷ log) r s.tx
        (opened exec c log h (session_Talks c (frame (some b)) log s v))
        (Wired-cons E H D F (hello E H c) b log s.tx e v.wired)

  apologizing_polled-IsMain :
      (before : List Message) (e : Error) (tx : Shared E.writer) (o : Sent E.writer)
      → Story E H before
      → Posts E D [] before (sorry E H e) o
      → IsMain E H D F (apologizing_polled E H tx o)
  unfolding apologizing_polled flush_all
  apologizing_polled-IsMain before e tx none t p = p
  apologizing_polled-IsMain before e tx (some (pending, (tx', d))) t (inl (w, i, u)) =
      (before, e, t, inl (i, w))
  apologizing_polled-IsMain before e tx (some (pending, (tx', d))) t (inr (w, k)) =
      (before, e, t, inr (k, w))
  apologizing_polled-IsMain before e tx (some (ready r, (tx', d))) t (inl (w, i, u)) =
      (inr refl, (before, inl t, w))
  apologizing_polled-IsMain before e tx (some (ready r, (tx', d))) t (inr (w, k)) =
      (inr refl, (before ++ sorry E H e ∷ [], inr (before, e, t, refl), w))

  flushing_polled-IsMain :
      (tx : Shared E.writer) (o : Sent E.writer)
      → Says E H D F (Told E H) tx
      → Rests E.writer D tx o
      → IsMain E H D F (flushing_polled E H tx o)
  unfolding flushing_polled
  flushing_polled-IsMain tx none v h = h
  flushing_polled-IsMain tx (some (pending, (tx', d))) (log, t, (ss, e, o)) (k, same) =
      (k, (log, t, (ss, e, same ∙ o)))
  flushing_polled-IsMain tx (some (ready r, (tx', d))) (log, t, (ss, e, o)) (k, same) =
      (log, ss, t, e, same ∙ o)

  closing_polled-IsMain :
      (log : List Message) (ss : List Sending)
      (q : Poll (Result (E.writer.Conn)) × (CloseState E.writer × Shared E.writer))
      → Told E H log
      → serialized E.to_vec E.describe log ≡ ok ss
      → ClosePoll E.writer D (frames ss) q
      → IsMain E H D F (closing_polled E H q)
  unfolding closing_polled
  closing_polled-IsMain log ss (pending, (c, tx)) t e h = (log, ss, t, e, h)
  closing_polled-IsMain log ss (ready (ok w), (c, tx)) t e h = (log, ss, t, e, h.0)
  closing_polled-IsMain log ss (ready (err x), (c, tx)) t e h = tt

  pub main_turn-IsMain :
      (turn : Turn) (m : Main E) → IsMain E H D F m → IsMain E H D F (main_turn E H turn m)
  unfolding main_turn
  main_turn-IsMain turn (expecting tx rx) w =
      let q = shared_recv from_exec E.from_slice rx in expected-IsMain E H D F tx q.1 q.0 w
  main_turn-IsMain turn (greeting lb d s) (exec, c, h, st, p) =
      greeting_polled-IsMain lb exec c s (poll_do_send E.writer d s.tx) h st
        (posts [] (hello E H c) s.tx d p)
  main_turn-IsMain turn (serving lb s) (exec, c, h, b, e, (log, v)) =
      let s' = session_turn E lb turn s in
      served-IsMain lb exec c b s' (joined_session E s') h e (
        session_turn-Spoken E D F (frame (some b)) (output c.output) (output c.errors) c.process lb
          turn s log v)
  main_turn-IsMain turn (apologizing d tx) (before, e, t, p) =
      apologizing_polled-IsMain before e tx (poll_do_send E.writer d tx) t
        (posts before (sorry E H e) tx d p)
  main_turn-IsMain turn (flushing d tx) (k, v) =
      flushing_polled-IsMain tx (poll_do_send E.writer d tx) v
        (poll_do_send-Rests E.writer D tx d k)
  main_turn-IsMain turn (closing c tx) (log, ss, t, e, h) =
      closing_polled-IsMain log ss (poll_close_tx E.writer c tx) t e
        (poll_close_tx-ClosePoll E.writer D (frames ss) c tx h)
  main_turn-IsMain turn (gone (some w) tx) v = v
  main_turn-IsMain turn (gone none tx) v = v
  main_turn-IsMain turn (aborted tx) v = v

  pub run_main-IsMain :
      (turns : List Turn) (m : Main E) → IsMain E H D F m → IsMain E H D F (run_main E H turns m)
  unfolding run_main
  run_main-IsMain [] m v = v
  run_main-IsMain (turn ∷ turns) m v =
      run_main-IsMain turns (main_turn E H turn m) (main_turn-IsMain turn m v)
