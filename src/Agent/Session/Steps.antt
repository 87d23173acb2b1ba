-- ===== src/Agent/Session/Steps.antt =====
-- The invariant of a session of the agent, by what it has said: each turn keeps it.
use minimal_vm_tool.Agent.Process.{Process}
use minimal_vm_tool.Prelude.{
  ◌≡◌, refl, ap, ◌∙◌, sym, subst, List, [], ◌∷◌, ◌++◌, append-nil, Bytes, Bool, ◌⊎◌, inl, inr,
}
use minimal_vm_tool.Prelude.Int.{ℤ}
use minimal_vm_tool.Protocol.{
  Message, Stdio, closed, Stream, in_stream, out_stream, err_stream, named,
}
use minimal_vm_tool.Io.Writer.{Delivers}
use minimal_vm_tool.Io.Rx.Recv.{SharedRx}
use minimal_vm_tool.Io.Tx.Handle.{Shared}
use minimal_vm_tool.Agent.Tasks.{
  Env, Copy, Feed, Watch, on_stream, copy_turn, feed_turn, watch_turn,
}
use minimal_vm_tool.Agent.Tasks.Sending.{on, on-append_other, Wired}
use minimal_vm_tool.Agent.Tasks.Copying.{SilentClosed, Copies}
use minimal_vm_tool.Agent.Tasks.Copying.Turns.{Moves, CopiesOf, copy_turn-Moves}
use minimal_vm_tool.Agent.Tasks.Feeding
use minimal_vm_tool.Agent.Tasks.Feeding.{
  AtMostClosed, Feeds, Feeds-AtMostClosed, FeedsOf, feed_turn-Moves,
}
use minimal_vm_tool.Agent.Tasks.Watching
use minimal_vm_tool.Agent.Tasks.Watching.{
  exits, exits-append, report, AtMostOne, Watches, Watches-AtMostOne, WatchesOf, watch_turn-Moves,
}
use minimal_vm_tool.Agent.Session.{
  Session, Turn, stdin_turn, stdout_turn, stderr_turn, exit_turn, session_turn,
}

-- A log that is the same, or has one more message.
abbrev Extends : {A : Type 0} → (A → Message) → List Message → List Message → Type 0
Extends {A} f log log' = (log' ≡ log) ⊎ ((a : A) × (log' ≡ log ++ f a ∷ []))

-- What does not see the messages of a task is the same after its turn.
unseen :
    {A X : Type 0} (P : X → Type 0) (view : List Message → X) (f : A → Message)
    (log log' : List Message)
    → ((a : A) → view (log ++ f a ∷ []) ≡ view log)
    → Extends f log log'
    → P (view log)
    → P (view log')
unseen P view f log log' e (inl h) p = subst (λ l. P (view l)) (sym h) p
unseen P view f log log' e (inr (a, h)) p = subst P (sym (ap view h ∙ e a)) p

exits_other :
    (log : List Message) (m : Message) → exits (m ∷ []) ≡ [] → exits (log ++ m ∷ []) ≡ exits log
exits_other log m e =
    exits-append log (m ∷ []) ∙ ap (λ x. exits log ++ x) e ∙ append-nil (exits log)

exits-on_stream :
    (name : Stream) (log : List Message) (s : Stdio)
    → exits (log ++ on_stream name s ∷ []) ≡ exits log
exits-on_stream in_stream log s = exits_other log (on_stream in_stream s) refl
exits-on_stream out_stream log s = exits_other log (on_stream out_stream s) refl
exits-on_stream err_stream log s = exits_other log (on_stream err_stream s) refl

on-report :
    (name : Stream) (log : List Message) (status : ℤ)
    → on name (log ++ report status ∷ []) ≡ on name log
unfolding named
on-report in_stream log status = on-append_other in_stream log (report status) refl
on-report out_stream log status = on-append_other out_stream log (report status) refl
on-report err_stream log status = on-append_other err_stream log (report status) refl

module _ (E : Env) (D : Delivers E.writer) (F : SilentClosed E) (base out errors : Bytes)
    (begun : Process E.child) where
  -- The invariant of a session, by what has been sent so far.
  pub record IsSession (log : List Message) (s : Session E) : Type 0 where
    pub wired : Wired E D base log s.tx
    pub stdin_feeds : FeedsOf E D log s.stdin_task
    pub stdout_copies : CopiesOf E D F out_stream out log s.stdout_task
    pub stderr_copies : CopiesOf E D F err_stream errors log s.stderr_task
    pub exit_watches : WatchesOf E D begun log s.exit_task

  abbrev pub Spoken : Session E → Type 0
  Spoken s = (log : List Message) × IsSession log s

  stdin_moved :
      (s : Session E) (log : List Message) (q : Feed E.Input × (Shared E.writer × SharedRx))
      → IsSession log s
      → Feeding.Moves E D base log q
      → Spoken (record s { stdin_task = q.0; tx = q.1.0; rx = q.1.1 })
  unfolding named
  stdin_moved s log (t, (tx, rx)) v (log', w, c, e) =
      let grown : Extends (λ (u : Unit {0}). on_stream in_stream closed) log log' = elim e [
        | inl h ↦ inl h
        | inr h ↦ inr (tt, h)
      ] in
      let say = λ (u : Unit {0}). on_stream in_stream closed in
      (
        log',
        record {
          wired = w;
          stdin_feeds = c;
          stdout_copies =
              unseen (λ x. Copies E D F out_stream out x s.stdout_task) (on out_stream) say log log'
                (λ u. on-append_other out_stream log (say u) refl) grown v.stdout_copies;
          stderr_copies =
              unseen (λ x. Copies E D F err_stream errors x s.stderr_task) (on err_stream) say log
                log' (λ u. on-append_other err_stream log (say u) refl) grown v.stderr_copies;
          exit_watches =
              unseen (λ x. Watches E D begun x s.exit_task) exits say log log'
                (λ u. exits-on_stream in_stream log closed) grown v.exit_watches;
        },
      )

  stdout_moved :
      (s : Session E) (log : List Message) (q : Copy × (Shared E.writer × SharedRx))
      → IsSession log s
      → Moves E D F out_stream out base log q
      → Spoken (record s { stdout_task = q.0; tx = q.1.0; rx = q.1.1 })
  unfolding named
  stdout_moved s log (t, (tx, rx)) v (log', w, c, e) = (
    log',
    record {
      wired = w;
      stdin_feeds =
          unseen (λ x. Feeds E D x s.stdin_task) (on in_stream) (on_stream out_stream) log log'
            (λ u. on-append_other in_stream log (on_stream out_stream u) refl) e v.stdin_feeds;
      stdout_copies = c;
      stderr_copies =
          unseen (λ x. Copies E D F err_stream errors x s.stderr_task) (on err_stream)
            (on_stream out_stream) log log'
            (λ u. on-append_other err_stream log (on_stream out_stream u) refl) e v.stderr_copies;
      exit_watches =
          unseen (λ x. Watches E D begun x s.exit_task) exits (on_stream out_stream) log log'
            (exits-on_stream out_stream log) e v.exit_watches;
    },
  )

  stderr_moved :
      (s : Session E) (log : List Message) (q : Copy × (Shared E.writer × SharedRx))
      → IsSession log s
      → Moves E D F err_stream errors base log q
      → Spoken (record s { stderr_task = q.0; tx = q.1.0; rx = q.1.1 })
  unfolding named
  stderr_moved s log (t, (tx, rx)) v (log', w, c, e) = (
    log',
    record {
      wired = w;
      stdin_feeds =
          unseen (λ x. Feeds E D x s.stdin_task) (on in_stream) (on_stream err_stream) log log'
            (λ u. on-append_other in_stream log (on_stream err_stream u) refl) e v.stdin_feeds;
      stdout_copies =
          unseen (λ x. Copies E D F out_stream out x s.stdout_task) (on out_stream)
            (on_stream err_stream) log log'
            (λ u. on-append_other out_stream log (on_stream err_stream u) refl) e v.stdout_copies;
      stderr_copies = c;
      exit_watches =
          unseen (λ x. Watches E D begun x s.exit_task) exits (on_stream err_stream) log log'
            (exits-on_stream err_stream log) e v.exit_watches;
    },
  )

  exit_moved :
      (s : Session E) (log : List Message)
      (q : (Watch E.child × List _) × (Shared E.writer × SharedRx))
      → IsSession log s
      → Watching.Moves E D begun base log q
      → Spoken (record s { exit_task = q.0.0; tx = q.1.0; rx = q.1.1; kills = s.kills ++ q.0.1 })
  exit_moved s log ((t, calls), (tx, rx)) v (log', w, c, e) = (
    log',
    record {
      wired = w;
      stdin_feeds =
          unseen (λ x. Feeds E D x s.stdin_task) (on in_stream) report log log'
            (on-report in_stream log) e v.stdin_feeds;
      stdout_copies =
          unseen (λ x. Copies E D F out_stream out x s.stdout_task) (on out_stream) report log log'
            (on-report out_stream log) e v.stdout_copies;
      stderr_copies =
          unseen (λ x. Copies E D F err_stream errors x s.stderr_task) (on err_stream) report log
            log' (on-report err_stream log) e v.stderr_copies;
      exit_watches = c;
    },
  )

  pub session_turn-Spoken :
      (lb : Bool) (turn : Turn) (s : Session E) (log : List Message)
      → IsSession log s
      → Spoken (session_turn E lb turn s)
  unfolding session_turn
  session_turn-Spoken lb stdin_turn s log v =
      stdin_moved s log (feed_turn E s.stdin_task s.tx s.rx) v
        (feed_turn-Moves E D s.stdin_task base log s.tx s.rx v.wired v.stdin_feeds)
  session_turn-Spoken lb (stdout_turn b) s log v =
      stdout_moved s log (copy_turn E out_stream lb b s.stdout_task s.tx s.rx) v (
        copy_turn-Moves E D F out_stream out lb b s.stdout_task base log s.tx s.rx v.wired
          v.stdout_copies)
  session_turn-Spoken lb (stderr_turn b) s log v =
      stderr_moved s log (copy_turn E err_stream lb b s.stderr_task s.tx s.rx) v (
        copy_turn-Moves E D F err_stream errors lb b s.stderr_task base log s.tx s.rx v.wired
          v.stderr_copies)
  session_turn-Spoken lb (exit_turn b) s log v =
      exit_moved s log (watch_turn E b s.exit_task s.tx s.rx) v
        (watch_turn-Moves E D begun b s.exit_task base log s.tx s.rx v.wired v.exit_watches)
