-- ===== src/Agent/Session/Hearing.antt =====
-- What the agent does with the messages of the host in a session: the input that it gives to the child,
-- and the signals.
use minimal_vm_tool.Prelude.{◌≡◌, refl, subst, Option, List, [], ◌∷◌, ◌++◌, Bytes, Bool, false, ℕ}
use minimal_vm_tool.Outcome.{ok, err}
use minimal_vm_tool.Protocol.{Message, Kill, out_stream, err_stream, from_kill}
use minimal_vm_tool.Io.Rx.Recv.{SharedRx}
use minimal_vm_tool.Io.Rx.Recv.Mailbox.{Inbox}
use minimal_vm_tool.Io.Rx.Recv.Share.{wanted}
use minimal_vm_tool.Io.Tx.Handle.{Shared}
use minimal_vm_tool.Agent.Chunks.{Pipe}
use minimal_vm_tool.Agent.Process.{Process, KillCall}
use minimal_vm_tool.Agent.Process.Signals.{HasId}
use minimal_vm_tool.Agent.Tasks.{
  Env, Copy, Feed, waiting, writing, announcing, Watch, watching, reporting, feed_turn, copy_turn,
  watch_turn,
}
use minimal_vm_tool.Agent.Tasks.Hearing.{
  out_feed_apart, err_feed_apart, out_kill_apart, err_kill_apart, WritesAll, fed, feed_type,
  FeedHears, InOrder, FeedTurns, feed_turn-FeedTurns, CopyTurns, copy_turn-CopyTurns,
}
use minimal_vm_tool.Agent.Tasks.Killing.{
  KeepsId, AnswersSome, KilledLast, Kills, KillTurns, watch_turn-KillTurns,
}
use minimal_vm_tool.Agent.Session.{
  Session, Turn, stdin_turn, stdout_turn, stderr_turn, exit_turn, start, session_turn, run_turns,
}

module _ (E : Env) (W : WritesAll E) (L : KeepsId E) (total : Bytes) (pid : ℕ)
    (asked : List Kill) where
  -- The invariant of a session, by the mailbox that is left.
  pub record IsHearing (q : List Message) (s : Session E) : Type 0 where
    pub in_order : InOrder E s.rx q
    pub feeds : FeedHears E W total (wanted feed_type q) s.stdin_task
    pub kills_sent : Kills E L pid asked s.kills (wanted from_kill q) s.exit_task

  abbrev pub Heard : Session E → Type 0
  Heard s = (q : List Message) × IsHearing q s

  after_feed :
      (s : Session E) (q : List Message) (a : Feed E.Input × (Shared E.writer × SharedRx))
      → IsHearing q s
      → FeedTurns E W total q a
      → Heard (record s { stdin_task = a.0; tx = a.1.0; rx = a.1.1 })
  after_feed s q (t, (tx, rx)) v (q', o, f, k) = (
    q',
    record {
      in_order = o;
      feeds = f;
      kills_sent = subst (λ w. Kills E L pid asked s.kills w s.exit_task) k v.kills_sent;
    },
  )

  -- A copying task leaves what the others want, and their states.
  after_copy :
      (s : Session E) (out errors : Copy) (q : List Message) (t : Copy)
      (a : Shared E.writer × SharedRx)
      → IsHearing q s
      → CopyTurns E q (t, a)
      → Heard (record s { stdout_task = out; stderr_task = errors; tx = a.0; rx = a.1 })
  after_copy s out errors q t (tx, rx) v (q', o, f, k) = (
    q',
    record {
      in_order = o;
      feeds = subst (λ w. FeedHears E W total w s.stdin_task) f v.feeds;
      kills_sent = subst (λ w. Kills E L pid asked s.kills w s.exit_task) k v.kills_sent;
    },
  )

  after_watch :
      (s : Session E) (q : List Message)
      (a : (Watch E.child × List KillCall) × (Shared E.writer × SharedRx))
      → IsHearing q s
      → KillTurns E L pid asked s.kills q a
      → Heard (record s { exit_task = a.0.0; tx = a.1.0; rx = a.1.1; kills = s.kills ++ a.0.1 })
  after_watch s q ((t, more), (tx, rx)) v (q', o, k, f) = (
    q',
    record {
      in_order = o;
      feeds = subst (λ w. FeedHears E W total w s.stdin_task) f v.feeds;
      kills_sent = k;
    },
  )

  pub session_turn-Heard :
      (lb : Bool) (turn : Turn) (s : Session E) (q : List Message)
      → IsHearing q s
      → Heard (session_turn E lb turn s)
  unfolding session_turn
  session_turn-Heard lb stdin_turn s q v =
      after_feed s q (feed_turn E s.stdin_task s.tx s.rx) v
        (feed_turn-FeedTurns E W total s.stdin_task q s.tx s.rx v.in_order v.feeds)
  session_turn-Heard lb (stdout_turn b) s q v =
      let a = copy_turn E out_stream lb b s.stdout_task s.tx s.rx in
      after_copy s a.0 s.stderr_task q a.0 a.1 v (
        copy_turn-CopyTurns E out_stream out_feed_apart out_kill_apart lb b s.stdout_task q s.tx
          s.rx v.in_order)
  session_turn-Heard lb (stderr_turn b) s q v =
      let a = copy_turn E err_stream lb b s.stderr_task s.tx s.rx in
      after_copy s s.stdout_task a.0 q a.0 a.1 v (
        copy_turn-CopyTurns E err_stream err_feed_apart err_kill_apart lb b s.stderr_task q s.tx
          s.rx v.in_order)
  session_turn-Heard lb (exit_turn b) s q v =
      after_watch s q (watch_turn E b s.exit_task s.tx s.rx) v (
        watch_turn-KillTurns E L pid asked b s.exit_task s.kills q s.tx s.rx v.in_order
          v.kills_sent)

  run_turns-Heard :
      (lb : Bool) (turns : List Turn) (s : Session E) → Heard s → Heard (run_turns E lb turns s)
  unfolding run_turns
  run_turns-Heard lb [] s v = v
  run_turns-Heard lb (turn ∷ turns) s (q, v) =
      run_turns-Heard lb turns (session_turn E lb turn s) (session_turn-Heard lb turn s q v)

  -- What the child has been given: all of the input where the task is at its end, else a part of it.
  abbrev pub Given : Feed E.Input → Type 0
  Given (waiting i) = (rest : Bytes) × (W.given i ++ rest ≡ total)
  Given (writing i left) = (rest : Bytes) × (W.given i ++ (left ++ rest) ≡ total)
  Given (announcing i d) = W.given i ≡ total
  Given (Feed.ended i (ok _)) = W.given i ≡ total
  Given (Feed.ended i (err e)) = (rest : Bytes) × (W.given i ++ rest ≡ total)
  Given Feed.aborted = Unit

  -- The calls of kill(2): one for each of the first signals, in order, and a last one only where the
  -- task failed and its process was dropped.
  abbrev pub Signalled : List KillCall → Watch E.child → Type 0
  Signalled calls (watching w p) = AnswersSome E L pid asked calls
  Signalled calls (reporting p d) = AnswersSome E L pid asked calls
  Signalled calls (Watch.ended (ok _)) = AnswersSome E L pid asked calls
  Signalled calls (Watch.ended (err e)) = KilledLast E L pid asked calls
  Signalled calls Watch.aborted = Unit

  given : (w : List (Option Bytes)) (t : Feed E.Input) → FeedHears E W total w t → Given t
  given w (waiting i) h = (fed w, h)
  given w (writing i left) h = (fed w, h)
  given w (announcing i d) h = h
  given w (Feed.ended i (ok _)) h = h
  given w (Feed.ended i (err e)) h = h
  given w Feed.aborted h = h

  signalled :
      (calls : List KillCall) (w : List Kill) (t : Watch E.child)
      → Kills E L pid asked calls w t
      → Signalled calls t
  signalled calls w (watching wait p) (v, h, a) = (w, a)
  signalled calls w (reporting p d) (n, a) = a
  signalled calls w (Watch.ended (ok _)) a = a
  signalled calls w (Watch.ended (err e)) a = a
  signalled calls w Watch.aborted a = a

  abbrev pub Hears : Session E → Type 0
  Hears s = Given s.stdin_task × Signalled s.kills s.exit_task

  pub hears : (s : Session E) → Heard s → Hears s
  hears s (q, v) = (
    given (wanted feed_type q) s.stdin_task v.feeds,
    signalled s.kills (wanted from_kill q) s.exit_task v.kills_sent,
  )

-- Where write_all takes bytes in order and all of them where it succeeds, and a child keeps its pid
-- while it runs; and the mailbox holds given messages, the mutexes of the receiver and of the
-- process are in order, and the child has its pid now: whatever the turns of the four tasks of a
-- session are, the child has been given a start of the data of the input messages up to the first
-- Closed, all of it where the input task has come to its last message; and kill has been called
-- once for each of the first signals among the messages, in order and for that pid, with one more
-- call only where the exit task failed.
pub run_turns-Hears :
    (E : Env) (W : WritesAll E) (L : KeepsId E) (lb : Bool) (turns : List Turn)
    (tx : Shared E.writer) (rx : SharedRx) (input : E.Input) (out errors : Pipe)
    (process : Process E.child) (pid : ℕ) (q : List Message)
    → rx.broken ≡ false
    → Inbox E.from_slice rx.local q
    → HasId E.child pid process
    → process.held ≡ false
    → Hears E W L
        (W.given input ++ fed (wanted feed_type q))
        pid
        (wanted from_kill q)
        (run_turns E lb turns (start E tx rx input out errors process))
unfolding start
run_turns-Hears E W L lb turns tx rx input out errors process pid q b box v h =
    let total = W.given input ++ fed (wanted feed_type q) in
    let s = start E tx rx input out errors process in
    hears E W L total pid (wanted from_kill q) (run_turns E lb turns s) (
      run_turns-Heard E W L total pid (wanted from_kill q) lb turns s
        (q, record { in_order = (b, box); feeds = refl; kills_sent = (v, h, ([], refl, refl)) }))
