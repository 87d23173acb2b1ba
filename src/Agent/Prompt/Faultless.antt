-- ===== src/Agent/Prompt/Faultless.antt =====
-- A session in which no task fails: each of its turns keeps that, and its end is a good one.
use minimal_vm_tool.Prelude.{
  if◌then◌else◌, ◌≢◌, refl, Bool, true, false, Option, none, some, List, Bytes,
}
use minimal_vm_tool.Prelude.Int.{ℤ}
use minimal_vm_tool.Outcome.{Error, Result, ok, err, Poll, pending, ready}
use minimal_vm_tool.Protocol.{
  Message, exited, stdin, closed, Kill, from_kill, in_stream, out_stream, err_stream,
  from_bytes_or_closed,
}
use minimal_vm_tool.Protocol.Kinds.{all_give_back}
use minimal_vm_tool.Io.Rx.Recv.{SharedRx, shared_recv}
use minimal_vm_tool.Io.Rx.Recv.Held.{Each, select-Took, Gets, shared_recv-Gets}
use minimal_vm_tool.Io.Tx.Handle.{Shared}
use minimal_vm_tool.Agent.Process.{
  Slot, running, finished, Process, Wait, locking, waiting, waited, guarded, poll_wait, drop_wait,
  KillCall,
}
use minimal_vm_tool.Agent.Tasks.{
  Env, Branch, works, receives, Feed, Watch, announcing, writing, watching, reporting,
  feed_received, feed_written, feed_turn, watch_waited, watch_received, watch_reported, watch_ended,
  watch_turn,
}
use minimal_vm_tool.Agent.Prompt.{Prompts, Healthy}
use minimal_vm_tool.Agent.Prompt.Loaded.{after_send_through}
use minimal_vm_tool.Agent.Prompt.Sound.{
  NoFaults, CopySound, FeedSound, SlotSound, WatchSound, Post, Sound, After, Loaded-last,
  copy_turn-Sound,
}
use minimal_vm_tool.Agent.Prompt.Mail.{Allowed}
use minimal_vm_tool.Agent.Session.{
  Session, Turn, stdin_turn, stdout_turn, stderr_turn, exit_turn, session_turn,
}

module _ (E : Env) (Q : Prompts E) (N : NoFaults E) where
  feed_received-Sound :
      (i : E.Input) (q : List Message) (a : Poll (Result (Option (Option Bytes))) × SharedRx)
      → Each Allowed q
      → Gets E.from_slice (from_bytes_or_closed in_stream) q a
      → FeedSound (feed_received E i a.0) × Post E Q N a.1
  unfolding feed_received
  feed_received-Sound i q (pending, rx) h g = (tt, (q, g, h))
  feed_received-Sound i q (ready (err e), rx) h g = absurd g
  feed_received-Sound i q (ready (ok none), rx) h (_, g) =
      (Loaded-last E Q N (stdin closed) tt, (q, g, h))
  feed_received-Sound i q (ready (ok (some none)), rx) h (rest, e, g) = (
    Loaded-last E Q N (stdin closed) tt,
    (rest, g, (select-Took (from_bytes_or_closed in_stream) Allowed q none rest h e).1),
  )
  feed_received-Sound i q (ready (ok (some (some bytes))), rx) h (rest, e, g) = (
    tt,
    (rest, g, (select-Took (from_bytes_or_closed in_stream) Allowed q (some bytes) rest h e).1),
  )

  feed_written-Sound :
      (r : Poll (Result (Unit {0})) × (E.Input × Bytes))
      → ((e : Error) → r.0 ≢ ready (err e))
      → FeedSound (feed_written E r)
  unfolding feed_written
  feed_written-Sound (pending, (i, left)) h = tt
  feed_written-Sound (ready (err e), (i, left)) h = absurd (h e refl)
  feed_written-Sound (ready (ok _), (i, left)) h = tt

  pub feed_turn-Sound :
      (t : Feed E.Input) (tx : Shared E.writer) (rx : SharedRx)
      → Sound E Q N FeedSound (t, (tx, rx))
      → Sound E Q N FeedSound (feed_turn E t tx rx)
  unfolding feed_turn
  feed_turn-Sound (Feed.waiting i) tx rx (s, v, (q, h, a)) =
      let (t, r) =
        feed_received-Sound i q (shared_recv (from_bytes_or_closed in_stream) E.from_slice rx) a (
          shared_recv-Gets E.from_slice (from_bytes_or_closed in_stream)
            (all_give_back.bytes_or_closed_back in_stream) rx q h) in
      (t, v, r)
  feed_turn-Sound (writing i left) tx rx (s, v, h) =
      (feed_written-Sound (E.write_all i left) (N.takes i left), v, h)
  feed_turn-Sound (announcing i d) tx rx (l, v, h) =
      let (t, v') =
        after_send_through E Q (After E Q N FeedSound) d tx Feed.aborted (announcing i)
          (Feed.ended i) l v (λ tx' v'. (tt, v')) in
      (t, v', h)
  feed_turn-Sound (Feed.ended i r) tx rx h = h
  feed_turn-Sound Feed.aborted tx rx h = h

  -- A wait that does not fail.
  abbrev Waited : Poll (Result ℤ) × (Wait × Process E.child) → Type 0
  Waited (pending, (w, p)) = SlotSound p.proc
  Waited (ready (ok z), (w, p)) = Unit
  Waited (ready (err e), (w, p)) = ⊥

  waited-Waited :
      (p : Process E.child) (r : Poll (Result ℤ) × E.child.Child)
      → ((e : Error) → r.0 ≢ ready (err e))
      → Waited (waited E.child p r)
  unfolding waited
  waited-Waited p (pending, c) h = tt
  waited-Waited p (ready (ok z), c) h = tt
  waited-Waited p (ready (err e), c) h = absurd (h e refl)

  guarded-Waited :
      (p : Process E.child) (s : Slot E.child) → SlotSound s → Waited (guarded E.child p s)
  unfolding guarded
  guarded-Waited p (running c) h = waited-Waited p (E.child.child_wait c) (N.waits c)
  guarded-Waited p (finished (ok z)) h = tt
  guarded-Waited p (finished (err e)) h = absurd h

  held-Waited :
      (held : Bool) (p : Process E.child) (r : Poll (Result ℤ) × (Wait × Process E.child))
      → SlotSound p.proc
      → Waited r
      → Waited (if held then (pending, (locking, p)) else r)
  held-Waited true p r s h = s
  held-Waited false p r s h = h

  poll_wait-Waited :
      (w : Wait) (p : Process E.child) → SlotSound p.proc → Waited (poll_wait E.child w p)
  unfolding poll_wait
  poll_wait-Waited waiting p h = guarded-Waited p p.proc h
  poll_wait-Waited locking p h =
      held-Waited p.held p (guarded E.child p p.proc) h (guarded-Waited p p.proc h)

  watch_waited-Sound :
      (r : Poll (Result ℤ) × (Wait × Process E.child)) → Waited r → WatchSound (watch_waited E r).0
  unfolding watch_waited
  watch_waited-Sound (pending, (w, p)) h = h
  watch_waited-Sound (ready (ok z), (w, p)) h =
      Loaded-last E Q N (exited (record { status = z })) tt
  watch_waited-Sound (ready (err e), (w, p)) h = absurd h

  drop_wait-Sound :
      (w : Wait) (p : Process E.child) → SlotSound p.proc → SlotSound (drop_wait E.child w p).proc
  unfolding drop_wait
  drop_wait-Sound locking p h = h
  drop_wait-Sound waiting p h = h

  watch_received-Sound :
      (w : Wait) (p : Process E.child) (q : List Message)
      (a : Poll (Result (Option Kill)) × SharedRx)
      → SlotSound p.proc
      → Each Allowed q
      → Gets E.from_slice from_kill q a
      → WatchSound (watch_received E w p a.0).0 × Post E Q N a.1
  unfolding watch_received
  watch_received-Sound w p q (pending, rx) s h g = (s, (q, g, h))
  watch_received-Sound w p q (ready (err e), rx) s h g = absurd g
  watch_received-Sound w p q (ready (ok none), rx) s h (_, g) = (drop_wait-Sound w p s, (q, g, h))
  watch_received-Sound w p q (ready (ok (some k)), rx) s h (rest, e, g) =
      (drop_wait-Sound w p s, (rest, g, (select-Took from_kill Allowed q k rest h e).1))

  watch_reported-Sound :
      (p : Process E.child) (t : Watch E.child) → WatchSound t → WatchSound (watch_reported E p t).0
  unfolding watch_reported watch_ended
  watch_reported-Sound p (Watch.ended (ok _)) h = h
  watch_reported-Sound p (Watch.ended (err e)) h = h
  watch_reported-Sound p (watching w p') h = h
  watch_reported-Sound p (reporting p' d) h = h
  watch_reported-Sound p Watch.aborted h = h

  pub watch_turn-Sound :
      (b : Branch) (t : Watch E.child) (tx : Shared E.writer) (rx : SharedRx)
      → Sound E Q N WatchSound (t, (tx, rx))
      → Sound E Q N {T = Watch E.child × List KillCall}
          (λ r. WatchSound r.0)
          (watch_turn E b t tx rx)
  unfolding watch_turn
  watch_turn-Sound works (watching w p) tx rx (s, v, h) =
      (watch_waited-Sound (poll_wait E.child w p) (poll_wait-Waited w p s), v, h)
  watch_turn-Sound receives (watching w p) tx rx (s, v, (q, h, a)) =
      let (t, r) =
        watch_received-Sound w p q (shared_recv from_kill E.from_slice rx) s a
          (shared_recv-Gets E.from_slice from_kill all_give_back.kill_back rx q h) in
      (t, v, r)
  watch_turn-Sound b (reporting p d) tx rx (l, v, h) =
      let (t, v') =
        after_send_through E Q (After E Q N WatchSound) d tx Watch.aborted (reporting p) Watch.ended
          l v (λ tx' v'. (tt, v')) in
      (watch_reported-Sound p _ t, v', h)
  watch_turn-Sound b (Watch.ended r) tx rx h = h
  watch_turn-Sound b Watch.aborted tx rx h = h

  -- A session whose tasks and receiver are so.
  abbrev pub AllSound : Session E → Type 0
  AllSound s =
      FeedSound s.stdin_task
      × CopySound s.stdout_task
      × CopySound s.stderr_task
      × WatchSound s.exit_task
      × Healthy E s.tx
      × Post E Q N s.rx

  pub session_turn-AllSound :
      (lb : Bool) (turn : Turn) (s : Session E) → AllSound s → AllSound (session_turn E lb turn s)
  unfolding session_turn
  session_turn-AllSound lb stdin_turn s (i, o, r, x, v, h) =
      let (i', v', h') = feed_turn-Sound s.stdin_task s.tx s.rx (i, v, h) in (i', o, r, x, v', h')
  session_turn-AllSound lb (stdout_turn b) s (i, o, r, x, v, h) =
      let (o', v', h') =
        copy_turn-Sound E Q N out_stream tt lb b s.stdout_task s.tx s.rx (o, v, h) in
      (i, o', r, x, v', h')
  session_turn-AllSound lb (stderr_turn b) s (i, o, r, x, v, h) =
      let (r', v', h') =
        copy_turn-Sound E Q N err_stream tt lb b s.stderr_task s.tx s.rx (r, v, h) in
      (i, o, r', x, v', h')
  session_turn-AllSound lb (exit_turn b) s (i, o, r, x, v, h) =
      let (x', v', h') = watch_turn-Sound b s.exit_task s.tx s.rx (x, v, h) in (i, o, r, x', v', h')
