-- ===== src/Agent/Prompt/Sound.antt =====
-- What keeps the tasks of a session from failing, and that each turn of an output's task keeps it.
use minimal_vm_tool.Prelude.{◌≡◌, ◌≢◌, Bool, true, false, Option, none, some, List, Bytes}
use minimal_vm_tool.Outcome.{Error, Result, ok, err, Poll, pending, ready}
use minimal_vm_tool.Protocol.{
  Message, started, exited, stdin, stdout, stderr, Stdio, data_of, closed, Stream, in_stream,
  out_stream, err_stream, from_stdio,
}
use minimal_vm_tool.Protocol.Kinds.{all_give_back}
use minimal_vm_tool.Io.Rx.Recv.{SharedRx, shared_recv}
use minimal_vm_tool.Io.Rx.Recv.Steady.{Calm}
use minimal_vm_tool.Io.Rx.Recv.Held.{Each, select-Took, Held, Gets, shared_recv-Gets}
use minimal_vm_tool.Io.Tx.Handle.{Shared}
use minimal_vm_tool.Agent.Chunks.{Pipe, Chunk, read_line_or_chunk}
use minimal_vm_tool.Agent.Chunks.Intact.{Intact, read_line_or_chunk-Intact}
use minimal_vm_tool.Agent.Process.{Os, Slot, running, finished}
use minimal_vm_tool.Agent.Tasks.{
  Env, Branch, works, receives, Copy, Feed, Watch, selecting, passing, closing, announcing, writing,
  watching, reporting, on_stream, send_one, send_last, copy_read, copy_received, copy_passed,
  copy_turn,
}
use minimal_vm_tool.Agent.Prompt.{Prompts, Healthy}
use minimal_vm_tool.Agent.Prompt.Loaded.{
  Loaded, send_one-Loaded, send_last-Loaded, after_send_through,
}
use minimal_vm_tool.Agent.Prompt.Mail.{Allowed, IsOutput, not_closed}

-- The messages of a session.
abbrev pub Said : Message → Type 0
Said (started s) = Unit
Said (exited s) = Unit
Said (stdin closed) = Unit
Said (stdout s) = Unit
Said (stderr s) = Unit
Said m = ⊥

-- The input of the child and the wait for it do not fail, and the messages of a session serialize.
pub record NoFaults (E : Env) : Type 0 where
  pub takes : (i : E.Input) (b : Bytes) (e : Error) → (E.write_all i b).0 ≢ ready (err e)
  pub waits : (c : E.child.Child) (e : Error) → (E.child.child_wait c).0 ≢ ready (err e)
  pub says : (m : Message) → Said m → (b : Bytes) × (E.to_vec m ≡ ok b)

abbrev pub CopySound : Copy → Type 0
CopySound (selecting e p) = Calm Unit p.reader
CopySound (passing p d) = Calm Unit p.reader × Loaded d
CopySound (closing d) = Loaded d
CopySound (Copy.ended (ok _)) = Unit
CopySound (Copy.ended (err e)) = ⊥
CopySound Copy.aborted = ⊥

abbrev pub FeedSound : {I : Type 0} → Feed I → Type 0
FeedSound (Feed.waiting i) = Unit
FeedSound (writing i left) = Unit
FeedSound (announcing i d) = Loaded d
FeedSound (Feed.ended i (ok _)) = Unit
FeedSound (Feed.ended i (err e)) = ⊥
FeedSound Feed.aborted = ⊥

abbrev pub SlotSound : {V : Os} → Slot V → Type 0
SlotSound (running c) = Unit
SlotSound (finished (ok z)) = Unit
SlotSound (finished (err e)) = ⊥

abbrev pub WatchSound : {V : Os} → Watch V → Type 0
WatchSound (watching w p) = SlotSound p.proc
WatchSound (reporting p d) = Loaded d
WatchSound (Watch.ended (ok _)) = Unit
WatchSound (Watch.ended (err e)) = ⊥
WatchSound Watch.aborted = ⊥

module _ (E : Env) (Q : Prompts E) (N : NoFaults E) where
  -- A receiver that does not fail, of messages that are allowed.
  abbrev pub Post : SharedRx → Type 0
  Post rx = (q : List Message) × Held E.from_slice rx q × Each Allowed q

  -- The task, the sender and the receiver after a turn.
  abbrev pub Sound : {T : Type 0} → (T → Type 0) → T × (Shared E.writer × SharedRx) → Type 0
  Sound P (t, (tx, rx)) = P t × Healthy E tx × Post rx

  abbrev pub After : {T : Type 0} → (T → Type 0) → T × Shared E.writer → Type 0
  After P (t, tx) = P t × Healthy E tx

  Loaded-one : (m : Message) → Said m → Loaded (send_one E m)
  Loaded-one m s = let (b, e) = N.says m s in send_one-Loaded E m b e

  pub Loaded-last : (m : Message) → Said m → Loaded (send_last E m)
  Loaded-last m s = let (b, e) = N.says m s in send_last-Loaded E m b e

  module _ (name : Stream) (output : IsOutput name) where
    said : (s : Stdio) → (n : Stream) → IsOutput n → Said (on_stream n s)
    said s in_stream o = absurd o
    said s out_stream o = tt
    said s err_stream o = tt

    copy_read-Sound : (e : Bool) (c : Chunk) → Intact c → CopySound (copy_read E name e c)
    unfolding copy_read
    copy_read-Sound e (pending, p) h = h
    copy_read-Sound e (ready (err x), p) h = absurd h
    copy_read-Sound e (ready (ok none), p) h =
        Loaded-last (on_stream name closed) (said closed name output)
    copy_read-Sound e (ready (ok (some d)), p) h =
        (h, Loaded-one (on_stream name (data_of d)) (said (data_of d) name output))

    copy_received-Sound :
        (p : Pipe) (q : List Message) (a : Poll (Result (Option Stdio)) × SharedRx)
        → Calm Unit p.reader
        → Each Allowed q
        → Gets E.from_slice (from_stdio name) q a
        → CopySound (copy_received E name p a.0) × Post a.1
    unfolding copy_received
    copy_received-Sound p q (pending, rx) c h g = (c, (q, g, h))
    copy_received-Sound p q (ready (err e), rx) c h g = absurd g
    copy_received-Sound p q (ready (ok none), rx) c h (_, g) = (c, (q, g, h))
    copy_received-Sound p q (ready (ok (some (data_of d))), rx) c h (rest, e, g) =
        (c, (rest, g, (select-Took (from_stdio name) Allowed q (data_of d) rest h e).1))
    copy_received-Sound p q (ready (ok (some closed)), rx) c h (rest, e, g) =
        let ((m, a, i), more) = select-Took (from_stdio name) Allowed q closed rest h e in
        absurd (not_closed name output m a i)

    pub copy_turn-Sound :
        (lb : Bool) (b : Branch) (t : Copy) (tx : Shared E.writer) (rx : SharedRx)
        → Sound CopySound (t, (tx, rx))
        → Sound CopySound (copy_turn E name lb b t tx rx)
    unfolding copy_turn copy_passed
    copy_turn-Sound lb works (selecting e p) tx rx (c, v, h) =
        (copy_read-Sound e (read_line_or_chunk lb p) (read_line_or_chunk-Intact lb p c), v, h)
    copy_turn-Sound lb receives (selecting true p) tx rx (c, v, (q, h, a)) =
        let (t, r) = copy_received-Sound p q (shared_recv (from_stdio name) E.from_slice rx) c a (
          shared_recv-Gets E.from_slice (from_stdio name) (all_give_back.stdio_back name) rx q h) in
        (t, v, r)
    copy_turn-Sound lb receives (selecting false p) tx rx h = h
    copy_turn-Sound lb b (passing p d) tx rx ((c, l), v, h) =
        let (t, v') =
          after_send_through E Q (After CopySound) d tx Copy.aborted (passing p) (copy_passed E p) l
            v (λ tx' v'. (c, v')) in
        (t, v', h)
    copy_turn-Sound lb b (closing d) tx rx (l, v, h) =
        let (t, v') =
          after_send_through E Q (After CopySound) d tx Copy.aborted closing Copy.ended l v
            (λ tx' v'. (tt, v')) in
        (t, v', h)
    copy_turn-Sound lb b (Copy.ended r) tx rx h = h
    copy_turn-Sound lb b Copy.aborted tx rx h = h
