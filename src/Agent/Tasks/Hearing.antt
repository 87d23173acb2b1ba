-- ===== src/Agent/Tasks/Hearing.antt =====
-- The receivers of the tasks: what each takes of the messages of the host, and the input of the child.
use minimal_vm_tool.Prelude.{
  ◌≡◌, refl, ap, ◌∙◌, sym, Option, none, some, List, [], ◌∷◌, ◌++◌, append-nil, append_assoc, arith,
  Bytes, Bool, true, false,
}
use minimal_vm_tool.Outcome.{Result, ok, err, Poll, pending, ready}
use minimal_vm_tool.Protocol.{
  Message, Converted, Stdio, Stream, in_stream, out_stream, err_stream, named, from_stdio,
  from_bytes_or_closed, from_kill,
}
use minimal_vm_tool.Protocol.Kinds.{all_give_back}
use minimal_vm_tool.Io.Rx.Recv.{SharedRx, shared_recv}
use minimal_vm_tool.Io.Rx.Recv.Mailbox.{Inbox}
use minimal_vm_tool.Io.Rx.Recv.Share.{
  wanted, left_by, taken_by, Exhausts, Apart, wanted-left_by, Polled, shared_recv-Polled,
}
use minimal_vm_tool.Io.Tx.Handle.{Shared, poll_do_send}
use minimal_vm_tool.Agent.Chunks.{Pipe}
use minimal_vm_tool.Agent.Tasks.{
  Env, Feed, waiting, writing, announcing, feed_received, feed_written, feed_turn, Copy, selecting,
  passing, closing, copy_turn, copy_received, Branch, works, receives, after_send, Sent,
}

pub out_feed_apart : Apart (from_stdio out_stream) (from_bytes_or_closed in_stream)
unfolding from_stdio from_bytes_or_closed named
out_feed_apart m a b e h = ground arith

pub err_feed_apart : Apart (from_stdio err_stream) (from_bytes_or_closed in_stream)
unfolding from_stdio from_bytes_or_closed named
err_feed_apart m a b e h = ground arith

pub out_kill_apart : Apart (from_stdio out_stream) from_kill
unfolding from_stdio from_kill named
out_kill_apart m a b e h = ground arith

pub err_kill_apart : Apart (from_stdio err_stream) from_kill
unfolding from_stdio from_kill named
err_kill_apart m a b e h = ground arith

pub kill_feed_apart : Apart from_kill (from_bytes_or_closed in_stream)
unfolding from_kill from_bytes_or_closed named
kill_feed_apart m a b e h = ground arith

pub feed_kill_apart : Apart (from_bytes_or_closed in_stream) from_kill
unfolding from_kill from_bytes_or_closed named
feed_kill_apart m a b e h = ground arith

-- What `write_all` documents: what it leaves follows what the child was given, and it leaves nothing
-- where it succeeds.
pub record WritesAll (E : Env) : Type 0 where
  pub given : E.Input → Bytes
  pub given-write :
      (i : E.Input) (bytes : Bytes)
      → given (E.write_all i bytes).1.0 ++ (E.write_all i bytes).1.1 ≡ given i ++ bytes
  pub leaves_none :
      (i : E.Input) (bytes : Bytes)
      → (E.write_all i bytes).0 ≡ ready (ok tt)
      → (E.write_all i bytes).1.1 ≡ []

-- The input that messages carry, up to the first that closes it.
abbrev pub fed : List (Option Bytes) → Bytes
fed [] = []
fed (some b ∷ rest) = b ++ fed rest
fed (none ∷ rest) = []

abbrev pub feed_type : Message → Converted (Option Bytes)
feed_type m = from_bytes_or_closed in_stream m

module _ (E : Env) (W : WritesAll E) (total : Bytes) where
  -- What the child has been given, by where the task is and what is still wanted.
  abbrev pub FeedHears : List (Option Bytes) → Feed E.Input → Type 0
  FeedHears w (waiting i) = W.given i ++ fed w ≡ total
  FeedHears w (writing i left) = W.given i ++ (left ++ fed w) ≡ total
  FeedHears w (announcing i d) = W.given i ≡ total
  FeedHears w (Feed.ended i (ok _)) = W.given i ≡ total
  FeedHears w (Feed.ended i (err e)) = (rest : Bytes) × (W.given i ++ rest ≡ total)
  FeedHears w Feed.aborted = Unit

  feed_received-FeedHears :
      (i : E.Input) (q : List Message) (r : Poll (Result (Option (Option Bytes))))
      (w' : List (Option Bytes)) (w : List (Option Bytes))
      → W.given i ++ fed w ≡ total
      → w ≡ taken_by feed_type r ++ w'
      → Exhausts feed_type q r
      → wanted feed_type q ≡ w
      → FeedHears w' (feed_received E i r)
  unfolding feed_received
  feed_received-FeedHears i q pending w' w h e x z = ap (λ v. W.given i ++ fed v) (sym e) ∙ h
  feed_received-FeedHears i q (ready (err y)) w' w h e x z = (fed w, h)
  feed_received-FeedHears i q (ready (ok none)) w' w h e x z =
      sym (append-nil (W.given i)) ∙ ap (λ v. W.given i ++ fed v) (sym x ∙ z) ∙ h
  feed_received-FeedHears i q (ready (ok (some none))) w' w h e x z =
      sym (append-nil (W.given i)) ∙ ap (λ v. W.given i ++ fed v) (sym e) ∙ h
  feed_received-FeedHears i q (ready (ok (some (some b)))) w' w h e x z =
      ap (λ v. W.given i ++ fed v) (sym e) ∙ h

  feed_written-FeedHears :
      (w : List (Option Bytes)) (i : E.Input) (left : Bytes)
      (q : Poll (Result (Unit {0})) × (E.Input × Bytes))
      → W.given i ++ (left ++ fed w) ≡ total
      → W.given q.1.0 ++ q.1.1 ≡ W.given i ++ left
      → (q.0 ≡ ready (ok tt) → q.1.1 ≡ [])
      → FeedHears w (feed_written E q)
  unfolding feed_written
  feed_written-FeedHears w i left (pending, (i', l)) h e x =
      sym (append_assoc (W.given i') l (fed w))
      ∙ ap (λ b. b ++ fed w) e
      ∙ append_assoc (W.given i) left (fed w)
      ∙ h
  feed_written-FeedHears w i left (ready (err y), (i', l)) h e x = (
    l ++ fed w,
    sym (append_assoc (W.given i') l (fed w))
        ∙ ap (λ b. b ++ fed w) e
        ∙ append_assoc (W.given i) left (fed w)
        ∙ h,
  )
  feed_written-FeedHears w i left (ready (ok _), (i', l)) h e x =
      ap (λ b. W.given i' ++ (b ++ fed w)) (sym (x refl))
      ∙ sym (append_assoc (W.given i') l (fed w))
      ∙ ap (λ b. b ++ fed w) e
      ∙ append_assoc (W.given i) left (fed w)
      ∙ h

  -- A send does not change the input, nor what is said of it.
  after_announcing :
      (w : List (Option Bytes)) (i : E.Input) (o : Sent E.writer) (tx : Shared E.writer)
      → W.given i ≡ total
      → FeedHears w (after_send o tx Feed.aborted (announcing i) (Feed.ended i)).0
  after_announcing w i none tx h = tt
  after_announcing w i (some (pending, (tx', d))) tx h = h
  after_announcing w i (some (ready (ok _), (tx', d))) tx h = h
  after_announcing w i (some (ready (err e), (tx', d))) tx h = ([], append-nil (W.given i) ∙ h)

-- A mailbox in order, `q`.
abbrev pub InOrder : (E : Env) → SharedRx → List Message → Type 0
InOrder E rx q = (rx.broken ≡ false) × Inbox E.from_slice rx.local q

module _ (E : Env) (W : WritesAll E) (total : Bytes) where
  -- After a turn of `stdin`, with a mailbox that has all the signals that there were.
  abbrev pub FeedTurns : List Message → Feed E.Input × (Shared E.writer × SharedRx) → Type 0
  FeedTurns q (t, (tx, rx)) =
      (q' : List Message) × InOrder E rx q'
      × FeedHears E W total (wanted feed_type q') t
      × (wanted from_kill q ≡ wanted from_kill q')

  waiting-FeedTurns :
      (i : E.Input) (q : List Message) (tx : Shared E.writer)
      (p : Poll (Result (Option (Option Bytes))) × SharedRx)
      → W.given i ++ fed (wanted feed_type q) ≡ total
      → Polled E.from_slice feed_type (all_give_back.bytes_or_closed_back in_stream) q p
      → FeedTurns q (feed_received E i p.0, (tx, p.1))
  waiting-FeedTurns i q tx (r, rx) h (b, (box, e, x)) = (
    left_by feed_type q r,
    (b, box),
    feed_received-FeedHears E W total i q r (wanted feed_type (left_by feed_type q r))
        (wanted feed_type q) h e x refl,
    wanted-left_by feed_type from_kill feed_kill_apart q r,
  )

  pub feed_turn-FeedTurns :
      (t : Feed E.Input) (q : List Message) (tx : Shared E.writer) (rx : SharedRx)
      → InOrder E rx q
      → FeedHears E W total (wanted feed_type q) t
      → FeedTurns q (feed_turn E t tx rx)
  unfolding feed_turn
  feed_turn-FeedTurns (waiting i) q tx rx o h =
      waiting-FeedTurns i q tx (shared_recv feed_type E.from_slice rx) h (
        shared_recv-Polled E.from_slice feed_type (all_give_back.bytes_or_closed_back in_stream) rx
          q o.0 o.1)
  feed_turn-FeedTurns (writing i left) q tx rx o h = (
    q,
    o,
    feed_written-FeedHears E W total (wanted feed_type q) i left (E.write_all i left) h
        (W.given-write i left) (W.leaves_none i left),
    refl,
  )
  feed_turn-FeedTurns (announcing i d) q tx rx o h = (
    q,
    o,
    after_announcing E W total (wanted feed_type q) i (poll_do_send E.writer d tx) tx h,
    refl,
  )
  feed_turn-FeedTurns (Feed.ended i r) q tx rx o h = (q, o, h, refl)
  feed_turn-FeedTurns Feed.aborted q tx rx o h = (q, o, h, refl)

-- After a turn of `stdout` or `stderr`, the others find the messages that they want.
abbrev pub CopyTurns : (E : Env) → List Message → Copy × (Shared E.writer × SharedRx) → Type 0
CopyTurns E q (t, (tx, rx)) =
    (q' : List Message) × InOrder E rx q'
    × (wanted feed_type q ≡ wanted feed_type q')
    × (wanted from_kill q ≡ wanted from_kill q')

module _ (E : Env) (name : Stream) (to_feed : Apart (from_stdio name) feed_type)
    (to_kill : Apart (from_stdio name) from_kill) where
  selecting-CopyTurns :
      (p : Pipe) (q : List Message) (tx : Shared E.writer)
      (a : Poll (Result (Option Stdio)) × SharedRx)
      → Polled E.from_slice (from_stdio name) (all_give_back.stdio_back name) q a
      → CopyTurns E q (copy_received E name p a.0, (tx, a.1))
  selecting-CopyTurns p q tx (r, rx) (b, (box, e, x)) = (
    left_by (from_stdio name) q r,
    (b, box),
    wanted-left_by (from_stdio name) feed_type to_feed q r,
    wanted-left_by (from_stdio name) from_kill to_kill q r,
  )

  pub copy_turn-CopyTurns :
      (lb : Bool) (b : Branch) (t : Copy) (q : List Message) (tx : Shared E.writer) (rx : SharedRx)
      → InOrder E rx q
      → CopyTurns E q (copy_turn E name lb b t tx rx)
  unfolding copy_turn
  copy_turn-CopyTurns lb works (selecting b p) q tx rx o = (q, o, refl, refl)
  copy_turn-CopyTurns lb receives (selecting true p) q tx rx o =
      selecting-CopyTurns p q tx (shared_recv (from_stdio name) E.from_slice rx) (
        shared_recv-Polled E.from_slice (from_stdio name) (all_give_back.stdio_back name) rx q o.0
          o.1)
  copy_turn-CopyTurns lb receives (selecting false p) q tx rx o = (q, o, refl, refl)
  copy_turn-CopyTurns lb b (passing p d) q tx rx o = (q, o, refl, refl)
  copy_turn-CopyTurns lb b (closing d) q tx rx o = (q, o, refl, refl)
  copy_turn-CopyTurns lb b (Copy.ended r) q tx rx o = (q, o, refl, refl)
  copy_turn-CopyTurns lb b Copy.aborted q tx rx o = (q, o, refl, refl)
