-- ===== src/Agent/Main/Obedience.antt =====
-- What `main` of the exec agent does with the messages of the host: the process that it spawns, the
-- input that it gives it, and the signals.
use minimal_vm_tool.Prelude.{ℕ, ◌≡◌, refl, Bool, false, Option, none, some, List, [], ◌∷◌}
use minimal_vm_tool.Outcome.{Result, ok, err, Poll, pending, ready}
use minimal_vm_tool.Protocol.{Message, from_exec, from_kill}
use minimal_vm_tool.Protocol.Kinds.{all_give_back}
use minimal_vm_tool.Io.Rx.Recv.{SharedRx, shared_recv}
use minimal_vm_tool.Io.Rx.Recv.Mailbox.{Inbox}
use minimal_vm_tool.Io.Rx.Recv.Share.{wanted, shared_recv-Polled}
use minimal_vm_tool.Io.Tx.Handle.{Shared, DoSend, poll_do_send, CloseState, poll_close_tx}
use minimal_vm_tool.Io.Rx.{ReadEvent}
use minimal_vm_tool.Io.Rx.Reads.{content}
use minimal_vm_tool.Io.Rx.Recv.{new_shared}
use minimal_vm_tool.Io.Writer.{Writer, Delivers}
use minimal_vm_tool.Io.Tx.{Sending, TxLocal}
use minimal_vm_tool.Io.Tx.Output.{output}
use minimal_vm_tool.Io.Tx.Handle.{prepare_msgs, send_and_flush, await_send, finished}
use minimal_vm_tool.Io.Tx.Handle.Delivery.{delivered_of}
use minimal_vm_tool.Io.Tx.Handle.Progress.{open_tx}
use minimal_vm_tool.Io.Wire.{IsCodec, Inbox-send}
use minimal_vm_tool.Agent.Tasks.{Env, Sent}
use minimal_vm_tool.Agent.Tasks.Hearing.{WritesAll, InOrder}
use minimal_vm_tool.Agent.Tasks.Killing.{KeepsId}
use minimal_vm_tool.Agent.Session.{Session, Turn, session_turn}
use minimal_vm_tool.Agent.Session.Hearing.{Hears, session_turn-Heard, hears}
use minimal_vm_tool.Agent.Main.{
  Host, Main, expecting, greeting, serving, apologizing, flushing, closing, gone, aborted, greeted,
  served, greeting_polled, apologizing_polled, flushing_polled, closing_polled, joined_session,
  main_turn, run_main,
}
use minimal_vm_tool.Agent.Main.Children.{HasPids}
use minimal_vm_tool.Agent.Main.Hosting.{
  all_input, FirstExec, Hosts, IsObeying, concluded-IsObeying, expected-IsObeying,
}

module _ (E : Env) (H : Host E) (W : WritesAll E) (L : KeepsId E) (q : List Message) where
  module _ (P : HasPids E H) where
    with_tx :
        (s : Session E) (tx : Shared E.writer)
        → Hosts E H W L q s
        → Hosts E H W L q (record s { tx = tx })
    with_tx s tx (exec, c, more, w, e, (rest, v)) = (
      exec,
      c,
      more,
      w,
      e,
      (rest, record { in_order = v.in_order; feeds = v.feeds; kills_sent = v.kills_sent }),
    )

    greeted-IsObeying :
        (lb : Bool) (s : Session E) (o : Sent E.writer)
        → Hosts E H W L q s
        → IsObeying E H W L q (greeting_polled E H lb s o)
    unfolding greeting_polled greeted
    greeted-IsObeying lb s none h = tt
    greeted-IsObeying lb s (some (pending, (tx, d))) h = with_tx s tx h
    greeted-IsObeying lb s (some (ready (err e), (tx, d))) h =
        concluded-IsObeying E H W L q (err e) tx
    greeted-IsObeying lb s (some (ready (ok _), (tx, d))) h = with_tx s tx h

    served-IsObeying :
        (lb : Bool) (s : Session E) (r : Option (Result (Unit {0})))
        → Hosts E H W L q s
        → IsObeying E H W L q (served E H lb s r)
    unfolding served
    served-IsObeying lb s none h = h
    served-IsObeying lb s (some r) h = concluded-IsObeying E H W L q r s.tx

    turned :
        (lb : Bool) (turn : Turn) (s : Session E)
        → Hosts E H W L q s
        → Hosts E H W L q (session_turn E lb turn s)
    turned lb turn s (exec, c, more, w, e, (rest, v)) = (
      exec,
      c,
      more,
      w,
      e,
      session_turn-Heard E W L (all_input E H W L q c) c.pid (wanted from_kill q) lb turn s rest v,
    )

    apologized-IsObeying :
        (tx : Shared E.writer) (o : Sent E.writer)
        → IsObeying E H W L q (apologizing_polled E H tx o)
    unfolding apologizing_polled
    apologized-IsObeying tx none = tt
    apologized-IsObeying tx (some (pending, (t, d))) = tt
    apologized-IsObeying tx (some (ready r, (t, d))) = tt

    flushed-IsObeying :
        (tx : Shared E.writer) (o : Sent E.writer) → IsObeying E H W L q (flushing_polled E H tx o)
    unfolding flushing_polled
    flushed-IsObeying tx none = tt
    flushed-IsObeying tx (some (pending, (t, d))) = tt
    flushed-IsObeying tx (some (ready r, (t, d))) = tt

    closed-IsObeying :
        (p : Poll (Result (E.writer.Conn)) × (CloseState E.writer × Shared E.writer))
        → IsObeying E H W L q (closing_polled E H p)
    unfolding closing_polled
    closed-IsObeying (pending, (c, t)) = tt
    closed-IsObeying (ready (ok w), (c, t)) = tt
    closed-IsObeying (ready (err e), (c, t)) = tt

    main_turn-IsObeying :
        (turn : Turn) (m : Main E)
        → IsObeying E H W L q m
        → IsObeying E H W L q (main_turn E H turn m)
    unfolding main_turn
    main_turn-IsObeying turn (expecting tx rx) (b, box) =
        expected-IsObeying E H W L q P tx (shared_recv from_exec E.from_slice rx)
          (shared_recv-Polled E.from_slice from_exec all_give_back.exec_back rx q b box)
    main_turn-IsObeying turn (greeting lb d s) h =
        greeted-IsObeying lb s (poll_do_send E.writer d s.tx) h
    main_turn-IsObeying turn (serving lb s) h =
        let s' = session_turn E lb turn s in
        served-IsObeying lb s' (joined_session E s') (turned lb turn s h)
    main_turn-IsObeying turn (apologizing d tx) h =
        apologized-IsObeying tx (poll_do_send E.writer d tx)
    main_turn-IsObeying turn (flushing d tx) h = flushed-IsObeying tx (poll_do_send E.writer d tx)
    main_turn-IsObeying turn (closing c tx) h = closed-IsObeying (poll_close_tx E.writer c tx)
    main_turn-IsObeying turn (gone w tx) h = tt
    main_turn-IsObeying turn (aborted tx) h = tt

    run_main-IsObeying :
        (turns : List Turn) (m : Main E)
        → IsObeying E H W L q m
        → IsObeying E H W L q (run_main E H turns m)
    unfolding run_main
    run_main-IsObeying [] m h = h
    run_main-IsObeying (turn ∷ turns) m h =
        run_main-IsObeying turns (main_turn E H turn m) (main_turn-IsObeying turn m h)

  -- What has become of the messages, while there is a session.
  abbrev pub Obeys : Main E → Type 0
  Obeys (expecting tx rx) = InOrder E rx q
  Obeys (greeting lb d s) =
      FirstExec E H W L q (λ c. Hears E W L (all_input E H W L q c) c.pid (wanted from_kill q) s)
  Obeys (serving lb s) =
      FirstExec E H W L q (λ c. Hears E W L (all_input E H W L q c) c.pid (wanted from_kill q) s)
  Obeys (apologizing d tx) = Unit
  Obeys (flushing d tx) = Unit
  Obeys (closing c tx) = Unit
  Obeys (gone w tx) = Unit
  Obeys (aborted tx) = Unit

  hosted :
      (s : Session E)
      → Hosts E H W L q s
      → FirstExec E H W L q (λ c. Hears E W L (all_input E H W L q c) c.pid (wanted from_kill q) s)
  hosted s (exec, c, more, w, e, v) =
      (exec, c, more, w, e, hears E W L (all_input E H W L q c) c.pid (wanted from_kill q) s v)

  obeys : (m : Main E) → IsObeying E H W L q m → Obeys m
  obeys (expecting tx rx) h = h
  obeys (greeting lb d s) h = hosted s h
  obeys (serving lb s) h = hosted s h
  obeys (apologizing d tx) h = tt
  obeys (flushing d tx) h = tt
  obeys (closing c tx) h = tt
  obeys (gone w tx) h = tt
  obeys (aborted tx) h = tt

-- Where write_all takes bytes in order and all of them where it succeeds, a child has a pid when it
-- is spawned and keeps it while it runs, and the mailbox of a receiver in order holds given
-- messages: while main of the exec agent expects an Exec, whatever its turns are, the mailbox holds
-- all of the messages. In its session the child is one that was spawned as the first Exec among
-- them, the child has been given a start of the data of the input messages up to the first Closed,
-- behind what it had, all of it where the input task has come to its last message, and kill has
-- been called once for each of the first signals, in order and for its pid, with one more call only
-- where the exit task failed.
pub run_main-Obeys :
    (E : Env) (H : Host E) (W : WritesAll E) (L : KeepsId E) (P : HasPids E H) (turns : List Turn)
    (tx : Shared E.writer) (rx : SharedRx) (q : List Message)
    → rx.broken ≡ false
    → Inbox E.from_slice rx.local q
    → Obeys E H W L q (run_main E H turns (expecting tx rx))
run_main-Obeys E H W L P turns tx rx q b box =
    obeys E H W L q (run_main E H turns (expecting tx rx))
      (run_main-IsObeying E H W L q P turns (expecting tx rx) (b, box))

-- Where write_all takes bytes in order and all of them where it succeeds, a child has a pid when it
-- is spawned and keeps it while it runs, and JSON is as IsCodec says; and a host has sent messages
-- over a connection with no output before, its send_and_flush has finished without an error, and
-- the exec agent reads what that connection took, in whatever chunks, with waits and read errors:
-- in the session of the agent, whatever its turns are, the child is one that was spawned as the
-- first Exec among the messages that were sent. It has been given a start of the data of the input
-- messages up to the first Closed, behind what it had, all of it where the input task has come to
-- its last message; and kill has been called once for each of the first signals that were sent, in
-- order and for its pid, with one more call only where the exit task failed.
pub run_main-send :
    (E : Env) (H : Host E) (W : WritesAll E) (L : KeepsId E) (P : HasPids E H)
    (codec : IsCodec E.to_vec E.from_slice) (V : Writer) (D : Delivers V) (n : ℕ)
    (turns : List Turn) (host : TxLocal V) (ms : List Message) (ss : List Sending) (s : Shared V)
    (d : DoSend) (r : List ReadEvent) (tx : Shared E.writer)
    → output V D host ≡ []
    → prepare_msgs E.to_vec E.describe ms ≡ ok ss
    → await_send V n (open_tx V host) (send_and_flush E.to_vec E.describe ms)
      ≡ finished (ok tt) (s, d)
    → content r ≡ delivered_of V D s.local
    → Obeys E H W L ms (run_main E H turns (expecting tx (new_shared r)))
unfolding new_shared
run_main-send E H W L P codec V D n turns host ms ss s d r tx fresh prep run same =
    run_main-Obeys E H W L P turns tx (new_shared r) ms refl
      (Inbox-send E.to_vec E.describe E.from_slice codec V D n host ms ss s d r fresh prep run same)
