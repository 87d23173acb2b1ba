-- ===== src/Agent/Main/Hosting.antt =====
-- From the messages of the host to a session: the first `Exec` among them, and its child.
use minimal_vm_tool.Prelude.{
  ◌≡◌, refl, ap, sym, Option, none, some, List, [], ◌∷◌, ◌++◌, Bytes, arith,
}
use minimal_vm_tool.Outcome.{plain, Result, ok, err, Poll, pending, ready}
use minimal_vm_tool.Protocol.{Message, Exec, from_exec, from_kill, from_bytes_or_closed, named}
use minimal_vm_tool.Protocol.Kinds.{all_give_back}
use minimal_vm_tool.Io.Rx.Recv.{SharedRx}
use minimal_vm_tool.Io.Rx.Recv.Share.{wanted, left_by, Apart, wanted-left_by, Polled}
use minimal_vm_tool.Io.Tx.Handle.{Shared}
use minimal_vm_tool.Agent.Tasks.{Env}
use minimal_vm_tool.Agent.Tasks.Hearing.{WritesAll, fed, feed_type, InOrder}
use minimal_vm_tool.Agent.Tasks.Killing.{KeepsId}
use minimal_vm_tool.Agent.Session.{Session, start}
use minimal_vm_tool.Agent.Session.Hearing.{Heard}
use minimal_vm_tool.Agent.Main.{
  Child, Host, Main, expecting, greeting, serving, apologizing, flushing, closing, gone, aborted,
  spawn, concluded, spawned, expected,
}
use minimal_vm_tool.Agent.Main.Children.{HasPids, spawn-IsFresh, spawn-HasId}

exec_feed_apart : Apart from_exec feed_type
unfolding from_exec from_bytes_or_closed named
exec_feed_apart m a b e h = ground arith

exec_kill_apart : Apart from_exec from_kill
unfolding from_exec from_kill
exec_kill_apart m a b e h = ground arith

module _ (E : Env) (H : Host E) (W : WritesAll E) (L : KeepsId E) (q : List Message) where
  -- All that the child of a session will have of the input.
  abbrev pub all_input : Child E → Bytes
  all_input c = W.given c.input ++ fed (wanted feed_type q)

  -- The child of the first `Exec` of the messages, and what is so of its session.
  abbrev pub FirstExec : (Child E → Type 0) → Type 0
  FirstExec P =
      (exec : Exec) × (c : Child E) × (more : List Exec) × (wanted from_exec q ≡ exec ∷ more)
      × (spawn E H exec ≡ ok c)
      × P c

  abbrev pub Hosts : Session E → Type 0
  Hosts s = FirstExec (λ c. Heard E W L (all_input c) c.pid (wanted from_kill q) s)

  -- The invariant of `main`.
  abbrev pub IsObeying : Main E → Type 0
  IsObeying (expecting tx rx) = InOrder E rx q
  IsObeying (greeting lb d s) = Hosts s
  IsObeying (serving lb s) = Hosts s
  IsObeying (apologizing d tx) = Unit
  IsObeying (flushing d tx) = Unit
  IsObeying (closing c tx) = Unit
  IsObeying (gone w tx) = Unit
  IsObeying (aborted tx) = Unit

  pub concluded-IsObeying :
      (r : Result (Unit {0})) (tx : Shared E.writer) → IsObeying (concluded E H r tx)
  unfolding concluded
  concluded-IsObeying (ok _) tx = tt
  concluded-IsObeying (err e) tx = tt

  module _ (P : HasPids E H) where
    -- The session of a child starts with the messages behind the `Exec`.
    start-Heard :
        (exec : Exec) (c : Child E) (tx : Shared E.writer) (rx : SharedRx) (rest : List Message)
        → spawn E H exec ≡ ok c
        → InOrder E rx rest
        → wanted feed_type q ≡ wanted feed_type rest
        → wanted from_kill q ≡ wanted from_kill rest
        → Heard E W L
            (all_input c)
            c.pid
            (wanted from_kill q)
            (start E tx rx c.input c.output c.errors c.process)
    unfolding start
    start-Heard exec c tx rx rest e o f k = (
      rest,
      record {
        in_order = o;
        feeds = ap (λ w. W.given c.input ++ fed w) (sym f);
        kills_sent = (
          spawn-HasId E H P exec c e,
          ap (λ p. p.held) (spawn-IsFresh E H exec c e).3.1,
          ([], refl, k),
        );
      },
    )

    spawned-IsObeying :
        (exec : Exec) (tx : Shared E.writer) (rx : SharedRx) (rest : List Message)
        (more : List Exec) (r : Result (Child E))
        → spawn E H exec ≡ r
        → wanted from_exec q ≡ exec ∷ more
        → InOrder E rx rest
        → wanted feed_type q ≡ wanted feed_type rest
        → wanted from_kill q ≡ wanted from_kill rest
        → IsObeying (spawned E H exec tx rx r)
    unfolding spawned
    spawned-IsObeying exec tx rx rest more (err x) e w o f k =
        concluded-IsObeying (err (plain (E.format_debug "Failed to spawn child" x))) tx
    spawned-IsObeying exec tx rx rest more (ok c) e w o f k =
        (exec, c, more, w, e, start-Heard exec c tx rx rest e o f k)

    pub expected-IsObeying :
        (tx : Shared E.writer) (a : Poll (Result (Option Exec)) × SharedRx)
        → Polled E.from_slice from_exec all_give_back.exec_back q a
        → IsObeying (expected E H tx a.1 a.0)
    unfolding expected
    expected-IsObeying tx (pending, rx) (b, (box, e, x)) = (b, box)
    expected-IsObeying tx (ready (err y), rx) h = concluded-IsObeying (err y) tx
    expected-IsObeying tx (ready (ok none), rx) h =
        concluded-IsObeying (err (plain "Connection closed")) tx
    expected-IsObeying tx (ready (ok (some exec)), rx) (b, (box, e, x)) =
        let left = left_by from_exec q (ready (ok (some exec))) in
        spawned-IsObeying exec tx rx left (wanted from_exec left) (spawn E H exec) refl e (b, box)
          (wanted-left_by from_exec feed_type exec_feed_apart q (ready (ok (some exec))))
          (wanted-left_by from_exec from_kill exec_kill_apart q (ready (ok (some exec))))
