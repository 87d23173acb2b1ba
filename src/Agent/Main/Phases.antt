-- ===== src/Agent/Main/Phases.antt =====
-- `main` on its way: what each turn leaves to be done, where the tasks, the connection and the child
-- are prompt.
use minimal_vm_tool.Prelude.{
  ℕ, suc, ◌+◌, ◌*◌, ◌<◌, ◌≤◌, ◌≡◌, refl, ap, Bool, false, Option, none, some, List, arith,
}
use minimal_vm_tool.Outcome.{plain, Result, ok, err, Poll, pending, ready}
use minimal_vm_tool.Protocol.{Message, Exec, from_exec}
use minimal_vm_tool.Protocol.Kinds.{all_give_back}
use minimal_vm_tool.Io.Rx.Recv.{SharedRx, shared_recv}
use minimal_vm_tool.Agent.Prompt.Mail.{Box}
use minimal_vm_tool.Io.Tx.Handle.{Shared, DoSend, poll_do_send}
use minimal_vm_tool.Agent.Tasks.{Env, Sent}
use minimal_vm_tool.Agent.Session.{Session, Turn, start}
use minimal_vm_tool.Agent.Prompt.{Prompts, Healthy, Sends, poll_do_send-Sends}
use minimal_vm_tool.Agent.Prompt.Mail.{mail, SharedMails, shared_recv-Mails}
use minimal_vm_tool.Agent.Prompt.Costs.{pipe_cost}
use minimal_vm_tool.Agent.Prompt.WatchCosts.{slot_cost}
use minimal_vm_tool.Agent.Prompt.Turns.{Runs, total}
use minimal_vm_tool.Agent.Main.{
  Child, Host, Main, expecting, greeting, serving, apologizing, flushing, closing, gone, aborted,
  spawn, concluded, spawned, expected, greeted, greeting_polled, joined, joined_session, main_turn,
}
use minimal_vm_tool.Agent.Main.Children.{spawn-IsFresh}
use minimal_vm_tool.Agent.Main.Closing.{Ending, concluded-Ending}

module _ (E : Env) (H : Host E) (Q : Prompts E) where
  -- What a child gives its session to do.
  abbrev pub child_cost : Child E → ℕ
  child_cost c =
      8 + (2 * pipe_cost c.output + (2 * pipe_cost c.errors + slot_cost E Q c.process.proc))

  -- A child starts with its mutex free.
  child_free : (exec : Exec) (c : Child E) → spawn E H exec ≡ ok c → c.process.held ≡ false
  child_free exec c e = ap (λ p. p.held) (spawn-IsFresh E H exec c e).3.1

  -- A bound on what each child gives its session to do.
  abbrev pub Bounded : ℕ → Type 0
  Bounded n = (exec : Exec) (c : Child E) → spawn E H exec ≡ ok c → child_cost c ≤ n

  module _ (most : ℕ) (bounded : Bounded most) where
    -- Less than so many rounds from the end of the session.
    abbrev pub Phase : ℕ → Main E → Type 0
    Phase k (expecting tx rx) =
        Healthy E tx
        × (rx.broken ≡ false)
        × ((q : List Message) × Box E.from_slice rx.local q × (mail rx.local q + (most + 2) < k))
    Phase k (greeting lb d s) =
        (q : List Message) × Runs E Q q s × (joined_session E s ≡ none) × (total E Q s q + 1 < k)
    Phase k (serving lb s) =
        (q : List Message) × Runs E Q q s × (joined_session E s ≡ none) × (total E Q s q < k)
    Phase k (apologizing d tx) = Ending E 3 (apologizing d tx)
    Phase k (flushing d tx) = Ending E 3 (flushing d tx)
    Phase k (closing c tx) = Ending E 3 (closing c tx)
    Phase k (gone w tx) = Ending E 3 (gone w tx)
    Phase k (aborted tx) = ⊥

    pub phase_of-Ending : (k : ℕ) (m : Main E) → Ending E 3 m → Phase k m
    phase_of-Ending k (expecting tx rx) h = absurd h
    phase_of-Ending k (greeting lb d s) h = absurd h
    phase_of-Ending k (serving lb s) h = absurd h
    phase_of-Ending k (apologizing d tx) h = h
    phase_of-Ending k (flushing d tx) h = h
    phase_of-Ending k (closing c tx) h = h
    phase_of-Ending k (gone w tx) h = h
    phase_of-Ending k (aborted tx) h = h

    pub later : (k : ℕ) (m : Main E) → Phase k m → Phase (suc k) m
    later k (expecting tx rx) (v, b, (q, h, lt)) = (v, b, (q, h, omega arith))
    later k (greeting lb d s) (q, r, j, lt) = (q, r, j, omega arith)
    later k (serving lb s) (q, r, j, lt) = (q, r, j, omega arith)
    later k (apologizing d tx) h = h
    later k (flushing d tx) h = h
    later k (closing c tx) h = h
    later k (gone w tx) h = h
    later k (aborted tx) h = h

    concluded-Phase :
        (k : ℕ) (r : Result (Unit {0})) (tx : Shared E.writer)
        → Healthy E tx
        → Phase k (concluded E H r tx)
    concluded-Phase k r tx v = phase_of-Ending k (concluded E H r tx) (concluded-Ending E H r tx v)

    -- The exec message has come.
    spawned-Phase :
        (k : ℕ) (exec : Exec) (tx : Shared E.writer) (rx : SharedRx) (q : List Message)
        (r : Result (Child E))
        → spawn E H exec ≡ r
        → Healthy E tx
        → rx.broken ≡ false
        → Box E.from_slice rx.local q
        → mail rx.local q + (most + 2) < k
        → Phase k (spawned E H exec tx rx r)
    unfolding spawned start joined_session joined
    spawned-Phase k exec tx rx q (err x) e v b h lt =
        concluded-Phase k (err (plain (E.format_debug "Failed to spawn child" x))) tx v
    spawned-Phase k exec tx rx q (ok c) e v b h lt = (
      q,
      record {
        healthy = v;
        unbroken = b;
        box = h;
        stdin_sane = tt;
        stdout_sane = tt;
        stderr_sane = tt;
        exit_sane = child_free exec c e;
      },
      refl,
      omega (arith, bounded exec c e),
    )

    expected-Phase :
        (k n : ℕ) (tx : Shared E.writer) (a : Poll (Result (Option Exec)) × SharedRx)
        → Healthy E tx
        → SharedMails E.from_slice from_exec n a
        → n + (most + 2) < suc k
        → Phase k (expected E H tx a.1 a.0)
    unfolding expected
    expected-Phase k n tx (pending, rx) v (b, (q, h, (s, u))) lt = (v, b, (q, h, omega arith))
    expected-Phase k n tx (ready (err e), rx) v (b, (q, h, (s, u))) lt =
        concluded-Phase k (err e) tx v
    expected-Phase k n tx (ready (ok none), rx) v (b, (q, h, (s, u))) lt =
        concluded-Phase k (err (plain "Connection closed")) tx v
    expected-Phase k n tx (ready (ok (some exec)), rx) v (b, (q, h, (s, u))) lt =
        spawned-Phase k exec tx rx q (spawn E H exec) refl v b h (omega arith)

    greeted-Phase :
        (k : ℕ) (lb : Bool) (s : Session E) (q : List Message) (o : Sent E.writer)
        → Runs E Q q s
        → joined_session E s ≡ none
        → total E Q s q < k
        → Sends E o
        → Phase k (greeting_polled E H lb s o)
    unfolding greeting_polled greeted joined_session
    greeted-Phase k lb s q none r j lt h = absurd h
    greeted-Phase k lb s q (some (pending, (tx, d))) r j lt h = absurd h
    greeted-Phase k lb s q (some (ready (err e), (tx, d))) r j lt h = concluded-Phase k (err e) tx h
    greeted-Phase k lb s q (some (ready (ok _), (tx, d))) r j lt h = (
      q,
      record {
        healthy = h;
        unbroken = r.unbroken;
        box = r.box;
        stdin_sane = r.stdin_sane;
        stdout_sane = r.stdout_sane;
        stderr_sane = r.stderr_sane;
        exit_sane = r.exit_sane;
      },
      j,
      lt,
    )

    -- The first turn of a round before the session is of use.
    pub expecting_turn :
        (k : ℕ) (turn : Turn) (tx : Shared E.writer) (rx : SharedRx)
        → Phase (suc k) (expecting tx rx)
        → Phase k (main_turn E H turn (expecting tx rx))
    unfolding main_turn
    expecting_turn k turn tx rx (v, b, (q, h, lt)) =
        expected-Phase k (mail rx.local q) tx (shared_recv from_exec E.from_slice rx) v
          (shared_recv-Mails E.from_slice from_exec all_give_back.exec_back rx q b h) lt

    pub greeting_turn :
        (k : ℕ) (turn : Turn) (lb : Bool) (d : DoSend) (s : Session E)
        → Phase (suc k) (greeting lb d s)
        → Phase k (main_turn E H turn (greeting lb d s))
    unfolding main_turn
    greeting_turn k turn lb d s (q, r, j, lt) =
        greeted-Phase k lb s q (poll_do_send E.writer d s.tx) r j (omega arith)
          (poll_do_send-Sends E Q d s.tx r.healthy)
