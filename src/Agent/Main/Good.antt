-- ===== src/Agent/Main/Good.antt =====
-- `main` where nothing fails: it does not come to send an `Error`.
use minimal_vm_tool.Prelude.{◌≡◌, ap, ◌∙◌, sym, subst, Bool, Option, none, some, List}
use minimal_vm_tool.Outcome.{Result, ok, err, Poll, pending, ready}
use minimal_vm_tool.Protocol.{Message, Exec, from_exec, started}
use minimal_vm_tool.Protocol.Kinds.{all_give_back}
use minimal_vm_tool.Io.Rx.Recv.{SharedRx, shared_recv}
use minimal_vm_tool.Io.Rx.Recv.Select.{select}
use minimal_vm_tool.Io.Rx.Recv.Steady.{Calm}
use minimal_vm_tool.Io.Rx.Recv.Held.{Each, select-Took, Held, Gets, shared_recv-Gets}
use minimal_vm_tool.Io.Tx.Handle.{Shared}
use minimal_vm_tool.Agent.Tasks.{Env, Sent}
use minimal_vm_tool.Agent.Session.{Session, Turn, start, session_turn}
use minimal_vm_tool.Agent.Prompt.{Prompts, Healthy}
use minimal_vm_tool.Agent.Prompt.Loaded.{Loaded, send_one-Loaded, goes_through}
use minimal_vm_tool.Agent.Prompt.Sound.{NoFaults, SlotSound}
use minimal_vm_tool.Agent.Prompt.Mail.{Allowed}
use minimal_vm_tool.Agent.Prompt.Faultless.{AllSound, session_turn-AllSound}
use minimal_vm_tool.Agent.Main.{
  Child, Host, Main, expecting, greeting, serving, apologizing, flushing, closing, gone, aborted,
  joined_session, concluded, spawn, spawned, expected, greeted, served, greeting_polled,
  flushing_polled, closing_polled, main_turn,
}
use minimal_vm_tool.Agent.Main.Whole.{Apologizing, Bears, Bearing}
use minimal_vm_tool.Agent.Main.Children.{spawn-IsFresh}
use minimal_vm_tool.Agent.Main.Unfailed.{Unfailed, joined_session-Unfailed}

-- A child is there for the `Exec`, and its outputs do not fail.
abbrev pub Spawns : (E : Env) → Host E → Exec → Type 0
Spawns E H exec =
    (c : Child E) × (spawn E H exec ≡ ok c) × Calm Unit c.output.reader × Calm Unit c.errors.reader

module _ (E : Env) (H : Host E) (Q : Prompts E) (N : NoFaults E) where
  module _ (exec : Exec) (there : Spawns E H exec) where
    -- The invariant: the `Exec` is the first one of the mailbox, and then no task fails.
    abbrev pub Good : Main E → Type 0
    Good (expecting tx rx) =
        Healthy E tx
        × ((q : List Message) × (rest : List Message) × Held E.from_slice rx q
            × Each Allowed q
            × (select from_exec q ≡ some (exec, rest)))
    Good (greeting lb d s) = Loaded d × AllSound E Q N s
    Good (serving lb s) = AllSound E Q N s
    Good (apologizing d tx) = ⊥
    Good (flushing d tx) = Unit
    Good (closing c tx) = Unit
    Good (gone w tx) = Unit
    Good (aborted tx) = Unit

    fresh-Sound : (c : Child E) → spawn E H exec ≡ ok c → SlotSound c.process.proc
    fresh-Sound c e =
        let (command, s, h, (p, q)) = spawn-IsFresh E H exec c e in
        subst (λ x. SlotSound x.proc) (sym q) tt

    spawned-Good :
        (tx : Shared E.writer) (rx : SharedRx) (q : List Message) (r : Result (Child E))
        → r ≡ ok there.0
        → Healthy E tx
        → Held E.from_slice rx q
        → Each Allowed q
        → Good (spawned E H exec tx rx r)
    unfolding spawned start
    spawned-Good tx rx q (err e) h v b a = absurd (cc h)
    spawned-Good tx rx q (ok c) h v b a =
        let same : c ≡ there.0 = cc h in
        let (l, e) = N.says (started (record { pid = c.pid })) tt in
        let (_, is_child, out, errors) = there in
        (
          send_one-Loaded E (started (record { pid = c.pid })) l e,
          (
            tt,
            subst (λ x. Calm Unit x.output.reader) (sym same) out,
            subst (λ x. Calm Unit x.errors.reader) (sym same) errors,
            fresh-Sound c (is_child ∙ ap ok (sym same)),
            v,
            (q, b, a),
          ),
        )

    expected-Good :
        (tx : Shared E.writer) (q rest : List Message) (a : Poll (Result (Option Exec)) × SharedRx)
        → Healthy E tx
        → Each Allowed q
        → select from_exec q ≡ some (exec, rest)
        → Gets E.from_slice from_exec q a
        → Good (expected E H tx a.1 a.0)
    unfolding expected
    expected-Good tx q rest (pending, rx) v a f g = (v, (q, rest, g, a, f))
    expected-Good tx q rest (ready (err e), rx) v a f g = absurd g
    expected-Good tx q rest (ready (ok none), rx) v a f (n, g) = absurd (cc (f, n))
    expected-Good tx q rest (ready (ok (some exec')), rx) v a f (rest', e, g) =
        let same : exec' ≡ exec = cc (f, e) in
        let (c, is_child, out, errors) = there in
        let more = (select-Took from_exec Allowed q exec' rest' a e).1 in
        subst (λ x. Good (spawned E H x tx rx (spawn E H x))) (sym same)
          (spawned-Good tx rx rest' (spawn E H exec) is_child v g more)

    served-Good :
        (lb : Bool) (s : Session E) (r : Option (Result (Unit {0})))
        → AllSound E Q N s
        → Unfailed r
        → Good (served E H lb s r)
    unfolding served concluded
    served-Good lb s none v u = v
    served-Good lb s (some (ok _)) v u = tt
    served-Good lb s (some (err e)) v u = u

    flushed-Good : (tx : Shared E.writer) (o : Sent E.writer) → Good (flushing_polled E H tx o)
    unfolding flushing_polled
    flushed-Good tx none = tt
    flushed-Good tx (some (pending, (tx', d))) = tt
    flushed-Good tx (some (ready r, (tx', d))) = tt

    closed-Good : (a : _) → Good (closing_polled E H a)
    unfolding closing_polled
    closed-Good (pending, (c, tx)) = tt
    closed-Good (ready (ok w), (c, tx)) = tt
    closed-Good (ready (err e), (c, tx)) = tt

    pub main_turn-Good : (turn : Turn) (m : Main E) → Good m → Good (main_turn E H turn m)
    unfolding main_turn greeting_polled greeted
    main_turn-Good turn (expecting tx rx) (v, (q, rest, h, a, f)) =
        expected-Good tx q rest (shared_recv from_exec E.from_slice rx) v a f
          (shared_recv-Gets E.from_slice from_exec all_give_back.exec_back rx q h)
    main_turn-Good turn (greeting lb d s) (l, (i, o, r, x, v, h)) =
        let (tx', d', v', e) = goes_through E Q d s.tx l v in
        subst (λ p. Good (greeting_polled E H lb s p)) (sym e) (i, o, r, x, v', h)
    main_turn-Good turn (serving lb s) h =
        let s' = session_turn E lb turn s in
        let v = session_turn-AllSound E Q N lb turn s h in
        served-Good lb s' (joined_session E s') v (joined_session-Unfailed E Q N s' v)
    main_turn-Good turn (apologizing d tx) h = absurd h
    main_turn-Good turn (flushing d tx) h = flushed-Good tx _
    main_turn-Good turn (closing c tx) h = closed-Good _
    main_turn-Good turn (gone w tx) h = tt
    main_turn-Good turn (aborted tx) h = tt

    pub Good-silent : (m : Main E) → Good m → Apologizing E m → ⊥
    Good-silent (apologizing d tx) g a = g
    Good-silent (expecting tx rx) g a = a
    Good-silent (greeting lb d s) g a = a
    Good-silent (serving lb s) g a = a
    Good-silent (flushing d tx) g a = a
    Good-silent (closing c tx) g a = a
    Good-silent (gone w tx) g a = a
    Good-silent (aborted tx) g a = a

    Gets-Bears :
        (q rest : List Message) (a : Poll (Result (Option Exec)) × SharedRx)
        → select from_exec q ≡ some (exec, rest)
        → Gets E.from_slice from_exec q a
        → Bears E H (λ c. c ≡ there.0) a.0
    Gets-Bears q rest (pending, rx) f g = tt
    Gets-Bears q rest (ready (err e), rx) f g = tt
    Gets-Bears q rest (ready (ok none), rx) f g = tt
    Gets-Bears q rest (ready (ok (some exec')), rx) f (rest', e, g) =
        let same : exec' ≡ exec = cc (f, e) in
        let (c', is_child, out, errors) = there in λ c'' h. cc (h, is_child, same)

    pub Good-Bearing : (m : Main E) → Good m → Bearing E H (λ c. c ≡ there.0) m
    Good-Bearing (expecting tx rx) (v, (q, rest, h, a, f)) =
        Gets-Bears q rest (shared_recv from_exec E.from_slice rx) f
          (shared_recv-Gets E.from_slice from_exec all_give_back.exec_back rx q h)
    Good-Bearing (apologizing d tx) g = tt
    Good-Bearing (greeting lb d s) g = tt
    Good-Bearing (serving lb s) g = tt
    Good-Bearing (flushing d tx) g = tt
    Good-Bearing (closing c tx) g = tt
    Good-Bearing (gone w tx) g = tt
    Good-Bearing (aborted tx) g = tt
