-- ===== src/Agent/Main/Ends.antt =====
-- `main` comes to the close of its connection, where every task gets its turns.
use minimal_vm_tool.Prelude.{
  ℕ, zero, suc, ◌+◌, ◌<◌, ◌≤◌, ◌≡◌, refl, ◌∙◌, sym, subst, Bool, false, inl, inr, Option, none,
  some, List, [], ◌∷◌, ◌++◌, arith, length,
}
use minimal_vm_tool.Outcome.{Result}
use minimal_vm_tool.Protocol.{Message}
use minimal_vm_tool.Io.Rx.Recv.{SharedRx}
use minimal_vm_tool.Agent.Prompt.Mail.{Box}
use minimal_vm_tool.Io.Tx.Handle.{Shared}
use minimal_vm_tool.Agent.Tasks.{Env}
use minimal_vm_tool.Agent.Session.{Session, Turn, session_turn, run_turns}
use minimal_vm_tool.Agent.Prompt.{Prompts, Healthy}
use minimal_vm_tool.Agent.Prompt.Mail.{mail}
use minimal_vm_tool.Agent.Prompt.Turns.{
  Runs, Lives, total, lives, Steps, session_turn-Steps, run_turns-Steps,
}
use minimal_vm_tool.Agent.Prompt.Rounds.{
  Takes, now, later, Covers, Rounds, none_left, round, ended_of_idle, not_all_ended,
}
use minimal_vm_tool.Agent.Main.{
  Host, Main, expecting, greeting, serving, apologizing, flushing, closing, gone, aborted, served,
  joined_session, main_turn, run_main,
}
use minimal_vm_tool.Agent.Main.Closing.{
  Ending, concluded-Ending, main_turn-Ending, weaker, run_main-ended,
}
use minimal_vm_tool.Agent.Main.Phases.{
  Bounded, Phase, phase_of-Ending, expecting_turn, greeting_turn,
}
use minimal_vm_tool.Agent.Main.Phases
use minimal_vm_tool.Agent.Main.Serving.{run_main-append, run_main-Ending, Serves, serving-Serves}

length-Takes : (turn : Turn) (turns : List Turn) → Takes turn turns → 1 ≤ length turns
length-Takes turn turns (now rest) = omega arith
length-Takes turn turns (later first rest t) = omega arith

module _ (E : Env) (H : Host E) (Q : Prompts E) where
  module _ (most : ℕ) (bounded : Bounded E H Q most) where
    abbrev In : ℕ → Main E → Type 0
    In = Phase E H Q most bounded

    serving_turn :
        (k : ℕ) (lb : Bool) (s : Session E) (q : List Message) (r : Option (Result (Unit {0})))
        → Runs E Q q s
        → joined_session E s ≡ r
        → total E Q s q < k
        → In k (served E H lb s r)
    unfolding served
    serving_turn k lb s q none v j lt = (q, v, j, lt)
    serving_turn k lb s q (some r) v j lt =
        phase_of-Ending E H Q most bounded k _ (concluded-Ending E H r s.tx v.healthy)

    after-Steps :
        (k : ℕ) (lb : Bool) (n : ℕ) (v : Lives) (turns : List Turn) (s : Session E)
        → n < k
        → Steps E Q n v turns s
        → In k (served E H lb s (joined_session E s))
    after-Steps k lb n v turns s lt (q, r, inl less) =
        serving_turn k lb s q (joined_session E s) r refl (omega arith)
    after-Steps k lb n v turns s lt (q, r, inr (le, same, idle)) =
        serving_turn k lb s q (joined_session E s) r refl (omega arith)

    -- From the end of the session on.
    on_the_way : (k : ℕ) (turn : Turn) (m : Main E) → Ending E 3 m → In k (main_turn E H turn m)
    on_the_way k turn m h =
        phase_of-Ending E H Q most bounded k (main_turn E H turn m)
          (main_turn-Ending E H Q 3 turn m (weaker E H Q 3 m h))

    pub main_turn-Phase : (k : ℕ) (turn : Turn) (m : Main E) → In k m → In k (main_turn E H turn m)
    unfolding main_turn
    main_turn-Phase zero turn (expecting tx rx) (v, b, (q, h, lt)) = absurd (omega arith)
    main_turn-Phase (suc k) turn (expecting tx rx) h =
        Phases.later E H Q most bounded k (main_turn E H turn (expecting tx rx))
          (expecting_turn E H Q most bounded k turn tx rx h)
    main_turn-Phase zero turn (greeting lb d s) (q, r, j, lt) = absurd (omega arith)
    main_turn-Phase (suc k) turn (greeting lb d s) h =
        Phases.later E H Q most bounded k (main_turn E H turn (greeting lb d s))
          (greeting_turn E H Q most bounded k turn lb d s h)
    main_turn-Phase k turn (serving lb s) (q, r, j, lt) =
        after-Steps k lb (total E Q s q) (lives E Q s) (turn ∷ []) (session_turn E lb turn s) lt
          (session_turn-Steps E Q lb turn s q r)
    main_turn-Phase k turn (apologizing d tx) h = on_the_way k turn (apologizing d tx) h
    main_turn-Phase k turn (flushing d tx) h = on_the_way k turn (flushing d tx) h
    main_turn-Phase k turn (closing c tx) h = on_the_way k turn (closing c tx) h
    main_turn-Phase k turn (gone w tx) h = on_the_way k turn (gone w tx) h
    main_turn-Phase k turn (aborted tx) h = absurd h

    run_main-Phase : (k : ℕ) (turns : List Turn) (m : Main E) → In k m → In k (run_main E H turns m)
    unfolding run_main
    run_main-Phase k [] m h = h
    run_main-Phase k (turn ∷ turns) m h =
        run_main-Phase k turns (main_turn E H turn m) (main_turn-Phase k turn m h)

    -- A round of a session brings its end nearer.
    goes_on :
        (k : ℕ) (lb : Bool) (turns : List Turn) (n : ℕ) (v : Lives) (s : Session E)
        → Covers turns
        → n < suc k
        → joined_session E s ≡ none
        → Steps E Q n v turns s
        → In k (serving lb s)
    goes_on k lb turns n v s c lt j (q, r, inl less) = (q, r, j, omega arith)
    goes_on k lb turns n v s c lt j (q, r, inr (le, same, idle)) =
        absurd (not_all_ended E Q s (same ∙ ended_of_idle v turns c idle) j)

    serving_round :
        (k : ℕ) (lb : Bool) (turns : List Turn) (s : Session E) (q : List Message) (m : Main E)
        → Covers turns
        → Runs E Q q s
        → total E Q s q < suc k
        → Serves E H Q lb turns s m
        → In k m
    serving_round k lb turns s q m c r lt (inl (e, j)) = subst (In k) (sym e) (
        goes_on k lb turns (total E Q s q) (lives E Q s) (run_turns E lb turns s) c lt j
          (run_turns-Steps E Q lb turns s q r))
    serving_round k lb turns s q m c r lt (inr h) = phase_of-Ending E H Q most bounded k m h

    -- A round in which a turn brings the session nearer.
    first_of_round :
        (k : ℕ) (turns : List Turn) (m : Main E)
        → Covers turns
        → ((turn : Turn) → In k (main_turn E H turn m))
        → In k (run_main E H turns m)
    unfolding run_main
    first_of_round k [] m c h = absurd (omega (arith, length-Takes _ [] c.stdin_takes))
    first_of_round k (turn ∷ turns) m c h = run_main-Phase k turns (main_turn E H turn m) (h turn)

    over : (k : ℕ) (turns : List Turn) (m : Main E) → Ending E 3 m → In k (run_main E H turns m)
    over k turns m h =
        phase_of-Ending E H Q most bounded k (run_main E H turns m)
          (run_main-Ending E H Q turns m h)

    round_lem :
        (k : ℕ) (turns : List Turn) (m : Main E)
        → Covers turns
        → In (suc k) m
        → In k (run_main E H turns m)
    round_lem k turns (expecting tx rx) c h =
        first_of_round k turns (expecting tx rx) c
          (λ turn. expecting_turn E H Q most bounded k turn tx rx h)
    round_lem k turns (greeting lb d s) c h =
        first_of_round k turns (greeting lb d s) c
          (λ turn. greeting_turn E H Q most bounded k turn lb d s h)
    round_lem k turns (serving lb s) c (q, r, j, lt) =
        serving_round k lb turns s q (run_main E H turns (serving lb s)) c r lt
          (serving-Serves E H Q lb turns s q r j)
    round_lem k turns (apologizing d tx) c h = over k turns (apologizing d tx) h
    round_lem k turns (flushing d tx) c h = over k turns (flushing d tx) h
    round_lem k turns (closing d tx) c h = over k turns (closing d tx) h
    round_lem k turns (gone w tx) c h = over k turns (gone w tx) h
    round_lem k turns (aborted tx) c h = absurd h

    at_last : (m : Main E) → In 0 m → Ending E 3 m
    at_last (expecting tx rx) (v, b, (q, h, lt)) = absurd (omega arith)
    at_last (greeting lb d s) (q, r, j, lt) = absurd (omega arith)
    at_last (serving lb s) (q, r, j, lt) = absurd (omega arith)
    at_last (apologizing d tx) h = h
    at_last (flushing d tx) h = h
    at_last (closing c tx) h = h
    at_last (gone w tx) h = h
    at_last (aborted tx) h = absurd h

    rounds_lem :
        (n : ℕ) (turns : List Turn) (m : Main E)
        → Rounds n turns
        → In n m
        → Ending E 3 (run_main E H turns m)
    rounds_lem n turns m (none_left rest) h = run_main-Ending E H Q turns m (at_last m h)
    rounds_lem n turns m (round k first rest c more) h =
        subst (Ending E 3) (sym (run_main-append E H Q first rest m))
          (rounds_lem k rest (run_main E H first m) more (round_lem k first m c h))

-- Where the connection delivers in order, takes at least a byte of each write, flushes and shuts
-- down at once, the input of the child is taken or refused at once, and each poll of a wait that is
-- pending brings its child nearer to its end; every child that can be spawned gives its session no
-- more than a bound to do; the sender is open, and the receiver is in order and holds given
-- messages, none of which tells the agent to close an output: main of the exec agent comes to the
-- close of the connection, with the writer that the close returned, whatever else the messages are,
-- if its turns hold more rounds than the polls to come of the reader, four times the messages, the
-- bound and two, in each of which every task gets a turn at its own work, and then three turns.
pub run_main_ends :
    (E : Env) (H : Host E) (Q : Prompts E) (most n : ℕ) (bounded : Bounded E H Q most)
    (turns last : List Turn) (tx : Shared E.writer) (rx : SharedRx) (q : List Message)
    → Healthy E tx
    → rx.broken ≡ false
    → Box E.from_slice rx.local q
    → mail rx.local q + (most + 2) < n
    → Rounds n turns
    → 3 ≤ length last
    → (w : E.writer.Conn) × (tx' : Shared E.writer) × (run_main E H
          (turns ++ last)
          (expecting tx rx)
        ≡ gone (some w) tx')
run_main_ends E H Q most n bounded turns last tx rx q v b h lt rounds enough =
    let (w, tx', e) =
      run_main-ended E H Q last 3 (run_main E H turns (expecting tx rx))
        (rounds_lem E H Q most bounded n turns (expecting tx rx) rounds (v, b, (q, h, lt)))
        enough in
    (w, tx', run_main-append E H Q turns last (expecting tx rx) ∙ e)
