-- ===== src/Agent/Main/Serving.antt =====
-- `main` over several turns: at its end, and in a session that goes on or ends on the way.
use minimal_vm_tool.Prelude.{
  ◌≡◌, refl, Bool, ◌⊎◌, inl, inr, Option, none, some, List, [], ◌∷◌, ◌++◌,
}
use minimal_vm_tool.Outcome.{Result}
use minimal_vm_tool.Protocol.{Message}
use minimal_vm_tool.Agent.Tasks.{Env}
use minimal_vm_tool.Agent.Session.{Session, Turn, session_turn, run_turns}
use minimal_vm_tool.Agent.Prompt.{Prompts, Healthy}
use minimal_vm_tool.Agent.Prompt.Turns.{Runs, session_turn-Steps}
use minimal_vm_tool.Agent.Main.{Host, Main, serving, served, joined_session, main_turn, run_main}
use minimal_vm_tool.Agent.Main.Closing.{Ending, concluded-Ending, main_turn-Ending, weaker}

module _ (E : Env) (H : Host E) (Q : Prompts E) where
  pub run_main-append :
      (xs ys : List Turn) (m : Main E)
      → run_main E H (xs ++ ys) m ≡ run_main E H ys (run_main E H xs m)
  unfolding run_main
  run_main-append [] ys m = refl
  run_main-append (x ∷ xs) ys m = run_main-append xs ys (main_turn E H x m)

  pub run_main-Ending :
      (turns : List Turn) (m : Main E) → Ending E 3 m → Ending E 3 (run_main E H turns m)
  unfolding run_main
  run_main-Ending [] m h = h
  run_main-Ending (turn ∷ turns) m h =
      run_main-Ending turns (main_turn E H turn m)
        (main_turn-Ending E H Q 3 turn m (weaker E H Q 3 m h))

  -- A session that goes on through the turns, or that is over.
  abbrev pub Serves : Bool → List Turn → Session E → Main E → Type 0
  Serves lb turns s m =
      ((m ≡ serving lb (run_turns E lb turns s))
        × (joined_session E (run_turns E lb turns s) ≡ none))
      ⊎ Ending E 3 m

  served-Serves :
      (lb : Bool) (turns : List Turn) (s : Session E) (r : Option (Result (Unit {0})))
      → joined_session E s ≡ r
      → Healthy E s.tx
      → (joined_session E s ≡ none → Serves lb turns s (run_main E H turns (serving lb s)))
      → Serves lb turns s (run_main E H turns (served E H lb s r))
  unfolding served
  served-Serves lb turns s none j v go_on = go_on j
  served-Serves lb turns s (some r) j v go_on =
      inr (run_main-Ending turns _ (concluded-Ending E H r s.tx v))

  pub serving-Serves :
      (lb : Bool) (turns : List Turn) (s : Session E) (q : List Message)
      → Runs E Q q s
      → joined_session E s ≡ none
      → Serves lb turns s (run_main E H turns (serving lb s))
  unfolding run_main main_turn run_turns
  serving-Serves lb [] s q r j = inl (refl, j)
  serving-Serves lb (turn ∷ turns) s q r j =
      let s' = session_turn E lb turn s in
      let (q', r', p) = session_turn-Steps E Q lb turn s q r in
      served-Serves lb turns s' (joined_session E s') refl r'.healthy
        (serving-Serves lb turns s' q' r')
