-- ===== src/Agent/Main/Closing.antt =====
-- `main` from the end of its session on: it comes to the close in three turns.
use minimal_vm_tool.Prelude.{ℕ, zero, suc, ◌≤◌, ◌≡◌, refl, none, some, List, [], ◌∷◌, arith, length}
use minimal_vm_tool.Outcome.{Result, ok, err, Poll, pending, ready}
use minimal_vm_tool.Io.Tx.Handle.{Shared, CloseState, poll_do_send, poll_close_tx}
use minimal_vm_tool.Io.Tx.Handle.Progress.{open_tx}
use minimal_vm_tool.Io.Tx.Handle.Shuts.{Returns, poll_close_tx-Returns}
use minimal_vm_tool.Agent.Tasks.{Env, Sent}
use minimal_vm_tool.Agent.Session.{Turn}
use minimal_vm_tool.Agent.Prompt.{Prompts, Healthy, Sends, poll_do_send-Sends}
use minimal_vm_tool.Agent.Main.{
  Host, Main, expecting, greeting, serving, apologizing, flushing, closing, gone, aborted,
  concluded, apologizing_polled, flushing_polled, closing_polled, main_turn, run_main,
}

module _ (E : Env) where
  -- At most so many turns from a connection that was closed well.
  abbrev pub Ending : ℕ → Main E → Type 0
  Ending n (expecting tx rx) = ⊥
  Ending n (greeting lb d s) = ⊥
  Ending n (serving lb s) = ⊥
  Ending n (apologizing d tx) = Healthy E tx × (3 ≤ n)
  Ending n (flushing d tx) = Healthy E tx × (2 ≤ n)
  Ending n (closing c tx) = (c ≡ CloseState.flushing) × Healthy E tx × (1 ≤ n)
  Ending n (gone (some w) tx) = Unit
  Ending n (gone none tx) = ⊥
  Ending n (aborted tx) = ⊥

  module _ (H : Host E) where
    pub concluded-Ending :
        (r : Result (Unit {0})) (tx : Shared E.writer)
        → Healthy E tx
        → Ending 3 (concluded E H r tx)
    unfolding concluded
    concluded-Ending (ok _) tx v = (v, omega arith)
    concluded-Ending (err e) tx v = (v, omega arith)

    module _ (Q : Prompts E) where
      apologized :
          (n : ℕ) (tx : Shared E.writer) (o : Sent E.writer)
          → Sends E o
          → 2 ≤ n
          → Ending n (apologizing_polled E H tx o)
      unfolding apologizing_polled
      apologized n tx none v le = v
      apologized n tx (some (pending, (tx', d))) v le = absurd v
      apologized n tx (some (ready r, (tx', d))) v le = (v, le)

      flushed :
          (n : ℕ) (tx : Shared E.writer) (o : Sent E.writer)
          → Sends E o
          → 1 ≤ n
          → Ending n (flushing_polled E H tx o)
      unfolding flushing_polled
      flushed n tx none v le = v
      flushed n tx (some (pending, (tx', d))) v le = absurd v
      flushed n tx (some (ready r, (tx', d))) v le = (refl, v, le)

      closed :
          (n : ℕ) (p : Poll (Result (E.writer.Conn)) × (CloseState E.writer × Shared E.writer))
          → Returns E.writer Q.prompt Q.shuts p.0
          → Ending n (closing_polled E H p)
      unfolding closing_polled
      closed n (pending, (c, tx)) h = absurd h
      closed n (ready (ok w), (c, tx)) h = tt
      closed n (ready (err e), (c, tx)) h = h

      pub main_turn-Ending :
          (n : ℕ) (turn : Turn) (m : Main E) → Ending (suc n) m → Ending n (main_turn E H turn m)
      unfolding main_turn
      main_turn-Ending n turn (expecting tx rx) h = absurd h
      main_turn-Ending n turn (greeting lb d s) h = absurd h
      main_turn-Ending n turn (serving lb s) h = absurd h
      main_turn-Ending n turn (apologizing d tx) (v, le) =
          apologized n tx (poll_do_send E.writer d tx) (poll_do_send-Sends E Q d tx v) (omega arith)
      main_turn-Ending n turn (flushing d tx) (v, le) =
          flushed n tx (poll_do_send E.writer d tx) (poll_do_send-Sends E Q d tx v) (omega arith)
      main_turn-Ending n turn (closing c tx) (e, (s, h), le) =
          rw (e, h)
            (closed n (poll_close_tx E.writer CloseState.flushing (open_tx E.writer s))
              (poll_close_tx-Returns E.writer Q.prompt Q.shuts s))
      main_turn-Ending n turn (gone (some w) tx) h = tt
      main_turn-Ending n turn (gone none tx) h = h
      main_turn-Ending n turn (aborted tx) h = h

      -- With no turn left, it is there.
      pub ended :
          (m : Main E)
          → Ending 0 m
          → (w : E.writer.Conn) × (tx : Shared E.writer) × (m ≡ gone (some w) tx)
      ended (expecting tx rx) h = absurd h
      ended (greeting lb d s) h = absurd h
      ended (serving lb s) h = absurd h
      ended (apologizing d tx) h = absurd (omega (arith, h.1))
      ended (flushing d tx) h = absurd (omega (arith, h.1))
      ended (closing c tx) (e, v, le) = absurd (omega arith)
      ended (gone (some w) tx) h = (w, tx, refl)
      ended (gone none tx) h = absurd h
      ended (aborted tx) h = absurd h

      pub weaker : (n : ℕ) (m : Main E) → Ending n m → Ending (suc n) m
      weaker n (expecting tx rx) h = h
      weaker n (greeting lb d s) h = h
      weaker n (serving lb s) h = h
      weaker n (apologizing d tx) (v, le) = (v, omega arith)
      weaker n (flushing d tx) (v, le) = (v, omega arith)
      weaker n (closing c tx) (e, v, le) = (e, v, omega arith)
      weaker n (gone (some w) tx) h = h
      weaker n (gone none tx) h = h
      weaker n (aborted tx) h = h

      -- The turns bring it there.
      pub run_main-ended :
          (turns : List Turn) (n : ℕ) (m : Main E)
          → Ending n m
          → n ≤ length turns
          → (w : E.writer.Conn) × (tx : Shared E.writer) × (run_main E H turns m ≡ gone (some w) tx)
      unfolding run_main
      run_main-ended [] zero m h le = ended m h
      run_main-ended [] (suc n) m h le = absurd (omega arith)
      run_main-ended (turn ∷ turns) zero m h le =
          run_main-ended turns zero (main_turn E H turn m)
            (main_turn-Ending zero turn m (weaker zero m h)) (omega arith)
      run_main-ended (turn ∷ turns) (suc n) m h le =
          run_main-ended turns n (main_turn E H turn m) (main_turn-Ending n turn m h) (omega arith)
