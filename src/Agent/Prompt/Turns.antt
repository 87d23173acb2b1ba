-- ===== src/Agent/Prompt/Turns.antt =====
-- What a turn of a session costs: it brings the end nearer, or the task whose turn it was has ended.
use minimal_vm_tool.Prelude.{
  ℕ, ◌+◌, ◌<◌, ◌≤◌, ◌≡◌, refl, ap, ◌∙◌, Bool, true, false, ◌⊎◌, inl, inr, List, [], ◌∷◌, ◌++◌,
  arith,
}
use minimal_vm_tool.Protocol.{Message, out_stream, err_stream}
use minimal_vm_tool.Io.Rx.Recv.{SharedRx}
use minimal_vm_tool.Agent.Prompt.Mail.{Box}
use minimal_vm_tool.Io.Tx.Handle.{Shared}
use minimal_vm_tool.Agent.Process.{KillCall}
use minimal_vm_tool.Agent.Tasks.{Env, Branch, Copy, Feed, Watch, feed_turn, copy_turn, watch_turn}
use minimal_vm_tool.Agent.Session.{
  Session, Turn, stdin_turn, stdout_turn, stderr_turn, exit_turn, session_turn, run_turns,
}
use minimal_vm_tool.Agent.Prompt.{Prompts, Healthy}
use minimal_vm_tool.Agent.Prompt.Mail.{mail}
use minimal_vm_tool.Agent.Prompt.Costs.{
  is_works, copy_cost, copy_live, CopySane, CopyCosts, copy_turn-Costs,
}
use minimal_vm_tool.Agent.Prompt.FeedCosts.{
  feed_cost, feed_live, FeedSane, FeedCosts, feed_turn-Costs,
}
use minimal_vm_tool.Agent.Prompt.WatchCosts.{
  watch_cost, watch_live, WatchSane, WatchCosts, task_of, watch_turn-Costs,
}

-- Which of the tasks have not ended: `stdin`, `stdout`, `stderr` and `exit`.
pub record Lives : Type 0 where
  pub stdin_live : Bool
  pub stdout_live : Bool
  pub stderr_live : Bool
  pub exit_live : Bool

-- The task that works in the turn has ended.
abbrev pub Idle : Lives → Turn → Type 0
Idle v stdin_turn = v.stdin_live ≡ false
Idle v (stdout_turn b) = is_works b ≡ true → v.stdout_live ≡ false
Idle v (stderr_turn b) = is_works b ≡ true → v.stderr_live ≡ false
Idle v (exit_turn b) = is_works b ≡ true → v.exit_live ≡ false

abbrev pub AllIdle : Lives → List Turn → Type 0
AllIdle v [] = Unit
AllIdle v (turn ∷ turns) = Idle v turn × AllIdle v turns

module _ (E : Env) (Q : Prompts E) where
  abbrev pub lives : Session E → Lives
  lives s = record {
    stdin_live = feed_live s.stdin_task;
    stdout_live = copy_live s.stdout_task;
    stderr_live = copy_live s.stderr_task;
    exit_live = watch_live E Q s.exit_task;
  }

  abbrev pub total : Session E → List Message → ℕ
  total s q =
      feed_cost s.stdin_task
      + (copy_cost s.stdout_task + (copy_cost s.stderr_task + watch_cost E Q s.exit_task))
      + mail s.rx.local q

  -- A session that can go on, with the mailbox `q`.
  pub record Runs (q : List Message) (s : Session E) : Type 0 where
    pub healthy : Healthy E s.tx
    pub unbroken : s.rx.broken ≡ false
    pub box : Box E.from_slice s.rx.local q
    pub stdin_sane : FeedSane s.stdin_task
    pub stdout_sane : CopySane s.stdout_task
    pub stderr_sane : CopySane s.stderr_task
    pub exit_sane : WatchSane E Q s.exit_task

  -- After turns, from a session with the cost `n` and the tasks `v`.
  abbrev pub Steps : ℕ → Lives → List Turn → Session E → Type 0
  Steps n v turns s =
      (q : List Message) × Runs q s
      × ((total s q < n) ⊎ ((total s q ≤ n) × (lives s ≡ v) × AllIdle v turns))

  after_feed :
      (s : Session E) (q : List Message) (a : Feed E.Input × (Shared E.writer × SharedRx))
      → Runs q s
      → FeedCosts E Q true (feed_cost s.stdin_task + mail s.rx.local q) (feed_live s.stdin_task) a
      → Steps
          (total s q)
          (lives s)
          (stdin_turn ∷ [])
          (record s { stdin_task = a.0; tx = a.1.0; rx = a.1.1 })
  after_feed s q (t, (tx, rx)) r (v, b, sane, (q', h, p)) = (
    q',
    record {
      healthy = v;
      unbroken = b;
      box = h;
      stdin_sane = sane;
      stdout_sane = r.stdout_sane;
      stderr_sane = r.stderr_sane;
      exit_sane = r.exit_sane;
    },
    elim p [
      | inl lt ↦ inl (omega arith)
      | inr (le, same, idle) ↦
          inr (omega arith, ap (λ l. record (lives s) { stdin_live = l }) same, (idle refl, tt))
    ],
  )

  after_stdout :
      (s : Session E) (q : List Message) (b : Branch) (a : Copy × (Shared E.writer × SharedRx))
      → Runs q s
      → CopyCosts E Q out_stream tt
          (is_works b)
          (copy_cost s.stdout_task + mail s.rx.local q)
          (copy_live s.stdout_task)
          a
      → Steps
          (total s q)
          (lives s)
          (stdout_turn b ∷ [])
          (record s { stdout_task = a.0; tx = a.1.0; rx = a.1.1 })
  after_stdout s q b (t, (tx, rx)) r (v, o, sane, (q', h, p)) = (
    q',
    record {
      healthy = v;
      unbroken = o;
      box = h;
      stdin_sane = r.stdin_sane;
      stdout_sane = sane;
      stderr_sane = r.stderr_sane;
      exit_sane = r.exit_sane;
    },
    elim p [
      | inl lt ↦ inl (omega arith)
      | inr (le, same, idle) ↦
          inr (omega arith, ap (λ l. record (lives s) { stdout_live = l }) same, (idle, tt))
    ],
  )

  after_stderr :
      (s : Session E) (q : List Message) (b : Branch) (a : Copy × (Shared E.writer × SharedRx))
      → Runs q s
      → CopyCosts E Q err_stream tt
          (is_works b)
          (copy_cost s.stderr_task + mail s.rx.local q)
          (copy_live s.stderr_task)
          a
      → Steps
          (total s q)
          (lives s)
          (stderr_turn b ∷ [])
          (record s { stderr_task = a.0; tx = a.1.0; rx = a.1.1 })
  after_stderr s q b (t, (tx, rx)) r (v, o, sane, (q', h, p)) = (
    q',
    record {
      healthy = v;
      unbroken = o;
      box = h;
      stdin_sane = r.stdin_sane;
      stdout_sane = r.stdout_sane;
      stderr_sane = sane;
      exit_sane = r.exit_sane;
    },
    elim p [
      | inl lt ↦ inl (omega arith)
      | inr (le, same, idle) ↦
          inr (omega arith, ap (λ l. record (lives s) { stderr_live = l }) same, (idle, tt))
    ],
  )

  after_watch :
      (s : Session E) (q : List Message) (b : Branch)
      (a : (Watch E.child × List KillCall) × (Shared E.writer × SharedRx))
      → Runs q s
      → WatchCosts E Q
          (is_works b)
          (watch_cost E Q s.exit_task + mail s.rx.local q)
          (watch_live E Q s.exit_task)
          (task_of E Q a)
      → Steps
          (total s q)
          (lives s)
          (exit_turn b ∷ [])
          (record s { exit_task = a.0.0; tx = a.1.0; rx = a.1.1; kills = s.kills ++ a.0.1 })
  after_watch s q b ((t, calls), (tx, rx)) r (v, o, sane, (q', h, p)) = (
    q',
    record {
      healthy = v;
      unbroken = o;
      box = h;
      stdin_sane = r.stdin_sane;
      stdout_sane = r.stdout_sane;
      stderr_sane = r.stderr_sane;
      exit_sane = sane;
    },
    elim p [
      | inl lt ↦ inl (omega arith)
      | inr (le, same, idle) ↦
          inr (omega arith, ap (λ l. record (lives s) { exit_live = l }) same, (idle, tt))
    ],
  )

  pub session_turn-Steps :
      (lb : Bool) (turn : Turn) (s : Session E) (q : List Message)
      → Runs q s
      → Steps (total s q) (lives s) (turn ∷ []) (session_turn E lb turn s)
  unfolding session_turn
  session_turn-Steps lb stdin_turn s q r =
      after_feed s q (feed_turn E s.stdin_task s.tx s.rx) r
        (feed_turn-Costs E Q s.stdin_task s.tx s.rx q r.healthy r.unbroken r.box r.stdin_sane)
  session_turn-Steps lb (stdout_turn b) s q r =
      after_stdout s q b (copy_turn E out_stream lb b s.stdout_task s.tx s.rx) r (
        copy_turn-Costs E Q out_stream tt lb b s.stdout_task s.tx s.rx q r.healthy r.unbroken r.box
          r.stdout_sane)
  session_turn-Steps lb (stderr_turn b) s q r =
      after_stderr s q b (copy_turn E err_stream lb b s.stderr_task s.tx s.rx) r (
        copy_turn-Costs E Q err_stream tt lb b s.stderr_task s.tx s.rx q r.healthy r.unbroken r.box
          r.stderr_sane)
  session_turn-Steps lb (exit_turn b) s q r =
      after_watch s q b (watch_turn E b s.exit_task s.tx s.rx) r
        (watch_turn-Costs E Q b s.exit_task s.tx s.rx q r.healthy r.unbroken r.box r.exit_sane)

  Steps-carry :
      (n m : ℕ) (v w : Lives) (turn : Turn) (turns : List Turn) (s : Session E)
      → (m < n) ⊎ ((m ≤ n) × (w ≡ v) × AllIdle v (turn ∷ []))
      → Steps m w turns s
      → Steps n v (turn ∷ turns) s
  Steps-carry n m v w turn turns s (inl lt) (q, r, inl lt') = (q, r, inl (omega arith))
  Steps-carry n m v w turn turns s (inl lt) (q, r, inr (le, same, idles)) =
      (q, r, inl (omega arith))
  Steps-carry n m v w turn turns s (inr (le, same, idle)) (q, r, inl lt) = (q, r, inl (omega arith))
  Steps-carry n m v w turn turns s (inr (le, same, idle)) (q, r, inr (le', same', idles)) =
      (q, r, inr (omega arith, same' ∙ same, (idle.0, rw (same) at idles)))

  -- A list of turns brings the end nearer, or each task that works in it has ended.
  pub run_turns-Steps :
      (lb : Bool) (turns : List Turn) (s : Session E) (q : List Message)
      → Runs q s
      → Steps (total s q) (lives s) turns (run_turns E lb turns s)
  unfolding run_turns
  run_turns-Steps lb [] s q r = (q, r, inr (omega arith, refl, tt))
  run_turns-Steps lb (turn ∷ turns) s q r =
      let s' = session_turn E lb turn s in
      let (q', r', p) = session_turn-Steps lb turn s q r in
      Steps-carry (total s q) (total s' q') (lives s) (lives s') turn turns
        (run_turns E lb turns s') p (run_turns-Steps lb turns s' q' r')
