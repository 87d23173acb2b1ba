-- ===== src/Agent/Prompt/WatchCosts.antt =====
-- What a turn of `exit` costs.
use minimal_vm_tool.Prelude.{
  ℕ, ◌+◌, ◌<◌, ◌≡◌, refl, Bool, true, false, inl, inr, Option, none, some, List, arith,
}
use minimal_vm_tool.Prelude.Int.{ℤ}
use minimal_vm_tool.Outcome.{Result, ok, err, Poll, pending, ready}
use minimal_vm_tool.Protocol.{Message, Kill, from_kill}
use minimal_vm_tool.Protocol.Kinds.{all_give_back}
use minimal_vm_tool.Io.Rx.Recv.{RxLocal, SharedRx, shared_recv}
use minimal_vm_tool.Agent.Prompt.Mail.{Box}
use minimal_vm_tool.Io.Tx.Handle.{Shared, poll_do_send}
use minimal_vm_tool.Agent.Process.{
  Slot, running, finished, Process, Wait, locking, waiting, KillCall, waited, guarded, poll_wait,
  drop_wait,
}
use minimal_vm_tool.Agent.Tasks.{
  Env, Branch, works, receives, Watch, watching, reporting, watch_waited, watch_received,
  watch_reported, watch_ended, watch_turn, after_send,
}
use minimal_vm_tool.Agent.Prompt.{Prompts, Healthy, poll_do_send-Sends, after_send-Sends}
use minimal_vm_tool.Agent.Prompt.Mail.{mail, Spends, SharedMails, shared_recv-Mails}
use minimal_vm_tool.Agent.Prompt.Costs.{Pays, is_works, Costs, Spent, Spent-Costs}

module _ (E : Env) (Q : Prompts E) where
  abbrev pub slot_cost : Slot E.child → ℕ
  slot_cost (running c) = Q.left_to_run c
  slot_cost (finished r) = 0

  abbrev pub watch_cost : Watch E.child → ℕ
  watch_cost (watching w p) = slot_cost p.proc + 2
  watch_cost (reporting p d) = 1
  watch_cost (Watch.ended r) = 0
  watch_cost Watch.aborted = 0

  abbrev pub watch_live : Watch E.child → Bool
  watch_live (Watch.ended r) = false
  watch_live (watching w p) = true
  watch_live (reporting p d) = true
  watch_live Watch.aborted = true

  -- A wait that locks finds the mutex free.
  abbrev pub WatchSane : Watch E.child → Type 0
  WatchSane Watch.aborted = ⊥
  WatchSane (watching locking p) = p.held ≡ false
  WatchSane (watching waiting p) = Unit
  WatchSane (reporting p d) = Unit
  WatchSane (Watch.ended r) = Unit

  abbrev pub WatchCosts : Bool → ℕ → Bool → Watch E.child × (Shared E.writer × SharedRx) → Type 0
  WatchCosts = Costs E watch_cost watch_live WatchSane

  -- A poll of `wait` that brings the end nearer.
  abbrev Nears : ℕ → Poll (Result ℤ) × (Wait × Process E.child) → Type 0
  Nears n a = WatchSane (watch_waited E a).0 × (watch_cost (watch_waited E a).0 < n + 2)

  waited-Nears :
      (p : Process E.child) (c : E.child.Child) (o : Poll (Result ℤ) × E.child.Child)
      → E.child.child_wait c ≡ o
      → Nears (Q.left_to_run c) (waited E.child p o)
  unfolding waited watch_waited watch_ended
  waited-Nears p c (pending, c') e = (tt, omega (arith, Q.runs_down c c' e))
  waited-Nears p c (ready (ok status), c') e = (tt, omega arith)
  waited-Nears p c (ready (err x), c') e = (tt, omega arith)

  guarded-Nears :
      (p : Process E.child) (s : Slot E.child) → Nears (slot_cost s) (guarded E.child p s)
  unfolding guarded watch_waited watch_ended
  guarded-Nears p (running c) = waited-Nears p c (E.child.child_wait c) refl
  guarded-Nears p (finished (ok status)) = (tt, omega arith)
  guarded-Nears p (finished (err x)) = (tt, omega arith)

  poll_wait-Nears :
      (w : Wait) (p : Process E.child)
      → WatchSane (watching w p)
      → Nears (slot_cost p.proc) (poll_wait E.child w p)
  unfolding poll_wait
  poll_wait-Nears locking p h = rw h (guarded-Nears p p.proc)
  poll_wait-Nears waiting p h = guarded-Nears p p.proc

  dropped :
      (w : Wait) (p : Process E.child)
      → WatchSane (watching w p)
      → ((drop_wait E.child w p).held ≡ false) × ((drop_wait E.child w p).proc ≡ p.proc)
  unfolding drop_wait
  dropped locking p h = (h, refl)
  dropped waiting p h = (refl, refl)

  received-Pays :
      (w : Wait) (p : Process E.child) (r : Poll (Result (Option Kill))) (n n' : ℕ)
      → WatchSane (watching w p)
      → Spends E.from_slice from_kill n n' r
      → let t = (watch_received E w p r).0 in
        WatchSane t × Pays false (slot_cost p.proc + 2 + n) true (watch_cost t + n') (watch_live t)
  unfolding watch_received watch_ended
  received-Pays w p pending n n' h s = (h, inl (omega arith))
  received-Pays w p (ready (err e)) n n' h s = (tt, inl (omega arith))
  received-Pays w p (ready (ok none)) n n' h s =
      let (free, same) = dropped w p h in (free, inr (rw same (omega arith), refl, λ m. cc))
  received-Pays w p (ready (ok (some k))) n n' h s =
      let (free, same) = dropped w p h in (free, inl (rw same (omega arith)))

  watch_received-Costs :
      (w : Wait) (p : Process E.child) (tx : Shared E.writer) (n : ℕ)
      (a : Poll (Result (Option Kill)) × SharedRx)
      → WatchSane (watching w p)
      → Healthy E tx
      → SharedMails E.from_slice from_kill n a
      → WatchCosts false (slot_cost p.proc + 2 + n) true ((watch_received E w p a.0).0, (tx, a.1))
  watch_received-Costs w p tx n (r, rx) h v (b, (q, box, (s, k))) =
      let (sane, pays) = received-Pays w p r n (mail rx.local q) h s in (v, b, sane, (q, box, pays))

  -- What a turn leaves of the task, without the calls of kill(2).
  abbrev pub task_of :
      (Watch E.child × List KillCall) × (Shared E.writer × SharedRx)
      → Watch E.child × (Shared E.writer × SharedRx)
  task_of ((t, calls), rest) = (t, rest)

  abbrev Reported :
      Process E.child → RxLocal → List Message → Watch E.child × Shared E.writer → Type 0
  Reported p rx q (t, tx) =
      Spent E watch_cost watch_live WatchSane rx q 1 ((watch_reported E p t).0, tx)

  sent-Reported :
      (p : Process E.child) (rx : RxLocal) (q : List Message) (r : Result (Unit {0}))
      (tx : Shared E.writer)
      → Healthy E tx
      → Reported p rx q (Watch.ended r, tx)
  unfolding watch_reported watch_ended
  sent-Reported p rx q r tx v = (v, tt, omega arith)

  pub watch_turn-Costs :
      (b : Branch) (t : Watch E.child) (tx : Shared E.writer) (rx : SharedRx) (q : List Message)
      → Healthy E tx
      → rx.broken ≡ false
      → Box E.from_slice rx.local q
      → WatchSane t
      → WatchCosts
          (is_works b)
          (watch_cost t + mail rx.local q)
          (watch_live t)
          (task_of (watch_turn E b t tx rx))
  unfolding watch_turn
  watch_turn-Costs works (watching w p) tx rx q v o h s =
      let (sane, lt) = poll_wait-Nears w p s in
      Spent-Costs E watch_cost watch_live WatchSane true true rx q (slot_cost p.proc + 2)
        ((watch_waited E (poll_wait E.child w p)).0, tx) o h (v, sane, lt)
  watch_turn-Costs receives (watching w p) tx rx q v o h s =
      watch_received-Costs w p tx (mail rx.local q) (shared_recv from_kill E.from_slice rx) s v
        (shared_recv-Mails E.from_slice from_kill all_give_back.kill_back rx q o h)
  watch_turn-Costs b (reporting p d) tx rx q v o h s =
      let a = after_send (poll_do_send E.writer d tx) tx Watch.aborted (reporting p) Watch.ended in
      Spent-Costs E watch_cost watch_live WatchSane (is_works b) true rx q 1
        ((watch_reported E p a.0).0, a.1) o h
        (after_send-Sends E Q (Reported p rx.local q) tx Watch.aborted (reporting p) Watch.ended
          (poll_do_send E.writer d tx) (poll_do_send-Sends E Q d tx v)
          (λ r tx' v'. sent-Reported p rx.local q r tx' v'))
  watch_turn-Costs b (Watch.ended r) tx rx q v o h s =
      (v, o, tt, (q, h, inr (omega arith, refl, λ m. refl)))
  watch_turn-Costs b Watch.aborted tx rx q v o h s = absurd s
