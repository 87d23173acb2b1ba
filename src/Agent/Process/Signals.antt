-- ===== src/Agent/Process/Signals.antt =====
-- Signals reach the process, once each, as long as it has not been waited for.
use minimal_vm_tool.Prelude.{ℕ, ◌≡◌, refl, ◌∙◌, sym, subst, Bool, true, false, some, [], ◌∷◌}
use minimal_vm_tool.Prelude.Int.{ℤ, pos}
use minimal_vm_tool.Outcome.{Result, Poll, pending, ready, with_context}
use minimal_vm_tool.Agent.Process.{
  Os, Slot, running, finished, Process, Wait, locking, waiting, signal_pid, signal_slot, signal,
  waited, guarded, poll_wait, drop_wait, drop_slot, drop_process,
}

module _ (V : Os) where
  -- What a poll of `wait` that is ready leaves.
  abbrev pub Settles : ℤ → Poll (Result ℤ) → Process V → Type 0
  Settles n pending p = Unit
  Settles n (ready r) p =
      (signal V p n ≡ [])
      × (drop_process V p ≡ ([], p))
      × (poll_wait V locking p ≡ (ready r, (waiting, p)))

  finished-Settles :
      (n : ℤ) (pid : ℕ) (r : Result ℤ)
      → Settles n (ready r) (record { pid = pid; held = false; proc = finished r })
  unfolding signal signal_slot drop_process drop_slot poll_wait guarded
  finished-Settles n pid r = (refl, refl, refl)

  waited-Settles :
      (n : ℤ) (p : Process V) (o : Poll (Result ℤ) × V.Child)
      → Settles n (waited V p o).0 (waited V p o).1.1
  unfolding waited
  waited-Settles n p (pending, child) = tt
  waited-Settles n p (ready r, child) =
      finished-Settles n p.pid (with_context "Failed to wait for child process" r)

  guarded-Settles :
      (n : ℤ) (p : Process V) (slot : Slot V)
      → p.proc ≡ slot
      → Settles n (guarded V p slot).0 (guarded V p slot).1.1
  unfolding guarded
  guarded-Settles n p (running child) e = waited-Settles n p (V.child_wait child)
  guarded-Settles n p (finished r) e =
      subst (λ s. Settles n (ready r) (record { pid = p.pid; held = false; proc = s })) (sym e)
        (finished-Settles n p.pid r)

  poll_wait_at :
      (n : ℤ) (w : Wait) (p : Process V) (b : Bool)
      → p.held ≡ b
      → Settles n (poll_wait V w p).0 (poll_wait V w p).1.1
  unfolding poll_wait
  poll_wait_at n locking p true e = rw e tt
  poll_wait_at n locking p false e = rw e (guarded-Settles n p p.proc refl)
  poll_wait_at n waiting p b e = guarded-Settles n p p.proc refl

  -- After a poll of wait that is ready, a signal and a drop of the handle make no call of kill, the
  -- drop changes nothing, and another wait is ready at once with the same result.
  pub poll_wait-Settles :
      (n : ℤ) (w : Wait) (p : Process V) → Settles n (poll_wait V w p).0 (poll_wait V w p).1.1
  poll_wait-Settles n w p = poll_wait_at n w p p.held refl

  -- The pid that the child has while it has not been polled to completion.
  pub record HasId (pid : ℕ) (p : Process V) : Type 0 where
    pub same_pid : p.pid ≡ pid
    pub child : V.Child
    pub runs : p.proc ≡ running child
    pub id_of : V.id child ≡ some pid

  module _ (keeps : (c c' : V.Child) → V.child_wait c ≡ (pending, c') → V.id c' ≡ V.id c) where
    -- A `wait` future that has the mutex, or finds it free.
    abbrev pub Ready : Wait → Process V → Type 0
    Ready locking p = p.held ≡ false
    Ready waiting p = Unit

    abbrev pub Keeps : ℕ → Poll (Result ℤ) × (Wait × Process V) → Type 0
    Keeps pid (pending, (w, p)) = HasId pid p × Ready w p
    Keeps pid (ready r, s) = Unit

    waited-Keeps :
        (pid : ℕ) (p : Process V) (c : V.Child) (o : Poll (Result ℤ) × V.Child)
        → p.pid ≡ pid
        → V.id c ≡ some pid
        → V.child_wait c ≡ o
        → Keeps pid (waited V p o)
    unfolding waited
    waited-Keeps pid p c (ready r, c') e i h = tt
    waited-Keeps pid p c (pending, c') e i h =
        (record { same_pid = e; child = c'; runs = refl; id_of = keeps c c' h ∙ i }, tt)

    guarded-Keeps : (pid : ℕ) (p : Process V) → HasId pid p → Keeps pid (guarded V p p.proc)
    unfolding guarded
    guarded-Keeps pid p v =
        rw v.runs (waited-Keeps pid p v.child (V.child_wait v.child) v.same_pid v.id_of refl)

    pub poll_wait-Keeps :
        (pid : ℕ) (w : Wait) (p : Process V) → HasId pid p → Ready w p → Keeps pid (poll_wait V w p)
    unfolding poll_wait
    poll_wait-Keeps pid locking p v h = rw h (guarded-Keeps pid p v)
    poll_wait-Keeps pid waiting p v h = guarded-Keeps pid p v

    pub dropped :
        (pid : ℕ) (w : Wait) (p : Process V)
        → HasId pid p
        → Ready w p
        → HasId pid (drop_wait V w p) × ((drop_wait V w p).held ≡ false)
    unfolding drop_wait
    dropped pid locking p v h = (v, h)
    dropped pid waiting p v h =
        (record { same_pid = v.same_pid; child = v.child; runs = v.runs; id_of = v.id_of }, refl)

    pub signal_at :
        (pid : ℕ) (p : Process V) (n : ℤ)
        → HasId pid p
        → p.held ≡ false
        → signal V p n ≡ signal_pid V pid n ∷ []
    unfolding signal signal_slot
    signal_at pid p n v h = rw (h, v.runs, signal_slot, v.id_of) refl

    -- A drop of a process that runs kills it.
    pub drop_process_at :
        (pid : ℕ) (p : Process V)
        → HasId pid p
        → p.held ≡ false
        → (drop_process V p).0 ≡ signal_pid V pid (pos 9) ∷ []
    unfolding drop_process drop_slot signal_slot
    drop_process_at pid p v h = rw (h, v.runs, signal_slot, v.id_of) refl
