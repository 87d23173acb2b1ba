-- ===== src/Agent/Process.antt =====
-- `Process` of agent/src/process.rs.
pub mod Signals
pub mod WaitError
use minimal_vm_tool.Prelude.{
  ℕ, suc, zero, ◌-◌, ◌^◌, Bool, true, false, Option, none, some, List, [], ◌∷◌, ◌++◌, ltb,
  if◌then◌else◌,
}
use minimal_vm_tool.Prelude.Int.{ℤ, pos, sub_ℕ}
use minimal_vm_tool.Outcome.{Error, plain, Result, ok, err, Poll, pending, ready, with_context}

-- `tokio::process::Child`, and `Signal::try_from` of nix.
pub record Os : Type 1 where
  pub Child : Type 0
  pub id : Child → Option ℕ
  pub child_wait : Child → Poll (Result ℤ) × Child
  pub try_from : ℤ → Option ℤ

-- A call of `kill(2)`.
pub record KillCall : Type 0 where
  pub target : ℤ
  pub number : ℤ

-- `pid as i32`.
unfoldable pub as_i32 : ℕ → ℤ
as_i32 pid = if ltb pid (2 ^ 31) then pos pid else sub_ℕ pid (2 ^ 32)

abbrev pub or_sigkill : Option ℤ → ℤ
or_sigkill (some n) = n
or_sigkill none = pos 9

-- `Either<Child, Result<ExitStatus, ArcErr>>`.
pub data Slot (V : Os) : Type 0 where
  running : V.Child → Slot V
  finished : Result ℤ → Slot V

-- `held`: whether a call of `wait` has the mutex.
pub record Process (V : Os) : Type 0 where
  pub pid : ℕ
  pub held : Bool
  pub proc : Slot V

-- Where the future of `wait` is: in `lock().await`, or in `child.wait().await`.
pub data Wait : Type 0 where
  locking waiting : Wait

module _ (V : Os) where
  unfoldable pub signal_pid : ℕ → ℤ → KillCall
  signal_pid pid signal = record { target = as_i32 pid; number = or_sigkill (V.try_from signal) }

  pub signal_slot : Slot V → ℤ → List KillCall
  unfolding signal_pid
  signal_slot (finished r) signal = []
  signal_slot (running child) signal = elim (V.id child) [
    | some pid ↦ signal_pid pid signal ∷ []
    | none ↦ []
  ]

  -- `Process::signal`: the calls that it makes.
  pub signal : Process V → ℤ → List KillCall
  unfolding signal_slot
  signal p n = if p.held then signal_pid p.pid n ∷ [] else signal_slot p.proc n

  -- `child.wait().await` with the guard, at what its poll returned.
  unfoldable pub waited :
      Process V → Poll (Result ℤ) × V.Child → Poll (Result ℤ) × (Wait × Process V)
  waited p (pending, child) = (pending, (waiting, record p { held = true; proc = running child }))
  waited p (ready r, child) =
      let exit_status = with_context "Failed to wait for child process" r in
      (ready exit_status, (waiting, record p { held = false; proc = finished exit_status }))

  -- The `match` on the guard.
  unfoldable pub guarded : Process V → Slot V → Poll (Result ℤ) × (Wait × Process V)
  unfolding waited
  guarded p (finished result) = (ready result, (waiting, record p { held = false }))
  guarded p (running child) = waited p (V.child_wait child)

  -- A poll of the future of `Process::wait`.
  unfoldable pub poll_wait : Wait → Process V → Poll (Result ℤ) × (Wait × Process V)
  unfolding guarded
  poll_wait locking p = if p.held then (pending, (locking, p)) else guarded p p.proc
  poll_wait waiting p = guarded p p.proc

  -- What becomes of the mutex when that future is dropped.
  unfoldable pub drop_wait : Wait → Process V → Process V
  drop_wait locking p = p
  drop_wait waiting p = record p { held = false }

  pub drop_slot : Process V → Slot V → List KillCall × Process V
  unfolding signal_slot
  drop_slot p (finished r) = ([], p)
  drop_slot p (running child) = (
    signal_slot (running child) (pos 9),
    record p { proc = finished (err (plain "Process killed due to Process handle being dropped")) },
  )

  -- `Process::drop`. Nobody else has the handle, so it is the last user of the slot.
  pub drop_process : Process V → List KillCall × Process V
  unfolding drop_slot signal_pid
  drop_process p = if p.held then (signal_pid p.pid (pos 9) ∷ [], p) else drop_slot p p.proc
