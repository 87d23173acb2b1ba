-- ===== src/Agent/Main/Children.antt =====
-- The child that `process::spawn` gives: its pid, and a mutex that nobody holds.
use minimal_vm_tool.Prelude.{ℕ, ◌≡◌, refl, Option, none, some, List, false}
use minimal_vm_tool.Outcome.{Result, ok, err, with_context, ◌>>=◌}
use minimal_vm_tool.Protocol.{Exec}
use minimal_vm_tool.Io.Rx.{ReadEvent}
use minimal_vm_tool.Agent.Process.{running}
use minimal_vm_tool.Agent.Process.Signals.{HasId}
use minimal_vm_tool.Agent.Spawn.{Command, command_of}
use minimal_vm_tool.Agent.Tasks.{Env}
use minimal_vm_tool.Agent.Main.{Spawned, Child, Host, pid_of, child_of, spawn}

module _ (E : Env) (H : Host E) where
  abbrev Wraps : Spawned E → Child E → Type 0
  Wraps s c =
      (c.pid ≡ pid_of E H (E.child.id s.child))
      × (c.process
          ≡ record { pid = pid_of E H (E.child.id s.child); held = false; proc = running s.child })

  -- A child of the kernel's, which nobody has used.
  abbrev pub IsFresh : Child E → Type 0
  IsFresh c = (command : Command) × (s : Spawned E) × (H.spawn_command command ≡ ok s) × Wraps s c

  child_of-Wraps_at :
      (child : E.child.Child) (a : Option E.Input) (b d : Option (List ReadEvent)) (c : Child E)
      → child_of E H (record { child = child; stdin = a; stdout = b; stderr = d }) ≡ ok c
      → Wraps (record { child = child; stdin = a; stdout = b; stderr = d }) c
  unfolding child_of
  child_of-Wraps_at child none b d c e = absurd (cc e)
  child_of-Wraps_at child (some i) none d c e = absurd (cc e)
  child_of-Wraps_at child (some i) (some r) none c e = absurd (cc e)
  child_of-Wraps_at child (some i) (some r) (some t) c e = (cc e, cc e)

  spawned-IsFresh :
      (command : Command) (r : Result (Spawned E)) (c : Child E)
      → H.spawn_command command ≡ r
      → (do s ← with_context "Failed to spawn child process" r; child_of E H s) ≡ ok c
      → IsFresh c
  spawned-IsFresh command (ok s) c h e =
      (command, s, h, child_of-Wraps_at s.child s.stdin s.stdout s.stderr c e)
  spawned-IsFresh command (err x) c h e = absurd (cc e)

  commanded-IsFresh :
      (r : Result Command) (c : Child E)
      → (do
        command ← r
        s ← with_context "Failed to spawn child process" (H.spawn_command command)
        child_of E H s)
        ≡ ok c
      → IsFresh c
  commanded-IsFresh (ok command) c e = spawned-IsFresh command (H.spawn_command command) c refl e
  commanded-IsFresh (err x) c e = absurd (cc e)

  pub spawn-IsFresh : (exec : Exec) (c : Child E) → spawn E H exec ≡ ok c → IsFresh c
  unfolding spawn
  spawn-IsFresh exec c e = commanded-IsFresh (command_of H.kernel H.uid exec) c e

  -- `Child::id` documents an id until the child has been polled to its end.
  pub record HasPids : Type 0 where
    pub has_pid :
        (command : Command) (s : Spawned E)
        → H.spawn_command command ≡ ok s
        → (pid : ℕ) × (E.child.id s.child ≡ some pid)

  pub spawn-HasId :
      (P : HasPids) (exec : Exec) (c : Child E)
      → spawn E H exec ≡ ok c
      → HasId E.child c.pid c.process
  unfolding pid_of
  spawn-HasId P exec c e =
      let (command, s, h, (p, q)) = spawn-IsFresh exec c e in
      let (pid, i) = P.has_pid command s h in
      record {
        same_pid = rw q (rw p refl);
        child = s.child;
        runs = rw q refl;
        id_of = rw p (rw i refl);
      }
