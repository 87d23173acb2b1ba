-- ===== src/Tests/Guest.antt =====
-- A guest on which the agent runs: its kernel, a child that takes its input and prints a line, and
-- its connection; and that these keep the hypotheses of the theorems.
use Prim.Native.String
use minimal_vm_tool.Prelude.{
  ℕ, zero, suc, ◌≡◌, refl, ap, subst, false, some, none, List, [], ◌∷◌, ◌++◌, append-nil, Bytes,
}
use minimal_vm_tool.Prelude.Int.{ℤ, pos}
use minimal_vm_tool.Outcome.{plain, Result, ok, Poll, pending, ready}
use minimal_vm_tool.Io.Rx.{ReadEvent, chunk, wait, fail}
use minimal_vm_tool.Io.Rx.Recv.{SharedRx, new_rx}
use minimal_vm_tool.Io.Tx.Handle.{Shared}
use minimal_vm_tool.Agent.Chunks.Broken.{Blocked}
use minimal_vm_tool.Agent.Process.{Os, Process, running}
use minimal_vm_tool.Agent.Spawn.{Kernel}
use minimal_vm_tool.Agent.Tasks.{Env}
use minimal_vm_tool.Agent.Main.{Spawned, Host}
use minimal_vm_tool.Agent.Tasks.Copying.{SilentClosed}
use minimal_vm_tool.Agent.Tasks.Hearing.{WritesAll}
use minimal_vm_tool.Agent.Tasks.Killing.{KeepsId}
use minimal_vm_tool.Tests.Writers.{sink}
use minimal_vm_tool.Tests.Codec.{to_vec, from_slice}

-- A child that runs for a poll of its wait.
abbrev child_wait : ℕ → Poll (Result ℤ) × ℕ
child_wait zero = (ready (ok (pos 0)), zero)
child_wait (suc c) = (pending, c)

abbrev linux : Os
linux = record { Child = ℕ; id = λ c. some 42; child_wait = child_wait; try_from = λ n. some n }

-- The input of the child is the bytes that it was given.
abbrev pub guest : Env
guest = record {
  writer = sink;
  child = linux;
  Input = Bytes;
  write_all = λ i bytes. (ready (ok tt), (i ++ bytes, []));
  to_vec = to_vec;
  describe = λ m. "Failed to prepare message for sending";
  from_slice = from_slice;
  format_debug = λ text e. text;
  close_fd = λ r. (ok tt, wait ∷ fail (plain "Bad file descriptor") ∷ []);
}

abbrev kernel : Kernel
kernel = record {
  from_name = λ name. ok none;
  current_dir = ok "/";
  debug = λ text. String.◌++◌ "\"" (String.◌++◌ text "\"");
  setgroups = λ gs c. (ok tt, record c { groups = gs });
  setgid = λ g c. (ok tt, record c { gid = g });
  setuid = λ u c. (ok tt, record c { uid = u });
}

abbrev pub printed : List ReadEvent
printed = chunk 97 (10 ∷ []) ∷ []

abbrev pub cat : Process linux
cat = record { pid = 42; held = false; proc = running 1 }

abbrev pub spawned_cat : Spawned guest
spawned_cat = record { child = 1; stdin = some []; stdout = some printed; stderr = some [] }

abbrev pub host : Host guest
host = record {
  kernel = kernel;
  uid = 1000;
  spawn_command = λ c. ok spawned_cat;
  to_string = λ e. "failed";
}

abbrev pub connection : Shared sink
connection = record { broken = false; local = ok (record { writer = []; transmitting = [] }) }

-- An `Exec`, a byte of input, and its end.
abbrev pub asked : List ReadEvent
asked = chunk 7 (10 ∷ 6 ∷ 111 ∷ 10 ∷ 1 ∷ 10 ∷ []) ∷ []

abbrev pub mailbox : SharedRx
mailbox = record { broken = false; local = new_rx asked }

pub closed_pipe :
    (r r' : List ReadEvent) → wait ∷ fail (plain "Bad file descriptor") ∷ [] ≡ r' → Blocked r'
closed_pipe r r' e = subst Blocked e refl

abbrev pub silent_closed : SilentClosed guest
silent_closed = record { silent_after = λ r r' e. closed_pipe r r' (ap (λ x. x.1) e) }

abbrev pub writes_all : WritesAll guest
writes_all = record {
  given = λ i. i;
  given-write = λ i bytes. append-nil (i ++ bytes);
  leaves_none = λ i bytes e. refl;
}

abbrev pub keeps_id : KeepsId guest
keeps_id = record { keeps = λ c c' e. refl }
