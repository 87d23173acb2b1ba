-- ===== src/Tests/AgentTests.antt =====
-- agent/src on concrete inputs.
use Prim.Native.String
use minimal_vm_tool.Prelude.{ℕ, zero, suc, ◌≡◌, refl, true, false, some, none, [], ◌∷◌, Option}
use minimal_vm_tool.Prelude.Int.{ℤ, pos}
use minimal_vm_tool.Outcome.{Result, ok, Poll, pending, ready}
use minimal_vm_tool.Protocol.{Exec}
use minimal_vm_tool.Io.Rx.{chunk, wait}
use minimal_vm_tool.Agent.Chunks.{Pipe, read_line_or_chunk}
use minimal_vm_tool.Agent.Chunks.Pieces.{Cuts, read_line_or_chunk-Cuts}
use minimal_vm_tool.Agent.Process.{Os, Process, running, waiting, poll_wait}
use minimal_vm_tool.Agent.Process.Signals.{Settles, poll_wait-Settles}
use minimal_vm_tool.Agent.Spawn.{Creds, Kernel, user_name, pwd_of}
use minimal_vm_tool.Agent.Spawn.Credentials.{IsPosix, run_creds, as_user, run_creds-as_user}

-- A child is the number of the polls that find it running.
abbrev id : ℕ → Option ℕ
id c = some 42

abbrev child_wait : ℕ → Poll (Result ℤ) × ℕ
child_wait zero = (ready (ok (pos 0)), zero)
child_wait (suc c) = (pending, c)

abbrev linux : Os
linux = record { Child = ℕ; id = id; child_wait = child_wait; try_from = λ n. some n }

abbrev sleep : Process linux
sleep = record { pid = 42; held = false; proc = running 1 }

abbrev almost_done : Process linux
almost_done = record { pid = 42; held = true; proc = running 0 }

-- Two lines in chunks that are not lines.
abbrev pipe : Pipe
pipe = record { reader = chunk 97 (10 ∷ 98 ∷ []) ∷ wait ∷ []; buffer = [] }

abbrev kernel : Kernel
kernel = record {
  from_name = λ name. ok (some (record { name = name; dir = "/home/user"; uid = 1000; gid = 100 }));
  current_dir = ok "/";
  debug = λ text. String.◌++◌ "\"" (String.◌++◌ text "\"");
  setgroups = λ gs c. (ok tt, record c { groups = gs });
  setgid = λ g c. (ok tt, record c { gid = g });
  setuid = λ u c. (ok tt, record c { uid = u });
}

abbrev kernel-IsPosix : IsPosix kernel
kernel-IsPosix = record {
  sets_groups = λ gs c h. refl;
  sets_gid = λ g c h. refl;
  sets_uid = λ u c h. refl;
}

abbrev exec : Exec
exec = record { prog = "id"; args = []; pwd = none; user = none; line_buffered_io = none }

abbrev root : Creds
root = record { uid = 0; gid = 0; groups = 0 ∷ [] }

read_line_or_chunk-Cuts_example : Cuts true pipe (read_line_or_chunk true pipe)
read_line_or_chunk-Cuts_example = read_line_or_chunk-Cuts true pipe

poll_wait-Settles_example :
    Settles linux
      (pos 9)
      (poll_wait linux waiting almost_done).0
      (poll_wait linux waiting almost_done).1.1
poll_wait-Settles_example = poll_wait-Settles linux (pos 9) waiting almost_done

keeps_id : (c c' : ℕ) → child_wait c ≡ (pending, c') → id c' ≡ id c
keeps_id c c' e = refl

in_root : pwd_of kernel none ≡ ok "/"
unfolding pwd_of
in_root = refl

run_creds-as_user_example :
    run_creds kernel exec root
    ≡ as_user root (kernel.debug (user_name exec.user)) (kernel.from_name (user_name exec.user))
run_creds-as_user_example = run_creds-as_user kernel kernel-IsPosix exec "/" root refl in_root
