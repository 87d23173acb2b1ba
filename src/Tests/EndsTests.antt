-- ===== src/Tests/EndsTests.antt =====
-- The end of `main` of agent/src/main.rs, on the guest of the other tests.
use minimal_vm_tool.Prelude.{
  ℕ, zero, suc, ◌≤◌, ◌<◌, ◌≡◌, ◌≢◌, refl, some, List, [], ◌∷◌, ◌++◌, arith, Bytes,
}
use minimal_vm_tool.Outcome.{Result, ok, err, pending, with_context, ◌>>=◌}
use minimal_vm_tool.Protocol.{Message, stdin, data_of, closed, exec}
use minimal_vm_tool.Io.Rx.Recv.{new_rx}
use minimal_vm_tool.Io.Rx.Recv.Mailbox.{Inbox}
use minimal_vm_tool.Io.Rx.Lines.{lines}
use minimal_vm_tool.Io.Tx.Handle.{Shared}
use minimal_vm_tool.Agent.Spawn.{Command, command_of}
use minimal_vm_tool.Agent.Tasks.{works}
use minimal_vm_tool.Agent.Session.{Turn, stdin_turn, stdout_turn, stderr_turn, exit_turn}
use minimal_vm_tool.Agent.Main.{Child, spawn, child_of, expecting, gone, run_main}
use minimal_vm_tool.Agent.Prompt.{Prompts}
use minimal_vm_tool.Agent.Prompt.Mail.{Allowed}
use minimal_vm_tool.Io.Rx.Recv.Held.{Each}
use minimal_vm_tool.Protocol.{from_stdio}
use minimal_vm_tool.Agent.Prompt.Rounds.{now, later, Covers, Rounds, none_left, round}
use minimal_vm_tool.Agent.Main.Phases.{Bounded, child_cost}
use minimal_vm_tool.Agent.Main.Ends.{run_main_ends}
use minimal_vm_tool.Tests.Writers.{sink, sink-Delivers, sink-Prompt}
use minimal_vm_tool.Tests.Codec.{command, from_slice}
use minimal_vm_tool.Tests.Guest.{guest, host, spawned_cat, connection, mailbox, asked}

pub runs_down : (c c' : ℕ) → guest.child.child_wait c ≡ (pending, c') → c' < c
runs_down zero c' e = cc
runs_down (suc c) c' e = ground arith

pub writes_now : (i b : Bytes) → (guest.write_all i b).0 ≢ pending
writes_now i b e = cc e

abbrev pub prompts : Prompts guest
prompts = record {
  delivers = sink-Delivers;
  prompt = sink-Prompt;
  shuts = λ w. refl;
  writes_now = writes_now;
  left_to_run = λ c. c;
  runs_down = runs_down;
}

abbrev pub one_round : List Turn
one_round = stdin_turn ∷ stdout_turn works ∷ stderr_turn works ∷ exit_turn works ∷ []

one_round-Covers : Covers one_round
one_round-Covers = record {
  stdin_takes = now _;
  stdout_takes = later _ _ (now _);
  stderr_takes = later _ _ (later _ _ (now _));
  exit_takes = later _ _ (later _ _ (later _ _ (now _)));
}

abbrev pub rounds : ℕ → List Turn
rounds zero = []
rounds (suc n) = one_round ++ rounds n

pub many_rounds : (n : ℕ) → Rounds n (rounds n)
many_rounds zero = none_left []
many_rounds (suc n) = round n one_round (rounds n) one_round-Covers (many_rounds n)

costs_of_cat :
    (c : Child guest)
    → child_of guest host spawned_cat ≡ ok c
    → child_cost guest host prompts c ≤ 20
unfolding child_of
costs_of_cat c e = ground arith

costs_at :
    (r : Result Command) (c : Child guest)
    → (do
      command ← r
      s ← with_context "Failed to spawn child process" (host.spawn_command command)
      child_of guest host s)
      ≡ ok c
    → child_cost guest host prompts c ≤ 20
costs_at (ok command) c e = costs_of_cat c e
costs_at (err x) c e = cc

pub cat-Bounded : Bounded guest host prompts 20
unfolding spawn
cat-Bounded x c e = costs_at (command_of host.kernel host.uid x) c e

abbrev pub to_come : List Message
to_come = exec command ∷ stdin (data_of (100 ∷ [])) ∷ stdin closed ∷ []

pub asked-Inbox : Inbox from_slice (new_rx asked) to_come
unfolding new_rx lines
asked-Inbox = (to_come, refl, refl)

abbrev pub last_turns : List Turn
last_turns = stdin_turn ∷ stdin_turn ∷ stdin_turn ∷ []

pub allowed : Each Allowed to_come
unfolding from_stdio
allowed = ((λ e. cc e, λ e. cc e), ((λ e. cc e, λ e. cc e), ((λ e. cc e, λ e. cc e), tt)))

run_main_ends_example :
    (w : Bytes) × (tx : Shared sink) × (run_main guest host
        (rounds 40 ++ last_turns)
        (expecting connection mailbox)
      ≡ gone (some w) tx)
unfolding new_rx
run_main_ends_example =
    run_main_ends guest host prompts 20 40 cat-Bounded (rounds 40) last_turns connection mailbox
      to_come (record { writer = []; transmitting = [] }, refl) refl (asked-Inbox, allowed)
      (omega arith) (many_rounds 40) (omega arith)
