-- ===== src/Tests/AccountTests.antt =====
-- What the host has of `main` of agent/src/main.rs, on the guest of the other tests.
use minimal_vm_tool.Prelude.{
  ◌≡◌, ◌≢◌, refl, ℕ, zero, suc, List, [], ◌∷◌, ◌++◌, some, append-nil, arith, Bytes, false,
}
use minimal_vm_tool.Prelude.Int.{ℤ, pos, negsuc}
use minimal_vm_tool.Outcome.{Error, ok, err, ready}
use minimal_vm_tool.Protocol.{
  Message, started, exited, stdin, stdout, stderr, data_of, closed, exec, error, kill, no_op,
}
use minimal_vm_tool.Io.Rx.{ReadEvent, chunk}
use minimal_vm_tool.Io.Rx.Reads.{content}
use minimal_vm_tool.Io.Rx.Recv.{new_rx}
use minimal_vm_tool.Io.Rx.Recv.Steady.{Chunks}
use minimal_vm_tool.Io.Rx.Recv.Held.{Held}
use minimal_vm_tool.Io.Messages.{messages, deserialize_messages}
use minimal_vm_tool.Io.Tx.Handle.{Shared}
use minimal_vm_tool.Agent.Main.{expecting, gone, run_main, spawn, child_of}
use minimal_vm_tool.Agent.Process.{running}
use minimal_vm_tool.Agent.Spawn.{command_of}
use minimal_vm_tool.Agent.Main.Whole.{Whole, Final}
use minimal_vm_tool.Agent.Main.Good.{Spawns}
use minimal_vm_tool.Agent.Prompt.Sound.{Said, NoFaults}
use minimal_vm_tool.Agent.Main.Account.{Cut, enough_polls, run_main-Final, run_main-Whole}
use minimal_vm_tool.Tests.Writers.{sink}
use minimal_vm_tool.Tests.Codec.{command, codec, to_vec, from_slice}
use minimal_vm_tool.Tests.Guest.{guest, host, printed, silent_closed, connection, mailbox}
use minimal_vm_tool.Tests.EndsTests.{
  prompts, rounds, many_rounds, last_turns, cat-Bounded, to_come, asked-Inbox, allowed,
}

-- Everything at once.
abbrev whole_cut : Bytes → List ReadEvent
whole_cut [] = []
whole_cut (b ∷ bs) = chunk b bs ∷ []

content-whole_cut : (bs : Bytes) → content (whole_cut bs) ≡ bs
content-whole_cut [] = refl
content-whole_cut (b ∷ bs) = append-nil (b ∷ bs)

whole_cut-Chunks : (bs : Bytes) → Chunks (whole_cut bs)
whole_cut-Chunks [] = tt
whole_cut-Chunks (b ∷ bs) = tt

abbrev at_once : Cut
at_once = record { cut = whole_cut; content-cut = content-whole_cut; cut-Chunks = whole_cut-Chunks }

run_main-Final_example :
    (w : Bytes) × (tx' : Shared sink) × (log : List Message) × (run_main guest host
        (rounds 40 ++ last_turns)
        (expecting connection mailbox)
      ≡ gone (some w) tx')
    × Final guest host log
    × (deserialize_messages from_slice (enough_polls guest codec at_once w) (whole_cut w)
        ≡ messages log)
unfolding new_rx
run_main-Final_example =
    run_main-Final guest host prompts silent_closed codec at_once (λ e. (9 ∷ [], refl)) 20 40
      cat-Bounded (rounds 40) last_turns connection mailbox to_come
      (record { writer = []; transmitting = [] }, refl) refl refl (asked-Inbox, allowed)
      (omega arith) (many_rounds 40) (omega arith)

takes : (i b : Bytes) (e : Error) → (guest.write_all i b).0 ≢ ready (err e)
takes i b e h = cc h

waits : (c : ℕ) (e : Error) → (guest.child.child_wait c).0 ≢ ready (err e)
waits zero e h = cc h
waits (suc c) e h = cc h

says_exited : (z : ℤ) → (b : Bytes) × (to_vec (exited (record { status = z })) ≡ ok b)
says_exited (pos n) = (_, refl)
says_exited (negsuc n) = (_, refl)

says : (m : Message) → Said m → (b : Bytes) × (to_vec m ≡ ok b)
says (started s) h = (_, refl)
says (exited s) h = says_exited s.status
says (stdin closed) h = (_, refl)
says (stdin (data_of d)) h = (_, refl)
says (stdout (data_of d)) h = (_, refl)
says (stdout closed) h = (_, refl)
says (stderr (data_of d)) h = (_, refl)
says (stderr closed) h = (_, refl)
says (exec x) h = absurd h
says (error x) h = absurd h
says (kill x) h = absurd h
says no_op h = absurd h

abbrev no_faults : NoFaults guest
no_faults = record { takes = takes; waits = waits; says = says }

cat_is_there : Spawns guest host command
unfolding spawn child_of command_of
cat_is_there = (
  record {
    pid = 42;
    process = record { pid = 42; held = false; proc = running 1 };
    input = [];
    output = record { reader = printed; buffer = [] };
    errors = record { reader = []; buffer = [] };
  },
  refl,
  tt,
  tt,
)

mailbox-Held : Held from_slice mailbox to_come
unfolding new_rx
mailbox-Held = (refl, tt, asked-Inbox)

run_main-Whole_example :
    (w : Bytes) × (tx' : Shared sink) × (log : List Message) × (run_main guest host
        (rounds 40 ++ last_turns)
        (expecting connection mailbox)
      ≡ gone (some w) tx')
    × Whole guest host cat_is_there.0 log
    × (deserialize_messages from_slice (enough_polls guest codec at_once w) (whole_cut w)
        ≡ messages log)
unfolding new_rx
run_main-Whole_example =
    run_main-Whole guest host prompts silent_closed no_faults codec at_once 20 40 cat-Bounded
      command cat_is_there (rounds 40) last_turns connection mailbox
      (stdin (data_of (100 ∷ [])) ∷ stdin closed ∷ [])
      (record { writer = []; transmitting = [] }, refl) refl mailbox-Held tt (omega arith)
      (many_rounds 40) (omega arith)
