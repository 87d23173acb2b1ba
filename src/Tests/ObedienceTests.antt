-- ===== src/Tests/ObedienceTests.antt =====
-- What `main` of agent/src/main.rs does with the messages of a host.
use minimal_vm_tool.Prelude.{◌≡◌, refl, true, false, some, List, [], ◌∷◌, loop}
use minimal_vm_tool.Outcome.{ok}
use minimal_vm_tool.Protocol.{Message, exec, stdin, data_of, closed}
use minimal_vm_tool.Io.Tx.{Sending, TxLocal, poll_send, poll_flush_in_bg, poll_flush, poll_transmit}
use minimal_vm_tool.Io.Tx.Handle.{
  Shared, prepare_msgs, send_and_flush, await_send, finished, poll_do_send, poll_msgs, shared_send,
  shared_flush,
}
use minimal_vm_tool.Io.Tx.Handle.Progress.{open_tx}
use minimal_vm_tool.Io.Rx.Lines.{lines}
use minimal_vm_tool.Io.Rx.Recv.{new_rx, new_shared}
use minimal_vm_tool.Io.Rx.Recv.Mailbox.{Inbox}
use minimal_vm_tool.Agent.Tasks.{works}
use minimal_vm_tool.Agent.Session.{Turn, stdin_turn, stdout_turn, exit_turn}
use minimal_vm_tool.Agent.Main.{expecting, run_main}
use minimal_vm_tool.Agent.Main.Children.{HasPids}
use minimal_vm_tool.Agent.Main.Obedience.{Obeys, run_main-Obeys, run_main-send}
use minimal_vm_tool.Tests.Writers.{sink, sink-Delivers}
use minimal_vm_tool.Tests.Codec.{command, from_slice, codec}
use minimal_vm_tool.Tests.Guest.{guest, host, connection, mailbox, asked, writes_all, keeps_id}

abbrev has_pids : HasPids guest host
has_pids = record { has_pid = λ c s e. (42, refl) }

abbrev to_come : List Message
to_come = exec command ∷ stdin (data_of (100 ∷ [])) ∷ stdin closed ∷ []

abbrev turns : List Turn
turns =
    stdin_turn
    ∷ stdin_turn
    ∷ stdin_turn
    ∷ stdout_turn works
    ∷ stdin_turn
    ∷ exit_turn works
    ∷ stdin_turn
    ∷ []

asked-Inbox : Inbox from_slice (new_rx asked) to_come
unfolding new_rx lines
asked-Inbox = (to_come, refl, refl)

run_main-Obeys_example :
    Obeys guest host writes_all keeps_id to_come
      (run_main guest host turns (expecting connection mailbox))
run_main-Obeys_example =
    run_main-Obeys guest host writes_all keeps_id has_pids turns connection mailbox to_come refl
      asked-Inbox

abbrev host_tx : TxLocal sink
host_tx = record { writer = []; transmitting = [] }

abbrev host_lines : List Sending
host_lines = some (7 ∷ []) ∷ some (6 ∷ 111 ∷ []) ∷ some (1 ∷ []) ∷ []

prepared : prepare_msgs guest.to_vec guest.describe to_come ≡ ok host_lines
unfolding prepare_msgs
prepared = refl

abbrev host_sent : Shared sink
host_sent = record {
  broken = false;
  local = ok (record { writer = 7 ∷ 10 ∷ 6 ∷ 111 ∷ 10 ∷ 1 ∷ 10 ∷ []; transmitting = [] });
}

sent_at :
    await_send sink 1 (open_tx sink host_tx) (send_and_flush guest.to_vec guest.describe to_come)
    ≡ finished (ok tt) (host_sent, record { msgs = ok []; flush = true })
unfolding await_send send_and_flush prepare_msgs poll_do_send poll_msgs shared_send shared_flush
    poll_send poll_flush_in_bg poll_flush poll_transmit loop
sent_at = refl

run_main-send_example :
    Obeys guest host writes_all keeps_id to_come
      (run_main guest host turns (expecting connection (new_shared asked)))
run_main-send_example =
    run_main-send guest host writes_all keeps_id has_pids codec sink sink-Delivers 1 turns host_tx
      to_come host_lines host_sent (record { msgs = ok []; flush = true }) asked connection refl
      prepared sent_at refl
