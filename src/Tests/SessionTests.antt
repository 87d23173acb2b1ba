-- ===== src/Tests/SessionTests.antt =====
-- `main` of agent/src/main.rs, from the `Exec` to the close, on a concrete conversation.
use minimal_vm_tool.Prelude.{◌≡◌, refl, true, false, some, List, [], ◌∷◌, ◌++◌, Bytes, arith}
use minimal_vm_tool.Outcome.{err}
use minimal_vm_tool.Protocol.{Message, stdin, data_of, closed}
use minimal_vm_tool.Io.Rx.{ReadEvent, chunk, wait}
use minimal_vm_tool.Io.Rx.Recv.{SharedRx, new_rx}
use minimal_vm_tool.Io.Tx.Handle.{Shared}
use minimal_vm_tool.Agent.Tasks.{works}
use minimal_vm_tool.Agent.Session.{
  Turn, stdin_turn, stdout_turn, stderr_turn, exit_turn, start, run_turns,
}
use minimal_vm_tool.Agent.Main.{spawn, child_of, Main, expecting, gone, run_main, main_turn}
use minimal_vm_tool.Io.Rx.Recv.All.{Drains, recv_all}
use minimal_vm_tool.Io.Rx.Recv.Mailbox.{Inbox}
use minimal_vm_tool.Io.Rx.Lines.{lines}
use minimal_vm_tool.Io.Tx.Handle.{was_closed}
use minimal_vm_tool.Protocol.{from_kill, from_bytes_or_closed}
use minimal_vm_tool.Agent.Session.Speech.{Speaks, run_turns-Speaks}
use minimal_vm_tool.Agent.Session.Hearing.{Hears, run_turns-Hears}
use minimal_vm_tool.Agent.Main.Story.{Told}
use minimal_vm_tool.Agent.Main.Conversation.{Converses, run_main-Converses}
use minimal_vm_tool.Agent.Main.Heard.{run_main-Drains}
use minimal_vm_tool.Io.Rx.Recv.{shared_recv}
use minimal_vm_tool.Io.Rx.Recv.{poll_recv}
use minimal_vm_tool.Io.Rx.Recv.{recv_loop}
use minimal_vm_tool.Io.Rx.Recv.{recv_round}
use minimal_vm_tool.Agent.Spawn.{command_of}
use minimal_vm_tool.Io.Tx.Handle.{poll_do_send}
use minimal_vm_tool.Io.Tx.Handle.{poll_msgs}
use minimal_vm_tool.Io.Tx.Handle.{shared_send}
use minimal_vm_tool.Agent.Session.{session_turn}
use minimal_vm_tool.Agent.Tasks.{watch_turn}
use minimal_vm_tool.Agent.Process.{poll_wait}
use minimal_vm_tool.Agent.Tasks.{copy_turn}
use minimal_vm_tool.Agent.Tasks.{feed_turn}
use minimal_vm_tool.Agent.Chunks.{read_line_or_chunk}
use minimal_vm_tool.Io.Tx.Handle.{shared_flush}
use minimal_vm_tool.Io.Tx.Handle.{poll_close_tx}
use minimal_vm_tool.Io.Tx.Handle.{poll_close}
use minimal_vm_tool.Io.Tx.Handle.{shutdown}
use minimal_vm_tool.Io.Tx.Handle.{drain}
use minimal_vm_tool.Io.Tx.Handle.{drain_round}
use minimal_vm_tool.Io.Rx.Recv.{pop}
use minimal_vm_tool.Prelude.{loop}
use minimal_vm_tool.Io.Rx.{poll_read_message}
use minimal_vm_tool.Protocol.{from_exec}
use minimal_vm_tool.Io.Tx.Handle.{send}
use minimal_vm_tool.Io.Tx.Handle.{prepare_msgs}
use minimal_vm_tool.Io.Tx.{poll_send}
use minimal_vm_tool.Io.Tx.{poll_flush_in_bg}
use minimal_vm_tool.Io.Tx.{poll_flush}
use minimal_vm_tool.Io.Tx.{poll_transmit}
use minimal_vm_tool.Io.Tx.Handle.{send_and_flush}
use minimal_vm_tool.Io.Tx.Handle.{flush_all}
use minimal_vm_tool.Tests.Writers.{sink, sink-Delivers}
use minimal_vm_tool.Tests.Codec.{from_slice, codec}
use minimal_vm_tool.Tests.Guest.{
  printed, cat, host, guest, connection, mailbox, silent_closed, writes_all, keeps_id,
}

abbrev session_turns : List Turn
session_turns =
    stdin_turn
    ∷ stdout_turn works
    ∷ exit_turn works
    ∷ stdin_turn
    ∷ stdout_turn works
    ∷ stdin_turn
    ∷ stdin_turn
    ∷ stderr_turn works
    ∷ exit_turn works
    ∷ exit_turn works
    ∷ stdout_turn works
    ∷ stdout_turn works
    ∷ stderr_turn works
    ∷ []

abbrev turns : List Turn
turns = stdin_turn ∷ stdin_turn ∷ (session_turns ++ stdin_turn ∷ stdin_turn ∷ stdin_turn ∷ [])

abbrev the_end : Main guest
the_end = run_main guest host turns (expecting connection mailbox)

abbrev said : Bytes
said = 4 ∷ 53 ∷ 10 ∷ 5 ∷ 108 ∷ 21 ∷ 10 ∷ 1 ∷ 10 ∷ 8 ∷ 11 ∷ 10 ∷ 2 ∷ 10 ∷ 3 ∷ 10 ∷ []

abbrev after : Shared sink
after = record { broken = false; local = err was_closed }

-- `Started`, the line, the end of the input, the status, and the ends of both outputs.
the_end_lem : the_end ≡ gone (some said) after
unfolding spawn child_of run_main main_turn shared_recv poll_recv recv_loop recv_round command_of
    poll_do_send poll_msgs shared_send session_turn watch_turn poll_wait copy_turn feed_turn
    read_line_or_chunk shared_flush poll_close_tx poll_close shutdown drain drain_round pop new_rx
    loop poll_read_message from_exec send prepare_msgs start poll_send poll_flush_in_bg poll_flush
    poll_transmit send_and_flush from_bytes_or_closed flush_all
the_end_lem = refl

abbrev heard : List ReadEvent
heard =
    chunk 4 (53 ∷ 10 ∷ 5 ∷ [])
    ∷ wait
    ∷ chunk 108 (21 ∷ 10 ∷ 1 ∷ 10 ∷ 8 ∷ 11 ∷ 10 ∷ 2 ∷ 10 ∷ 3 ∷ 10 ∷ [])
    ∷ []

run_main-Converses_example :
    Converses guest host sink-Delivers silent_closed
      (run_main guest host turns (expecting connection mailbox))
run_main-Converses_example =
    run_main-Converses guest host sink-Delivers silent_closed turns connection mailbox refl

run_main-Drains_example :
    (log : List Message) × Told guest host log × Drains log (recv_all from_slice 20 (new_rx heard))
run_main-Drains_example =
    run_main-Drains guest host sink-Delivers silent_closed codec turns connection after mailbox said
      20 heard refl the_end_lem refl (omega arith)

run_turns-Speaks_example : Speaks guest sink-Delivers silent_closed [] (97 ∷ 10 ∷ []) [] cat (
    run_turns guest true session_turns (
      start guest connection mailbox []
        (record { reader = printed; buffer = [] })
        (record { reader = []; buffer = [] })
        cat))
run_turns-Speaks_example =
    run_turns-Speaks guest sink-Delivers silent_closed true session_turns connection mailbox []
      (record { reader = printed; buffer = [] }) (record { reader = []; buffer = [] }) cat

-- The input and a signal, in one chunk.
abbrev to_hear : List Message
to_hear = stdin (data_of (100 ∷ [])) ∷ stdin closed ∷ []

abbrev hearing : List ReadEvent
hearing = chunk 6 (111 ∷ 10 ∷ 1 ∷ 10 ∷ []) ∷ []

abbrev in_session : SharedRx
in_session = record { broken = false; local = new_rx hearing }

hearing-Inbox : Inbox from_slice (new_rx hearing) to_hear
unfolding new_rx lines
hearing-Inbox = (to_hear, refl, refl)

run_turns-Hears_example : Hears guest writes_all keeps_id (100 ∷ []) 42 [] (
    run_turns guest true session_turns (
      start guest connection in_session []
        (record { reader = printed; buffer = [] })
        (record { reader = []; buffer = [] })
        cat))
unfolding from_kill from_bytes_or_closed
run_turns-Hears_example =
    run_turns-Hears guest writes_all keeps_id true session_turns connection in_session []
      (record { reader = printed; buffer = [] }) (record { reader = []; buffer = [] }) cat 42
      to_hear refl hearing-Inbox (record { same_pid = refl; child = 1; runs = refl; id_of = refl })
      refl
