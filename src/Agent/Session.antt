-- ===== src/Agent/Session.antt =====
-- The session of agent/src/main.rs, from `Started` on: the four tasks that `tokio::join!` polls, over
-- one sender and one receiver, in any order of turns.
pub mod Steps
pub mod Speech
pub mod Hearing
use minimal_vm_tool.Prelude.{Bool, true, List, [], ◌∷◌, ◌++◌}
use minimal_vm_tool.Protocol.{out_stream, err_stream}
use minimal_vm_tool.Io.Rx.Recv.{SharedRx}
use minimal_vm_tool.Io.Tx.Handle.{Shared}
use minimal_vm_tool.Agent.Process.{KillCall, Process, locking}
use minimal_vm_tool.Agent.Chunks.{Pipe}
use minimal_vm_tool.Agent.Tasks.{
  Env, Branch, Copy, Feed, Watch, waiting, selecting, watching, copy_turn, feed_turn, watch_turn,
}

-- `kills`: the calls of kill(2) so far.
pub record Session (E : Env) : Type 0 where
  pub tx : Shared E.writer
  pub rx : SharedRx
  pub stdin_task : Feed E.Input
  pub stdout_task : Copy
  pub stderr_task : Copy
  pub exit_task : Watch E.child
  pub kills : List KillCall

-- Whose turn it is.
pub data Turn : Type 0 where
  stdin_turn : Turn
  stdout_turn stderr_turn exit_turn : Branch → Turn

-- Where the tasks begin: the channels of the connection, and those of the process.
unfoldable pub start :
    (E : Env) → Shared E.writer → SharedRx → E.Input → Pipe → Pipe → Process E.child → Session E
start E tx rx input out errors process = record {
  tx = tx;
  rx = rx;
  stdin_task = waiting input;
  stdout_task = selecting true out;
  stderr_task = selecting true errors;
  exit_task = watching locking process;
  kills = [];
}

module _ (E : Env) (line_buffered : Bool) where
  unfoldable pub session_turn : Turn → Session E → Session E
  session_turn stdin_turn s =
      let (t, (tx, rx)) = feed_turn E s.stdin_task s.tx s.rx in
      record s { stdin_task = t; tx = tx; rx = rx }
  session_turn (stdout_turn b) s =
      let (t, (tx, rx)) = copy_turn E out_stream line_buffered b s.stdout_task s.tx s.rx in
      record s { stdout_task = t; tx = tx; rx = rx }
  session_turn (stderr_turn b) s =
      let (t, (tx, rx)) = copy_turn E err_stream line_buffered b s.stderr_task s.tx s.rx in
      record s { stderr_task = t; tx = tx; rx = rx }
  session_turn (exit_turn b) s =
      let ((t, calls), (tx, rx)) = watch_turn E b s.exit_task s.tx s.rx in
      record s { exit_task = t; tx = tx; rx = rx; kills = s.kills ++ calls }

  unfoldable pub run_turns : List Turn → Session E → Session E
  unfolding session_turn
  run_turns [] s = s
  run_turns (turn ∷ turns) s = run_turns turns (session_turn turn s)
