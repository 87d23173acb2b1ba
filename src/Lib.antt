-- ===== src/Lib.antt =====
-- minimal-vm-tool: the agents that run in a virtual machine, and the protocols that they speak.
--
-- The program has two parts. The exec agent (agent/) gets one connection, reads an `exec` message,
-- spawns a process and passes its streams, signals and exit status on as messages. The liveness
-- agent (liveness/) sends a report of the state of the machine at every interval. Both write lines
-- of JSON; the exec protocol's sender and receiver are in protocol/.
--
-- Outcome        `Result`, `anyhow::Error` and `Poll`, which every part returns.
-- Protocol       protocol/src/lib.rs: the messages, and each `FromMessage::from_message`.
--   Kinds        Which message is received as which type.
--   DataBytes    protocol/src/data_bytes.rs: `serialize`, `deserialize` and its `Visitor`.
--   StdioTrue    protocol/src/lib.rs: the `true` behind `closed`.
-- Io.Writer      The connection, `tokio::io::AsyncWrite`, and what it documents.
-- Io.Tx          protocol/src/io/tx.rs: `TxLocal` (`poll_transmit`, `poll_flush`,
--                `poll_flush_in_bg`, `poll_send`); `Io.Tx.Output` and `Io.Tx.Prompt` on it.
-- Io.Tx.Handle   The shared `Tx` and `DoSend` (`send`, `send_and_flush`, `flush`, `close`, drop, and
--                `prepare_msgs`), with `Delivery`, `Progress`, `Closed` and `Prepare` on it, and
--                `Single` on a send of one message; `Shuts` on a close that is over at once.
-- Io.Rx          protocol/src/io/rx.rs: `MsgReader`; `Io.Rx.Lines` and `Io.Rx.Reads` on its lines.
-- Io.Rx.Recv     `MsgBuffer`, `RxLocal` and the shared `Rx`, and in `All` the loop that receives
--                everything; `Select`, `Mailbox`, `Share`, `Steady` and `Held` on what is received.
-- Io.Wire        The sender and the receiver together.
-- Io.Messages    protocol/src/io/mod.rs: `serialize_messages` and `deserialize_messages`;
--                `RoundTrip` on both.
-- Io.ArcErr      protocol/src/io/arc_err.rs: the shared error; `Agent.Process.WaitError` is the one
--                of agent/src/process.rs.
-- Agent.Chunks   agent/src/main.rs: `read_line_or_chunk`; `Pieces` on what it cuts, `Polls` on the
--                polls that it takes, `Broken` on a pipe whose descriptor is closed, `Intact` on one
--                that does not fail.
-- Agent.Process  agent/src/process.rs: `Process` (`signal`, `wait`, drop); `Signals` on the calls of
--                kill(2).
-- Agent.Spawn    agent/src/process.rs: the command that `spawn` makes; `Credentials` on what its
--                process runs as.
-- Agent.Tasks    agent/src/main.rs: the tasks `stdin` (`Feed`), `stdout` and `stderr` (`Copy`), and
--                `exit` (`Watch`); `Sending`, `Copying` (with `Copying.Turns`), `Feeding` and
--                `Watching` on what they send, `Hearing` and `Killing` on what they receive.
-- Agent.Session  The join of the four tasks; `Steps`, `Speech` and `Hearing` on it.
-- Agent.Prompt   What each turn of a session leaves to be done: `Mail` of a receiver, `Costs`,
--                `FeedCosts` and `WatchCosts` of the tasks, `Turns` of the session; `Rounds` are the
--                schedules in which every task gets its turns; `Loaded`, `Sound` and `Faultless` on
--                tasks that do not fail, and `Manners` is what a host sends.
-- Agent.Main     `process::spawn`, and `main` from the `Exec` to the close; `Story`, `Turns`,
--                `Conversation` and `Heard` on what it says, `Children`, `Hosting` and `Obedience` on
--                what it does with what it is told, `Closing`, `Phases`, `Serving` and `Ends` on
--                how it ends, `Whole`, `Tells`, `Telling`, `Unfailed`, `Good` and
--                `Account` on what it has said then.
-- Liveness       liveness/src/metrics.rs: `Text` has the operations of `str`; `CpuStat` (`ProcStat`,
--                `cpu_percent`, `sample`), `MemInfo` (`memory`, `swap`), `Mounts` (`disks`), and
--                `Systemd` (`SystemdState` of liveness/protocol/src/lib.rs, and the log levels).
--   Transport    liveness/protocol/src/io.rs: `Tx::send` and `Rx::recv`; `Wire` on both.
--   Report       liveness/src/agent.rs and `run` and `connect` of liveness/src/main.rs; `Series`,
--                `Received` and `Exit` on them.
-- Tests          Concrete inputs.
--
-- A future is a function from its state to a poll and the state that it leaves; awaiting it is
-- polling it again. A `&mut self` is passed on the same way, and a shared handle is the state behind
-- it, with whether its mutex is poisoned. An async function with several awaits is a data type of the
-- places where it waits, and a turn is one poll of what it awaits there; tasks that run at the same
-- time take turns in an order that is an argument, and a `select!` polls the branch that the turn
-- says. What other crates do is a parameter: the connection
-- (`Writer`), serde_json (`to_vec` and `from_slice`), a serde format, tokio's `Child`, the kernel
-- (`Kernel`, `System`), and `f64`; `Env`, `Host`, `Link` and `Sockets` gather those of the tasks, of
-- `main`, and of the liveness agent. What the code relies on of them are the records `Delivers`,
-- `Prompt`, `IsVector`, `IsCodec`, `IsSelfDescribing`, `IsAnyhow`, `IsPosix`, `SilentClosed`,
-- `WritesAll`, `KeepsId`, `HasPids`, `Prompts`, `NoFaults`, `Bounded`, `Buffers`, `Splits`,
-- `IsJson` and `Cut`, and `Spawns` for an `Exec`. A reader is the sequence of what its polls return.
-- Contents of files under /proc are lists of lines.
--
-- Loops that the source ends by a state that falls are `loop`, whose fuel is a measure of the state:
-- the bytes in the buffer of the sender, the bytes and polls to come of the reader, the lines to
-- come of the receiver, the events to come of a pipe. `Prelude.Loops.loop_lem` is why that is enough.
-- Only `recv_all`, `await_send` and `await_close`, which poll until there is a result, and the two
-- functions of `Io.Messages`, which call them, take a bound as an argument.
--
-- Integers are natural numbers. Sums and products of a u64 wrap at 2 ^ 64, as in a release build.
-- Strings of the exec protocol are opaque; texts of the liveness agent are lists of characters.
--
-- Not modelled: the registration of wakers, which says when a future is polled and not what a poll
-- gives; logging; the derives of serde; `command.spawn()` and the environment of the command; the
-- close of descriptor 0 and the flush and shutdown of the closed connection in `main`, whose
-- results are ignored; the arguments of the agents; the tests and the build files.
pub mod Prelude
pub mod Outcome
pub mod Protocol
pub mod Io
pub mod Agent
pub mod Liveness
pub mod Tests
