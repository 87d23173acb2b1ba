-- ===== src/Liveness/Report.antt =====
-- liveness/src/agent.rs and `run` of liveness/src/main.rs: connect, and report until the connection or
-- the process is to end.
pub mod Series
pub mod Exit
pub mod Received
use minimal_vm_tool.Prelude.{
  ℕ, String, Bool, true, false, Option, none, some, List, [], ◌∷◌, if◌then◌else◌, ◌==◌,
}
use minimal_vm_tool.Outcome.{
  Error, plain, os, context, Result, ok, err, Poll, pending, ready, with_context, ◌>>=◌,
}
use minimal_vm_tool.Liveness.Text.{Text}
use minimal_vm_tool.Liveness.CpuStat.{Float, ProcStat, read_proc_stat, sample}
use minimal_vm_tool.Liveness.MemInfo.{Usage, memory, swap}
use minimal_vm_tool.Liveness.Mounts.{System, FileSystemUsage, disks}
use minimal_vm_tool.Liveness.Systemd.{systemd_state}
use minimal_vm_tool.Liveness.Transport.{Status, Link, SendState, send, poll_send}

-- What a report reads, in order: the output of systemctl, and the lines of the files of /proc, the
-- second of them once for the memory and once for the swap.
pub record Readings : Type 0 where
  pub systemctl : Result Text
  pub stat : Result (List Text)
  pub meminfo : Result (List Text)
  pub meminfo_again : Result (List Text)
  pub mounts : Result (List Text)
  pub system : System

-- `read_proc_stat`, `memory`, `swap` and `disks` with the reads of their files.
abbrev pub stat_of : Result (List Text) → Result ProcStat
stat_of file = with_context "reading /proc/stat" file >>= read_proc_stat

abbrev pub memory_of : Result (List Text) → Result Usage
memory_of file = with_context "reading /proc/meminfo" file >>= memory

abbrev pub swap_of : Result (List Text) → Result Usage
swap_of file = with_context "reading /proc/meminfo" file >>= swap

abbrev pub disks_of : System → Result (List Text) → Result (List FileSystemUsage)
disks_of system file = with_context "reading /proc/mounts" file >>= λ lines. ok (disks system lines)

-- What a turn finds: whether the shutdown signal has come, whether the interval is over, and what a
-- report that begins in it reads.
pub record Tick : Type 0 where
  pub shutdown : Bool
  pub elapsed : Bool
  pub readings : Readings

-- Where `report_until_disconnected` is: at the send of a report, at the `select!`, or at its end.
pub data Reporting (F : Float) (K : Link F) : Type 0 where
  sending : SendState → K.Conn → ProcStat → Reporting F K
  selecting : K.Conn → ProcStat → Reporting F K
  ended : K.Conn → Result (Unit {0}) → Reporting F K

module _ (F : Float) (K : Link F) where
  -- `sample(cpu)`, with the snapshot that is kept.
  pub sample_of : ProcStat → Result (List Text) → Result (F.F64) × ProcStat
  sample_of cpu (ok lines) = sample F cpu lines
  sample_of cpu (err e) = (err (context "reading /proc/stat" e), cpu)

  -- The `Status` of `report`, and its send up to the first await.
  pub status_from : Readings → Result (F.F64) → Result (Status F)
  status_from r cpu = do
    cpu_percent ← cpu
    mem ← memory_of r.meminfo
    swp ← swap_of r.meminfo_again
    dsk ← disks_of r.system r.mounts
    ok (record {
      systemd = systemd_state r.systemctl;
      cpu_percent = cpu_percent;
      memory = mem;
      swap = swp;
      disks = dsk;
    })

  -- A failed report ends the loop, which is no error.
  pub sent : Poll (Result (Unit {0})) × (SendState × K.Conn) → ProcStat → Reporting F K
  sent (pending, (st, c)) cpu = sending st c cpu
  sent (ready (err e), (st, c)) cpu = ended c (ok tt)
  sent (ready (ok _), (st, c)) cpu = selecting c cpu

  pub begun : Result SendState → K.Conn → ProcStat → Reporting F K
  begun (err e) c cpu = ended c (ok tt)
  begun (ok st) c cpu = sending st c cpu

  -- The beginning of `report`.
  pub report : Readings → K.Conn → ProcStat → Reporting F K
  unfolding begun status_from sample_of
  report r c cpu =
      let (percent, cpu') = sample_of cpu r.stat in begun (status_from r percent >>= send K) c cpu'

  -- `cpu_sample`, and the beginning of the first report.
  pub sampled : Result ProcStat → Readings → K.Conn → Reporting F K
  unfolding report
  sampled (err e) r c = ended c (err e)
  sampled (ok cpu) r c = report r c cpu

  unfoldable pub report_until_disconnected : Result (List Text) → Readings → K.Conn → Reporting F K
  unfolding sampled
  report_until_disconnected stat r c = sampled (stat_of stat) r c

  -- The `select!` is biased: the shutdown comes first.
  pub selected : Tick → K.Conn → ProcStat → Reporting F K
  unfolding report
  selected t c cpu =
      let next = report t.readings c cpu in
      if t.shutdown then ended c (ok tt) else if t.elapsed then next else selecting c cpu

  -- From one await to the next.
  unfoldable pub report_turn : Tick → Reporting F K → Reporting F K
  unfolding sent selected
  report_turn t (sending st c cpu) = sent (poll_send K st c) cpu
  report_turn t (selecting c cpu) = selected t c cpu
  report_turn t (ended c r) = ended c r

  unfoldable pub run_reports : List Tick → Reporting F K → Reporting F K
  unfolding report_turn
  run_reports [] a = a
  run_reports (t ∷ ts) a = run_reports ts (report_turn t a)

-- The calls of `connect`: socket2, tokio, and the texts of the two errors. `writable` is what its await
-- gives.
pub record Sockets : Type 1 where
  pub Socket : Type 0
  pub Stream : Type 0
  pub new_vsock : Result Socket
  pub set_nonblocking : Socket → Result (Unit {0})
  pub connect_vsock : Socket → ℕ → ℕ → Result (Unit {0})
  pub from_std : Socket → Result Stream
  pub writable : Stream → Result (Unit {0})
  pub take_error : Stream → Result (Option Error)
  pub initiating : Error → String
  pub failed : Error → String

-- `libc::EINPROGRESS`.
abbrev pub einprogress : ℕ
einprogress = 115

module _ (N : Sockets) where
  pub initiated : Result (Unit {0}) → Result (Unit {0})
  initiated (ok _) = ok tt
  initiated (err (os n)) = if n == einprogress then ok tt else err (plain (N.initiating (os n)))
  initiated (err e) = err (plain (N.initiating e))

  pub completed : N.Stream → Option Error → Result N.Stream
  completed stream none = ok stream
  completed stream (some e) = err (plain (N.failed e))

  -- `connect`.
  pub connect : ℕ → ℕ → Result N.Stream
  unfolding initiated completed
  connect cid port = do
    socket ← N.new_vsock
    nonblocking ← N.set_nonblocking socket
    started ← initiated (N.connect_vsock socket cid port)
    stream ← N.from_std socket
    done ← with_context "waiting for vsock connect to complete" (N.writable stream)
    e ← N.take_error stream
    completed stream e

-- The `match` of `main`: the exit code, where the process has one.
pub exit_code : Result (Unit {0}) → ℕ
exit_code (ok _) = 0
exit_code (err e) = 1

module _ (F : Float) (K : Link F) (N : Sockets) (new : N.Stream → K.Conn) where
  pub exit_of : Reporting F K → Option ℕ
  unfolding exit_code
  exit_of (sending st c cpu) = none
  exit_of (selecting c cpu) = none
  exit_of (ended c r) = some (exit_code r)

  -- `run`, at what `cpu_sample` and the first report read, and `main`.
  pub connected : Result N.Stream → Result (List Text) → Readings → List Tick → Option ℕ
  unfolding exit_of exit_code
  connected (err e) stat r ticks = some (exit_code (err e))
  connected (ok stream) stat r ticks =
      exit_of (run_reports F K ticks (report_until_disconnected F K stat r (new stream)))

  pub run : ℕ → ℕ → Result (List Text) → Readings → List Tick → Option ℕ
  unfolding connected
  run cid port stat r ticks = connected (connect N cid port) stat r ticks
