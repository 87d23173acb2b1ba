-- ===== src/Tests/ReportTests.antt =====
-- liveness/src/agent.rs, liveness/src/main.rs and liveness/protocol/src/io.rs on a concrete guest.
use minimal_vm_tool.Prelude.{
  ℕ, ◌+◌, ◌-◌, ◌*◌, ◌/◌, min, ◌≡◌, ◌≢◌, refl, ap, ap₂, ◌∙◌, sym, true, false, some, none, List, [],
  ◌∷◌, ◌++◌, append-nil, Option, Bytes, newline, arith, if◌then◌else◌, ◌==◌, map, ◌⊎◌, inr,
}
use minimal_vm_tool.Outcome.{Error, plain, os, Result, ok, err, pending, ready}
use minimal_vm_tool.Io.Rx.{position}
use minimal_vm_tool.Liveness.Text.{Text, codes}
use minimal_vm_tool.Liveness.CpuStat.{ProcStat, Float}
use minimal_vm_tool.Liveness.Mounts.{System, FileSystemUsage}
use minimal_vm_tool.Liveness.Systemd.{
  SystemdState, initializing, starting, running, degraded, maintenance, stopping, unknown,
}
use minimal_vm_tool.Liveness.Transport.{Status, StatusMessage, status_message, Link}
use minimal_vm_tool.Liveness.Transport.Wire.{with_newline, Buffers, Splits, IsJson, IsLine}
use minimal_vm_tool.Liveness.Report.{
  Readings, stat_of, Tick, selecting, report_until_disconnected, run_reports, Sockets, connect, run,
}
use minimal_vm_tool.Liveness.Report.Series.{Series, Runs, run_reports-Runs}
use minimal_vm_tool.Liveness.Report.Exit.{Exits, run-Exits}
use minimal_vm_tool.Liveness.Report.Received.{Reads, received, received_is_reported}
use minimal_vm_tool.Liveness.CpuStat.{parse, read_proc_stat, sample, cpu_percent}
use minimal_vm_tool.Liveness.MemInfo.{memory, swap, meminfo_field, kb_of}
use minimal_vm_tool.Liveness.Mounts.{disks}
use minimal_vm_tool.Liveness.Systemd.{systemd_state}
use minimal_vm_tool.Liveness.Transport.{poll_send, send}
use minimal_vm_tool.Liveness.Report.{report_turn}
use minimal_vm_tool.Liveness.Text.{find_map, split_whitespace, from_str_radix}

-- Numbers in place of `f64`, rounded down.
abbrev whole : Float
whole = record { F64 = ℕ; from_u64 = λ n. n; div = ◌/◌; mul = ◌*◌; clamp = λ n lo hi. min n hi }

-- Bytes above those that end lines.
abbrev raised : Bytes → Bytes
raised bs = map (λ b. b + 14) bs

abbrev lowered : Bytes → Bytes
lowered bs = map (λ b. b - 14) bs

lowered-raised : (bs : Bytes) → lowered (raised bs) ≡ bs
lowered-raised [] = refl
lowered-raised (b ∷ bs) = ap₂ ◌∷◌ (omega arith) (lowered-raised bs)

raised_one_line : (bs : Bytes) → position newline (raised bs) ≡ none
unfolding position
raised_one_line [] = refl
raised_one_line (b ∷ bs) = ground (arith, raised_one_line bs)

raised_end : (bs init : Bytes) → raised bs ≢ init ++ 13 ∷ []
raised_end [] [] e = cc
raised_end [] (i ∷ init) e = cc
raised_end (b ∷ bs) [] e = ground arith
raised_end (b ∷ bs) (i ∷ init) e = raised_end bs init cc

-- A codec for the statuses of a system that runs, without disks; it refuses the others.
abbrev numbers : Status whole → SystemdState → List FileSystemUsage → Result Bytes
numbers s running [] =
    ok (s.cpu_percent ∷ s.memory.used ∷ s.memory.total ∷ s.swap.used ∷ s.swap.total ∷ [])
numbers s _ _ = err (plain "refused")

abbrev raised_ok : Result Bytes → Result Bytes
raised_ok (ok bs) = ok (raised bs)
raised_ok (err e) = err e

abbrev to_string : StatusMessage whole → Result Bytes
to_string (status_message s) = raised_ok (numbers s s.systemd s.disks)

abbrev of_numbers : Bytes → Result (StatusMessage whole)
of_numbers (cpu ∷ mu ∷ mt ∷ su ∷ st ∷ []) = ok (
    status_message (record {
      systemd = running;
      cpu_percent = cpu;
      memory = record { used = mu; total = mt };
      swap = record { used = su; total = st };
      disks = [];
    }))
of_numbers bs = err (plain "refused")

abbrev from_str : Bytes → Result (StatusMessage whole)
from_str bs = of_numbers (lowered bs)

-- The bytes to a newline, and those after it.
abbrev cut : Bytes → Bytes × Bytes
cut [] = ([], [])
cut (c ∷ cs) = let (line, rest) = cut cs in if c == newline then ([], cs) else (c ∷ line, rest)

cut-line :
    (line more : Bytes)
    → position newline line ≡ none
    → cut (with_newline line ++ more) ≡ (line, more)
unfolding position
cut-line [] more e = refl
cut-line (c ∷ cs) more e = ground (arith, cut-line cs more)

abbrev line_of : Bytes → Result (Option Bytes)
line_of [] = ok none
line_of (c ∷ cs) = ok (some (cut (c ∷ cs)).0)

line_of-some : (bs : Bytes) → bs ≢ [] → line_of bs ≡ ok (some (cut bs).0)
line_of-some [] n = absurd (n refl)
line_of-some (c ∷ cs) n = refl

not_nil : (line more : Bytes) → with_newline line ++ more ≢ []
not_nil [] more e = cc
not_nil (c ∷ cs) more e = cc

-- The connection is the bytes that it was given, and so is the reader.
abbrev bytes_link : Link whole
bytes_link = record {
  Conn = Bytes;
  Reader = Bytes;
  write_all = λ c b. (ready (ok tt), (c ++ b, []));
  flush = λ c. (ready (ok tt), c);
  next_line = λ r. (ready (line_of r), (cut r).1);
  to_string = to_string;
  from_str = from_str;
}

abbrev buffers : Buffers bytes_link
buffers = record {
  taken = λ c. c;
  delivered = λ c. c;
  taken-write_all = λ c b. append-nil (c ++ b);
  left-write_all = λ c b e. refl;
  taken-flush = λ c. refl;
  delivered-flush = λ c e. refl;
}

next_line-line :
    (r line more : Bytes) (got : Result (Option Bytes))
    → IsLine bytes_link line
    → r ≡ with_newline line ++ more
    → ready (line_of r) ≡ ready got
    → ((e : Error) × (got ≡ err e)) ⊎ ((got ≡ ok (some line)) × ((cut r).1 ≡ more))
next_line-line r line more got v h e =
    let c : cut r ≡ (line, more) = ap cut h ∙ cut-line line more v.0 in
    let full : line_of r ≡ ok (some (cut r).0) =
      line_of-some r (λ z. not_nil line more (sym h ∙ z)) in
    let same : got ≡ line_of r = cc e in
    inr (same ∙ full ∙ ap (λ q. ok (some q.0)) c, ap (λ q. q.1) c)

next_line-end :
    (r : Bytes) (got : Result (Option Bytes))
    → r ≡ []
    → ready (line_of r) ≡ ready got
    → ((e : Error) × (got ≡ err e)) ⊎ (got ≡ ok none)
next_line-end r got h e = let same : got ≡ line_of r = cc e in inr (same ∙ ap line_of h)

never_waits : (r : Bytes) → ready (line_of r) ≡ pending → (cut r).1 ≡ r
never_waits r e = cc

abbrev splits : Splits bytes_link
splits = record {
  rest = λ r. r;
  rest-wait = never_waits;
  next_line-line = next_line-line;
  next_line-end = next_line-end;
}

numbers_back :
    (s : Status whole) (t : SystemdState) (d : List FileSystemUsage) (b : Bytes)
    → s.systemd ≡ t
    → s.disks ≡ d
    → raised_ok (numbers s t d) ≡ ok b
    → from_str b ≡ ok (status_message s)
numbers_back s running [] b t d e =
    let line = s.cpu_percent ∷ s.memory.used ∷ s.memory.total ∷ s.swap.used ∷ s.swap.total ∷ [] in
    let same : b ≡ raised line = cc e in
    ap from_str same
    ∙ ap of_numbers (lowered-raised line)
    ∙ ap₂ (λ x y. ok (status_message (record s { systemd = x; disks = y }))) (sym t) (sym d)
numbers_back s running (x ∷ xs) b t d e = cc e
numbers_back s initializing x b t d e = cc e
numbers_back s starting x b t d e = cc e
numbers_back s degraded x b t d e = cc e
numbers_back s maintenance x b t d e = cc e
numbers_back s stopping x b t d e = cc e
numbers_back s unknown x b t d e = cc e

reads_back : (m : StatusMessage whole) (line : Bytes) → to_string m ≡ ok line → from_str line ≡ ok m
reads_back (status_message s) line e = numbers_back s s.systemd s.disks line refl refl e

raised-IsLine : (r : Result Bytes) (line : Bytes) → raised_ok r ≡ ok line → IsLine bytes_link line
raised-IsLine (ok bs) line e =
    let same : line ≡ raised bs = cc e in
    (ap (position newline) same ∙ raised_one_line bs, λ init z. raised_end bs init (sym same ∙ z))
raised-IsLine (err x) line e = cc e

to_string-IsLine :
    (m : StatusMessage whole) (line : Bytes) → to_string m ≡ ok line → IsLine bytes_link line
to_string-IsLine (status_message s) line e = raised-IsLine (numbers s s.systemd s.disks) line e

abbrev json : IsJson bytes_link
json = record { reads_back = reads_back; one_line = to_string-IsLine }

abbrev guest_system : System
guest_system = record { statvfs = λ p. none; dev = λ p. none; read_dir = λ p. none }

abbrev meminfo : List Text
meminfo =
    codes "MemTotal:  2048 kB"
    ∷ codes "MemAvailable: 1024 kB"
    ∷ codes "SwapTotal: 0 kB"
    ∷ codes "SwapFree: 0 kB"
    ∷ []

abbrev readings : Readings
readings = record {
  systemctl = ok (codes "running");
  stat = ok (codes "cpu  20 0 20 60 10" ∷ []);
  meminfo = ok meminfo;
  meminfo_again = ok meminfo;
  mounts = ok [];
  system = guest_system;
}

abbrev at_boot : Result (List Text)
at_boot = ok (codes "cpu  10 0 20 60 10" ∷ [])

abbrev tick : Tick
tick = record { shutdown = false; elapsed = true; readings = readings }

abbrev boot : ProcStat
boot = record { total = 100; idle = 70 }

abbrev later : ProcStat
later = record { total = 110; idle = 70 }

-- Two reports: all of the first ten jiffies were busy, and then none elapsed.
abbrev two_lines : Bytes
two_lines =
    raised (100 ∷ 1048576 ∷ 2097152 ∷ 0 ∷ 0 ∷ [])
    ++ 10 ∷ raised (0 ∷ 1048576 ∷ 2097152 ∷ 0 ∷ 0 ∷ [])
    ++ 10 ∷ []

abbrev three_ticks : List Tick
three_ticks = tick ∷ tick ∷ tick ∷ []

two_reports :
    run_reports whole bytes_link three_ticks
      (report_until_disconnected whole bytes_link at_boot readings [])
    ≡ selecting two_lines later
unfolding run_reports report_until_disconnected report_turn read_proc_stat sample memory swap disks
    systemd_state poll_send send find_map parse split_whitespace from_str_radix meminfo_field kb_of
    cpu_percent
two_reports = refl

booted : stat_of at_boot ≡ ok boot
unfolding read_proc_stat find_map parse split_whitespace from_str_radix
booted = refl

run_reports-Runs_example : Runs bytes_link buffers [] (stat_of at_boot) (
    run_reports whole bytes_link three_ticks
      (report_until_disconnected whole bytes_link at_boot readings []))
run_reports-Runs_example = run_reports-Runs bytes_link buffers three_ticks at_boot readings [] refl

received_is_reported_example :
    (log : List (Status whole)) × Series whole boot log later
    × Reads bytes_link log (received bytes_link 3 two_lines)
received_is_reported_example =
    received_is_reported bytes_link buffers splits json three_ticks at_boot readings [] two_lines
      boot later 3 two_lines refl booted two_reports refl

-- A connect that is in flight.
abbrev sockets : Sockets
sockets = record {
  Socket = Unit {0};
  Stream = Unit {0};
  new_vsock = ok tt;
  set_nonblocking = λ s. ok tt;
  connect_vsock = λ s cid port. err (os 115);
  from_std = λ s. ok tt;
  writable = λ s. ok tt;
  take_error = λ s. ok none;
  initiating = λ e. "initiating vsock connect";
  failed = λ e. "vsock connect failed";
}

run-Exits_example :
    Exits
      (connect sockets 2 1024)
      (stat_of at_boot)
      (run whole bytes_link sockets (λ s. []) 2 1024 at_boot readings three_ticks)
run-Exits_example =
    run-Exits bytes_link sockets (λ s. []) buffers 2 1024 at_boot readings three_ticks (λ s. refl)
