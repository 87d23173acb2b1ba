-- ===== src/Liveness/Report/Exit.antt =====
-- The exit code of the liveness agent, liveness/src/main.rs.
use minimal_vm_tool.Prelude.{ℕ, ◌≡◌, refl, Option, none, some, List, [], ◌⊎◌, inl, inr}
use minimal_vm_tool.Outcome.{Result, ok, err}
use minimal_vm_tool.Liveness.Text.{Text}
use minimal_vm_tool.Liveness.CpuStat.{Float, ProcStat}
use minimal_vm_tool.Liveness.Transport.{Link}
use minimal_vm_tool.Liveness.Transport.Wire.{Buffers}
use minimal_vm_tool.Liveness.Report.{
  Readings, stat_of, Tick, Reporting, sending, selecting, ended, report_until_disconnected,
  run_reports, Sockets, connect, exit_code, exit_of, connected, run,
}
use minimal_vm_tool.Liveness.Report.Series.{Runs, Reports, run_reports-Runs}

-- By what came of the connection and of the first reading of the counters: a failure exits with one,
-- and otherwise there is no exit but with zero.
abbrev pub Exits : {S : Type 0} → Result S → Result ProcStat → Option ℕ → Type 0
Exits (err e) cpu code = code ≡ some 1
Exits (ok stream) (err e) code = code ≡ some 1
Exits (ok stream) (ok cpu) code = (code ≡ none) ⊎ (code ≡ some 0)

module _ {F : Float} (K : Link F) (N : Sockets) (new : N.Stream → K.Conn) (B : Buffers K) where
  Reports-exit :
      (first : ProcStat) (a : Reporting F K)
      → Reports K B first a
      → (exit_of F K N new a ≡ none) ⊎ (exit_of F K N new a ≡ some 0)
  unfolding exit_of exit_code
  Reports-exit first (sending st c cpu) h = inl refl
  Reports-exit first (selecting c cpu) h = inl refl
  Reports-exit first (ended c (ok _)) h = inr refl
  Reports-exit first (ended c (err e)) h = absurd h

  Runs-exit :
      (stream : N.Stream) (read : Result ProcStat) (a : Reporting F K)
      → Runs K B (new stream) read a
      → Exits (ok stream) read (exit_of F K N new a)
  unfolding exit_of exit_code
  Runs-exit stream (err e) a h = rw h refl
  Runs-exit stream (ok first) a h = Reports-exit first a h

  connected-Exits :
      (s : Result N.Stream) (stat : Result (List Text)) (r : Readings) (ticks : List Tick)
      → ((stream : N.Stream) → B.taken (new stream) ≡ [])
      → Exits s (stat_of stat) (connected F K N new s stat r ticks)
  unfolding connected exit_code
  connected-Exits (err e) stat r ticks fresh = refl
  connected-Exits (ok stream) stat r ticks fresh =
      Runs-exit stream (stat_of stat)
        (run_reports F K ticks (report_until_disconnected F K stat r (new stream)))
        (run_reports-Runs K B ticks stat r (new stream) (fresh stream))

-- Where a buffered writer takes bytes in order and its flush delivers them, and a new connection
-- has taken nothing: the liveness agent exits with one where it cannot connect or cannot read the
-- counters first; otherwise, whatever the ticks are, it runs on or exits with zero, also where a
-- later report cannot be collected.
pub run-Exits :
    {F : Float} (K : Link F) (N : Sockets) (new : N.Stream → K.Conn) (B : Buffers K) (cid port : ℕ)
    (stat : Result (List Text)) (r : Readings) (ticks : List Tick)
    → ((stream : N.Stream) → B.taken (new stream) ≡ [])
    → Exits (connect N cid port) (stat_of stat) (run F K N new cid port stat r ticks)
unfolding run
run-Exits K N new B cid port stat r ticks fresh =
    connected-Exits K N new B (connect N cid port) stat r ticks fresh
