-- ===== src/Liveness/Report/Series.antt =====
-- What the loop of liveness/src/agent.rs reports, and what has been put out of it.
use minimal_vm_tool.Prelude.{
  ◌≡◌, refl, ap, ◌∙◌, sym, Bool, true, false, List, [], ◌∷◌, ◌++◌, append-nil, Bytes,
}
use minimal_vm_tool.Outcome.{Result, ok, err, Poll, pending, ready, with_context, ◌>>=◌}
use minimal_vm_tool.Liveness.Text.{Text}
use minimal_vm_tool.Liveness.CpuStat.{Float, ProcStat, read_proc_stat, sample}
use minimal_vm_tool.Liveness.CpuStat.Counters.{
  IsSound, read_proc_stat-IsSound, percent, Samples, sample-Samples,
}
use minimal_vm_tool.Liveness.MemInfo.{Usage}
use minimal_vm_tool.Liveness.Mounts.{FileSystemUsage}
use minimal_vm_tool.Liveness.Systemd.{systemd_state}
use minimal_vm_tool.Liveness.Transport.{Status, status_message, Link, SendState, send, poll_send}
use minimal_vm_tool.Liveness.Transport.Wire.{
  with_newline, stream_of, stream_of-append, Buffers, unsent, Puts, poll_send-Puts, Written,
}
use minimal_vm_tool.Liveness.Report.{
  Readings, stat_of, memory_of, swap_of, disks_of, Tick, Reporting, sending, selecting, ended,
  sample_of, status_from, sent, begun, report, sampled, report_until_disconnected, selected,
  report_turn, run_reports,
}

module _ (F : Float) where
  -- A status of these readings, from one snapshot of the counters to the next: the processor's load is
  -- the share of busy time between them.
  pub record IsStatus (r : Readings) (first second : ProcStat) (s : Status F) : Type 0 where
    pub counters : stat_of r.stat ≡ ok second
    pub state : s.systemd ≡ systemd_state r.systemctl
    pub load : s.cpu_percent ≡ percent F first second
    pub memory_read : memory_of r.meminfo ≡ ok s.memory
    pub swap_read : swap_of r.meminfo_again ≡ ok s.swap
    pub disks_read : disks_of r.system r.mounts ≡ ok s.disks

  -- Statuses in order, each from the snapshot that the one before it ended at.
  pub data Series (first : ProcStat) : List (Status F) → ProcStat → Type 0 where
    begins : Series first [] first
    goes_on :
        {log : List (Status F)} {second third : ProcStat}
        → Series first log second
        → (r : Readings) (s : Status F) → IsStatus r second third s
        → Series first (log ++ s ∷ []) third

module _ {F : Float} (K : Link F) where
  Written-more :
      (log : List (Status F)) (lines : List Bytes) (s : Status F) (line : Bytes)
      → Written K log lines
      → K.to_string (status_message s) ≡ ok line
      → Written K (log ++ s ∷ []) (lines ++ line ∷ [])
  Written-more [] lines s line w e = (line, [], ap (λ x. x ++ line ∷ []) w, e, refl)
  Written-more (t ∷ log) lines s line (l, rest, split, to, w) e =
      (l, rest ++ line ∷ [], ap (λ x. x ++ line ∷ []) split, to, Written-more log rest s line w e)

  module _ (B : Buffers K) (first : ProcStat) where
    -- The statuses so far, with their lines.
    abbrev pub Logged : ProcStat → Bytes → Type 0
    Logged cpu out =
        (log : List (Status F)) × (lines : List Bytes) × Series F first log cpu
        × Written K log lines
        × (out ≡ stream_of lines)

    -- By where the loop is: the lines of the statuses have been taken, but for what is left of the
    -- last one; all are delivered at the `select!`; and the end is no error.
    abbrev pub Reports : Reporting F K → Type 0
    Reports (sending st c cpu) = IsSound cpu × Logged cpu (B.taken c ++ unsent K st)
    Reports (selecting c cpu) = IsSound cpu × Logged cpu (B.taken c) × (B.delivered c ≡ B.taken c)
    Reports (ended c (ok _)) = (cpu : ProcStat) × (left : Bytes) × Logged cpu (B.taken c ++ left)
    Reports (ended c (err e)) = ⊥

    ended-Reports :
        (c : K.Conn) (cpu : ProcStat) → Logged cpu (B.taken c) → Reports (ended c (ok tt))
    ended-Reports c cpu (log, lines, s, w, o) =
        (cpu, [], (log, lines, s, w, append-nil (B.taken c) ∙ o))

    sent-Reports :
        (p : Poll (Result (Unit {0})) × (SendState × K.Conn)) (cpu : ProcStat) (all : Bytes)
        → Puts K B all p
        → IsSound cpu
        → Logged cpu all
        → Reports (sent F K p cpu)
    unfolding sent
    sent-Reports (pending, (st, c)) cpu all (h, d) v (log, lines, s, w, o) =
        (v, (log, lines, s, w, h ∙ o))
    sent-Reports (ready (err e), (st, c)) cpu all (h, d) v (log, lines, s, w, o) =
        (cpu, unsent K st, (log, lines, s, w, h ∙ o))
    sent-Reports (ready (ok _), (st, c)) cpu all (h, d) v (log, lines, s, w, o) =
        let (a, b) = d refl in (v, (log, lines, s, w, b ∙ o), a ∙ sym b)

    -- What a sample gives, by the counters that were read.
    abbrev Sampled : ProcStat → Readings → Result (F.F64) × ProcStat → Type 0
    Sampled cpu r (ok v, next) =
        (stat_of r.stat ≡ ok next) × (v ≡ percent F cpu next) × IsSound next
    Sampled cpu r (err e, next) = Unit

    Sampled-at :
        (cpu : ProcStat) (r : Readings) (lines : List Text) (read : Result ProcStat)
        → r.stat ≡ ok lines
        → read_proc_stat lines ≡ read
        → Samples F cpu read (sample F cpu lines)
        → Sampled cpu r (sample F cpu lines)
    Sampled-at cpu r lines (ok second) e h (out, v) =
        rw out (ap (λ x. with_context "reading /proc/stat" x >>= read_proc_stat) e ∙ h, refl, v)
    Sampled-at cpu r lines (err x) e h out = rw out tt

    sample_of-Sampled :
        (cpu : ProcStat) (r : Readings) (file : Result (List Text))
        → r.stat ≡ file
        → IsSound cpu
        → Sampled cpu r (sample_of F K cpu file)
    unfolding sample_of
    sample_of-Sampled cpu r (err x) e v = tt
    sample_of-Sampled cpu r (ok lines) e v =
        Sampled-at cpu r lines (read_proc_stat lines) e refl (sample-Samples F cpu lines v)

    -- The send of a status begins with its line.
    send_begins :
        (r : Readings) (c : K.Conn) (cpu next : ProcStat) (s : Status F) (t : Result Bytes)
        → K.to_string (status_message s) ≡ t
        → IsStatus F r cpu next s
        → IsSound next
        → Logged cpu (B.taken c)
        → Reports (begun F K (send K s) c next)
    unfolding begun send
    send_begins r c cpu next s (err x) e i v l = rw e (ended-Reports c cpu l)
    send_begins r c cpu next s (ok line) e i v (log, lines, series, w, o) = rw e (
      v,
      (
        log ++ s ∷ [],
        lines ++ line ∷ [],
        goes_on series r s i,
        Written-more log lines s line w e,
        ap (λ x. x ++ with_newline line) o
            ∙ ap (λ x. stream_of lines ++ x) (sym (append-nil (with_newline line)))
            ∙ sym (stream_of-append lines (line ∷ [])),
      ),
    )

    -- A status that is sent, at what its parts were read as.
    begun_at :
        (r : Readings) (c : K.Conn) (cpu next : ProcStat) (v : F.F64) (m w : Result Usage)
        (d : Result (List FileSystemUsage))
        → memory_of r.meminfo ≡ m
        → swap_of r.meminfo_again ≡ w
        → disks_of r.system r.mounts ≡ d
        → Sampled cpu r (ok v, next)
        → Logged cpu (B.taken c)
        → Reports (begun F K (status_from F K r (ok v) >>= send K) c next)
    unfolding begun status_from
    begun_at r c cpu next v (err x) w d hm hw hd h l = rw hm (ended-Reports c cpu l)
    begun_at r c cpu next v (ok m) (err x) d hm hw hd h l = rw (hm, hw) (ended-Reports c cpu l)
    begun_at r c cpu next v (ok m) (ok w) (err x) hm hw hd h l =
        rw (hm, hw, hd) (ended-Reports c cpu l)
    begun_at r c cpu next v (ok m) (ok w) (ok d) hm hw hd h l =
        let (counters, load, sound) = h in
        rw (hm, hw, hd)
          (send_begins r c cpu next _ _ refl
            (record {
              counters = counters;
              state = refl;
              load = load;
              memory_read = hm;
              swap_read = hw;
              disks_read = hd;
            })
            sound l)

    begun-Reports :
        (r : Readings) (c : K.Conn) (cpu : ProcStat) (x : Result (F.F64) × ProcStat)
        → Sampled cpu r x
        → Logged cpu (B.taken c)
        → Reports (begun F K (status_from F K r x.0 >>= send K) c x.1)
    unfolding begun status_from
    begun-Reports r c cpu (err e, next) h l = ended-Reports c cpu l
    begun-Reports r c cpu (ok v, next) h l =
        begun_at r c cpu next v (memory_of r.meminfo) (swap_of r.meminfo_again)
          (disks_of r.system r.mounts) refl refl refl h l

    report-Reports :
        (r : Readings) (c : K.Conn) (cpu : ProcStat)
        → IsSound cpu
        → Logged cpu (B.taken c)
        → Reports (report F K r c cpu)
    unfolding report
    report-Reports r c cpu v l =
        begun-Reports r c cpu (sample_of F K cpu r.stat) (sample_of-Sampled cpu r r.stat refl v) l

    selected-Reports :
        (shutdown elapsed : Bool) (r : Readings) (c : K.Conn) (cpu : ProcStat)
        → IsSound cpu
        → Logged cpu (B.taken c)
        → B.delivered c ≡ B.taken c
        → Reports
            (selected F K (record { shutdown = shutdown; elapsed = elapsed; readings = r }) c cpu)
    unfolding selected
    selected-Reports true elapsed r c cpu v l d = ended-Reports c cpu l
    selected-Reports false true r c cpu v l d = report-Reports r c cpu v l
    selected-Reports false false r c cpu v l d = (v, l, d)

    report_turn-Reports : (t : Tick) (a : Reporting F K) → Reports a → Reports (report_turn F K t a)
    unfolding report_turn
    report_turn-Reports t (sending st c cpu) (v, l) =
        sent-Reports (poll_send K st c) cpu (B.taken c ++ unsent K st)
          (poll_send-Puts K B (B.taken c ++ unsent K st) st c refl) v l
    report_turn-Reports t (selecting c cpu) (v, l, d) =
        selected-Reports t.shutdown t.elapsed t.readings c cpu v l d
    report_turn-Reports t (ended c (ok _)) h = h
    report_turn-Reports t (ended c (err e)) h = h

    pub run_reports_keep :
        (ts : List Tick) (a : Reporting F K) → Reports a → Reports (run_reports F K ts a)
    unfolding run_reports
    run_reports_keep [] a h = h
    run_reports_keep (t ∷ ts) a h =
        run_reports_keep ts (report_turn F K t a) (report_turn-Reports t a h)

  ended_stays :
      (c : K.Conn) (r : Result (Unit {0})) (ts : List Tick)
      → run_reports F K ts (ended c r) ≡ ended c r
  unfolding run_reports report_turn
  ended_stays c r [] = refl
  ended_stays c r (t ∷ ts) = ended_stays c r ts

  -- Where the counters can be read first, the loop reports from their snapshot on; else it ends with
  -- that error, and the connection is as it was.
  abbrev pub Runs : Buffers K → K.Conn → Result ProcStat → Reporting F K → Type 0
  Runs B c (ok first) a = Reports B first a
  Runs B c (err e) a = a ≡ ended c (err e)

  Runs-at :
      (B : Buffers K) (ts : List Tick) (r : Readings) (c : K.Conn) (read : Result ProcStat)
      → ((first : ProcStat) → read ≡ ok first → IsSound first)
      → B.taken c ≡ []
      → Runs B c read (run_reports F K ts (sampled F K read r c))
  unfolding sampled
  Runs-at B ts r c (err e) v fresh = ended_stays c (err e) ts
  Runs-at B ts r c (ok first) v fresh =
      run_reports_keep B first ts (report F K r c first)
        (report-Reports B first r c first (v first refl) ([], [], begins, refl, fresh))

stat_of-IsSound :
    (file : Result (List Text)) (first : ProcStat) → stat_of file ≡ ok first → IsSound first
stat_of-IsSound (ok lines) first e = read_proc_stat-IsSound lines first e
stat_of-IsSound (err x) first e = cc

-- Where a buffered writer takes bytes in order and its flush delivers them: over a connection that
-- has taken nothing, whatever the ticks are, the loop ends with the error of the first reading of
-- the counters where that fails. Otherwise it never ends with an error, also where a later report
-- cannot be collected, and what the connection has taken, with what is left of the last report, is
-- the lines of statuses in order, each of which has the readings of one moment and the load between
-- the counters of the report before it and its own; all of it is delivered wherever the loop waits
-- for the interval.
pub run_reports-Runs :
    {F : Float} (K : Link F) (B : Buffers K) (ts : List Tick) (stat : Result (List Text))
    (r : Readings) (c : K.Conn)
    → B.taken c ≡ []
    → Runs K B c (stat_of stat) (run_reports F K ts (report_until_disconnected F K stat r c))
unfolding report_until_disconnected
run_reports-Runs K B ts stat r c fresh =
    Runs-at K B ts r c (stat_of stat) (λ first e. stat_of-IsSound stat first e) fresh
