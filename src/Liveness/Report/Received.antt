-- ===== src/Liveness/Report/Received.antt =====
-- Both ends of the connection of the liveness agent: what the host receives is what was reported.
use minimal_vm_tool.Prelude.{
  ℕ, zero, suc, ◌≡◌, refl, ap, ◌∙◌, Option, none, some, List, [], ◌∷◌, ◌++◌,
}
use minimal_vm_tool.Outcome.{Result, ok, err, Poll, pending, ready}
use minimal_vm_tool.Liveness.Text.{Text}
use minimal_vm_tool.Liveness.CpuStat.{Float, ProcStat}
use minimal_vm_tool.Liveness.Transport.{Status, Link, poll_recv}
use minimal_vm_tool.Liveness.Transport.Wire.{Buffers, Splits, IsJson, Holds, Gives, poll_recv-Gives}
use minimal_vm_tool.Liveness.Report.{
  Readings, stat_of, Tick, selecting, report_until_disconnected, run_reports,
}
use minimal_vm_tool.Liveness.Report.Series.{Series, Runs, run_reports-Runs}

module _ {F : Float} (K : Link F) where
  -- The statuses that polls of `Rx::recv` give, to the first error or the end of the stream.
  abbrev pub Collected : Type 0
  Collected = List (Status F) × Option (Result (Unit {0}))

  pub collected : (K.Reader → Collected) → Poll (Result (Option (Status F))) × K.Reader → Collected
  collected more (pending, r) = more r
  collected more (ready (err e), r) = ([], some (err e))
  collected more (ready (ok none), r) = ([], some (ok tt))
  collected more (ready (ok (some s)), r) = let (got, stop) = more r in (s ∷ got, stop)

  pub received : ℕ → K.Reader → Collected
  unfolding collected
  received zero r = ([], none)
  received (suc n) r = collected (received n) (poll_recv K r)

  -- All of the statuses at the end of the stream, and else the first of them.
  abbrev pub Reads : List (Status F) → Collected → Type 0
  Reads ss (got, some (ok _)) = got ≡ ss
  Reads ss (got, some (err e)) = (rest : List (Status F)) × (got ++ rest ≡ ss)
  Reads ss (got, none) = (rest : List (Status F)) × (got ++ rest ≡ ss)

  Reads-cons :
      (s : Status F) (ss : List (Status F)) (q : Collected)
      → Reads ss q
      → Reads (s ∷ ss) (s ∷ q.0, q.1)
  Reads-cons s ss (got, some (ok _)) h = ap (λ x. s ∷ x) h
  Reads-cons s ss (got, some (err e)) (rest, h) = (rest, ap (λ x. s ∷ x) h)
  Reads-cons s ss (got, none) (rest, h) = (rest, ap (λ x. s ∷ x) h)

  module _ (S : Splits K) (J : IsJson K) where
    collected-Reads :
        (more : K.Reader → Collected) (ss : List (Status F))
        (p : Poll (Result (Option (Status F))) × K.Reader)
        → ((r : K.Reader) (rest : List (Status F)) → Holds K S J r rest → Reads rest (more r))
        → Gives K S J ss p
        → Reads ss (collected more p)
    unfolding collected
    collected-Reads more ss (pending, r) ih h = ih r ss h
    collected-Reads more ss (ready (err e), r) ih h = (ss, refl)
    collected-Reads more [] (ready (ok none), r) ih h = refl
    collected-Reads more [] (ready (ok (some s)), r) ih h = absurd (cc h)
    collected-Reads more (t ∷ ss) (ready (ok none), r) ih (h, w) = absurd (cc h)
    collected-Reads more (t ∷ ss) (ready (ok (some s)), r) ih (h, w) =
        let e : s ≡ t = cc h in rw e (Reads-cons t ss (more r) (ih r ss w))

    received-Reads :
        (n : ℕ) (r : K.Reader) (ss : List (Status F)) → Holds K S J r ss → Reads ss (received n r)
    unfolding received
    received-Reads zero r ss h = (ss, refl)
    received-Reads (suc n) r ss h =
        collected-Reads (received n) ss (poll_recv K r) (λ r' rest w. received-Reads n r' rest w)
          (poll_recv-Gives K S J ss r h)

-- Where a buffered writer and the reader of lines are as they document, and JSON is read back and
-- is one line: if, over a connection that had taken nothing, and with counters that could be read
-- first, the loop is waiting for the interval, then polls of the receiver over what the connection
-- has delivered give a start of the statuses that were reported since those counters, and all of
-- them where they come to the end of the stream.
pub received_is_reported :
    {F : Float} (K : Link F) (B : Buffers K) (S : Splits K) (J : IsJson K) (ts : List Tick)
    (stat : Result (List Text)) (readings : Readings) (c c' : K.Conn) (first cpu : ProcStat) (n : ℕ)
    (r : K.Reader)
    → B.taken c ≡ []
    → stat_of stat ≡ ok first
    → run_reports F K ts (report_until_disconnected F K stat readings c) ≡ selecting c' cpu
    → S.rest r ≡ B.delivered c'
    → (log : List (Status F)) × Series F first log cpu × Reads K log (received K n r)
received_is_reported {F} K B S J ts stat readings c c' first cpu n r fresh h run same =
    let runs : Runs K B c (ok first) (selecting c' cpu) =
      rw (h, run) at (run_reports-Runs K B ts stat readings c fresh) in
    let (v, (log, lines, series, w, o), d) = runs in
    (log, series, received-Reads K S J n r log (lines, w, same ∙ d ∙ o))
