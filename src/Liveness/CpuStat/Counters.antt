-- ===== src/Liveness/CpuStat/Counters.antt =====
-- The counters of `/proc/stat`: no sum of `ProcStat::parse` and no difference of `cpu_percent` wraps.
use minimal_vm_tool.Prelude.{
  ℕ, suc, ◌+◌, ◌-◌, ◌≤◌, ◌<◌, ◌≡◌, refl, ap, ap₂, sym, ◌∙◌, Bool, true, false, Option, none, some,
  List, [], ◌∷◌, arith, ltb, leb, if◌then◌else◌, Bool-cases, inl, inr,
}
use minimal_vm_tool.Outcome.{Result, ok, err}
use minimal_vm_tool.Liveness.Text.{Text, codes, strip_prefix, find_map, or_else, u64_limit}
use minimal_vm_tool.Liveness.CpuStat.{
  ProcStat, counts_idle, add_u64, scan, fields_of, parse, read_proc_stat, sample, Float,
  cpu_percent, sub_u64,
}

-- The numbers before the first field that is not one.
abbrev pub leading : List (Option ℕ) → List ℕ
leading [] = []
leading (none ∷ fields) = []
leading (some v ∷ fields) = v ∷ leading fields

abbrev pub sum : List ℕ → ℕ
sum [] = 0
sum (v ∷ vs) = v + sum vs

-- The sum of the fields idle and iowait, where the list begins at field `i`.
abbrev pub idle_from : ℕ → List ℕ → ℕ
idle_from i [] = 0
idle_from i (v ∷ vs) = (if counts_idle i then v else 0) + idle_from (suc i) vs

abbrev pub exact : ℕ → ℕ → Option ProcStat
exact total idle =
    if ltb total u64_limit then some (record { total = total; idle = idle }) else none

idle_step :
    (b : Bool) (idle v : ℕ)
    → idle + v < u64_limit
    → (if b then add_u64 idle v else idle) ≡ idle + (if b then v else 0)
idle_step true idle v h = omega arith
idle_step false idle v h = omega arith

-- An index that does not count adds nothing.
weight_le : (b : Bool) (v : ℕ) → (if b then v else 0) ≤ v
weight_le true v = omega arith
weight_le false v = omega arith

exact_over : (total idle : ℕ) → u64_limit ≤ total → exact total idle ≡ none
exact_over total idle h = ground arith

scan-eq-exact :
    (fields : List (Option ℕ)) (i total idle : ℕ)
    → idle ≤ total
    → total < u64_limit
    → scan fields i total idle
      ≡ exact (total + sum (leading fields)) (idle + idle_from i (leading fields))
unfolding scan
scan-eq-exact [] i total idle h lt = ground arith
scan-eq-exact (none ∷ fields) i total idle h lt = ground arith
scan-eq-exact (some v ∷ fields) i total idle h lt = elim (Bool-cases (ltb (total + v) u64_limit)) [
  | inl fits ↦
      let room : total + v < u64_limit = ground arith in
      let w = weight_le (counts_idle i) v in
      rw (fits, idle_step (counts_idle i) idle v (omega arith))
        (scan-eq-exact fields (suc i) (total + v) (idle + (if counts_idle i then v else 0))
            (omega arith) room
          ∙ ap₂ exact (omega arith) (omega arith))
  | inr over ↦
      let full : u64_limit ≤ total + v = ground arith in
      rw over (
        sym (
          exact_over (total + (v + sum (leading fields)))
            (idle + ((if counts_idle i then v else 0) + idle_from (suc i) (leading fields)))
            (omega arith)))
]

-- On a line that starts as the aggregate one does, parse gives the sum of the numbers before the
-- first field that is not one, and the sum of the fourth and fifth of them, where the first sum
-- fits a u64; it gives nothing where that sum does not fit.
pub parse-eq-exact :
    (line rest : Text)
    → strip_prefix (codes "cpu ") line ≡ some rest
    → parse line ≡ exact (sum (leading (fields_of rest))) (idle_from 0 (leading (fields_of rest)))
unfolding parse
parse-eq-exact line rest e = rw e (
    scan-eq-exact (fields_of rest) 0 0 0 (omega arith) (omega arith)
    ∙ ap₂ exact (omega arith) (omega arith))

idle_from-le-sum : (i : ℕ) (vs : List ℕ) → idle_from i vs ≤ sum vs
idle_from-le-sum i [] = omega arith
idle_from-le-sum i (v ∷ vs) =
    omega (arith, idle_from-le-sum (suc i) vs, weight_le (counts_idle i) v)

-- A snapshot whose idle time is within the total, which fits.
pub record IsSound (s : ProcStat) : Type 0 where
  pub idle_in : s.idle ≤ s.total
  pub fits : s.total < u64_limit

exact-IsSound :
    (total idle : ℕ) {s : ProcStat} → idle ≤ total → exact total idle ≡ some s → IsSound s
exact-IsSound total idle h e = ground arith

parse_at :
    (line : Text) (o : Option Text) {s : ProcStat}
    → strip_prefix (codes "cpu ") line ≡ o
    → parse line ≡ some s
    → IsSound s
unfolding parse
parse_at line none e h = cc (rw e at h)
parse_at line (some rest) e h =
    let vs = leading (fields_of rest) in
    exact-IsSound (sum vs) (idle_from 0 vs) (idle_from-le-sum 0 vs)
      (sym (parse-eq-exact line rest e) ∙ h)

pub parse-IsSound : (line : Text) {s : ProcStat} → parse line ≡ some s → IsSound s
parse-IsSound line h = parse_at line (strip_prefix (codes "cpu ") line) refl h

found_at :
    (line : Text) (o later : Option ProcStat) {s : ProcStat}
    → parse line ≡ o
    → (later ≡ some s → IsSound s)
    → or_else o later ≡ some s
    → IsSound s
found_at line (some t) later p ih e = parse-IsSound line (p ∙ e)
found_at line none later p ih e = ih e

found_IsSound : (lines : List Text) {s : ProcStat} → find_map parse lines ≡ some s → IsSound s
unfolding find_map
found_IsSound [] e = cc
found_IsSound (line ∷ lines) e =
    found_at line (parse line) (find_map parse lines) refl (found_IsSound lines) e

read_at :
    (o : Option ProcStat) (lines : List Text)
    → find_map parse lines ≡ o
    → (s : ProcStat) → read_proc_stat lines ≡ ok s
    → IsSound s
unfolding read_proc_stat
read_at none lines e s h = cc (rw (e, read_proc_stat) at h)
read_at (some t) lines e s h = found_IsSound lines (ground arith)

pub read_proc_stat-IsSound :
    (lines : List Text) (s : ProcStat) → read_proc_stat lines ≡ ok s → IsSound s
read_proc_stat-IsSound lines s h = read_at (find_map parse lines) lines refl s h

-- Busy time, as a plain difference.
abbrev pub busy : ProcStat → ℕ
busy s = s.total - s.idle

module _ (F : Float) where
  -- The share of busy time in the time elapsed, from exact differences.
  abbrev pub percent : ProcStat → ProcStat → F.F64
  percent first second =
      if leb second.total first.total
      then F.from_u64 0
      else F.clamp
          (F.mul
            (F.div (F.from_u64 (busy second - busy first))
              (F.from_u64 (second.total - first.total)))
            (F.from_u64 100))
          (F.from_u64 0) (F.from_u64 100)

  sub_u64-busy : {s : ProcStat} → IsSound s → sub_u64 s.total s.idle ≡ busy s
  sub_u64-busy v = omega arith

  cpu_percent-eq-percent :
      (first second : ProcStat)
      → IsSound first
      → IsSound second
      → cpu_percent F first second ≡ percent first second
  unfolding cpu_percent
  cpu_percent-eq-percent first second a b = rw (sub_u64-busy a, sub_u64-busy b) (ground arith)

  -- What a sample should be, by what was read of the counters.
  abbrev pub Samples : ProcStat → Result ProcStat → Result F.F64 × ProcStat → Type 0
  Samples first (ok second) out = (out ≡ (ok (percent first second), second)) × IsSound second
  Samples first (err e) out = out ≡ (err e, first)

  sample_at :
      (first : ProcStat) (lines : List Text) (r : Result ProcStat)
      → IsSound first
      → read_proc_stat lines ≡ r
      → Samples first r (sample F first lines)
  unfolding sample
  sample_at first lines (ok second) v e =
      let w = read_proc_stat-IsSound lines second e in
      (rw (e, sample) (ap (λ p. (ok p, second)) (cpu_percent-eq-percent first second v w)), w)
  sample_at first lines (err x) v e = rw (e, sample) refl

  -- From a snapshot whose idle time is within its total, which fits a u64, a sample is the
  -- percentage of busy time in the time elapsed, with plain differences, or zero where no time has
  -- elapsed; the snapshot that it keeps is the one that it read, and is such a snapshot again.
  -- Where the counters cannot be read, that is the error and the old snapshot is kept.
  pub sample-Samples :
      (first : ProcStat) (lines : List Text)
      → IsSound first
      → Samples first (read_proc_stat lines) (sample F first lines)
  sample-Samples first lines v = sample_at first lines (read_proc_stat lines) v refl
