-- ===== src/Liveness/CpuStat.antt =====
-- `ProcStat`, `CpuSample` and `cpu_percent` of liveness/src/metrics.rs.
pub mod Counters
use minimal_vm_tool.Prelude.{
  ℕ, zero, suc, ◌+◌, ◌-◌, ◌%◌, ◌^◌, Bool, true, false, ◌||◌, Option, none, some, List, [], ◌∷◌, map,
  ltb, ◌==◌, if◌then◌else◌,
}
use minimal_vm_tool.Outcome.{Error, plain, Result, ok, err}
use minimal_vm_tool.Liveness.Text.{
  Text, codes, strip_prefix, find_map, split_whitespace, parse_u64, u64_limit,
}

pub record ProcStat : Type 0 where
  pub total : ℕ
  pub idle : ℕ

-- `u64` arithmetic as it wraps in a release build.
abbrev pub add_u64 : ℕ → ℕ → ℕ
add_u64 a b = (a + b) % u64_limit

abbrev pub sub_u64 : ℕ → ℕ → ℕ
sub_u64 a b = (a + u64_limit - b) % u64_limit

-- The fields idle and iowait.
pub counts_idle : ℕ → Bool
counts_idle i = i == 3 || i == 4

-- The loop of `ProcStat::parse` over the fields from index `i` on.
unfoldable pub scan : List (Option ℕ) → ℕ → ℕ → ℕ → Option ProcStat
unfolding counts_idle
scan [] i sum idle = some (record { total = sum; idle = idle })
scan (none ∷ fields) i sum idle = some (record { total = sum; idle = idle })
scan (some value ∷ fields) i sum idle =
    let idle' = if counts_idle i then add_u64 idle value else idle in
    let rest = scan fields (suc i) (sum + value) idle' in
    if ltb (sum + value) u64_limit then rest else none

unfoldable pub fields_of : Text → List (Option ℕ)
fields_of rest = map parse_u64 (split_whitespace rest)

unfoldable pub parse : Text → Option ProcStat
unfolding scan fields_of strip_prefix
parse line = elim (strip_prefix (codes "cpu ") line) [
  | none ↦ none
  | some rest ↦ scan (fields_of rest) 0 0 0
]

-- `read_proc_stat`, at the lines of /proc/stat.
unfoldable pub read_proc_stat : List Text → Result ProcStat
read_proc_stat lines = elim (find_map parse lines) [
  | some stat ↦ ok stat
  | none ↦ err (plain "/proc/stat has no aggregate cpu line")
]

-- `f64`.
pub record Float : Type 1 where
  pub F64 : Type 0
  pub from_u64 : ℕ → F64
  pub div : F64 → F64 → F64
  pub mul : F64 → F64 → F64
  pub clamp : F64 → F64 → F64 → F64

module _ (F : Float) where
  unfoldable pub cpu_percent : ProcStat → ProcStat → F.F64
  cpu_percent first second =
      let total_delta = second.total - first.total in
      let busy_delta = sub_u64 second.total second.idle - sub_u64 first.total first.idle in
      if total_delta == 0
      then F.from_u64 0
      else F.clamp (F.mul (F.div (F.from_u64 busy_delta) (F.from_u64 total_delta)) (F.from_u64 100))
          (F.from_u64 0) (F.from_u64 100)

  -- `sample`, at the lines of /proc/stat: the report, and the snapshot that is kept.
  unfoldable pub sample : ProcStat → List Text → Result F.F64 × ProcStat
  sample first lines = elim (read_proc_stat lines) [
    | ok second ↦ (ok (cpu_percent first second), second)
    | err e ↦ (err e, first)
  ]
