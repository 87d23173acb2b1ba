-- ===== src/Liveness/MemInfo.antt =====
-- `memory`, `swap` and `meminfo_field` of liveness/src/metrics.rs, at the lines of /proc/meminfo.
use Prim.Native.String
use minimal_vm_tool.Prelude.{
  String, ℕ, ◌-◌, ◌*◌, ◌%◌, ◌≤◌, ◌<◌, ◌≡◌, refl, ap, Option, none, some, List, [], ◌∷◌, arith,
  if◌then◌else◌, ◌==◌, ◌&&◌,
}
use minimal_vm_tool.Outcome.{plain, Result, ok, err, ◌>>=◌}
use minimal_vm_tool.Liveness.Text.{
  Text, codes, strip_prefix, is_whitespace, parse_u64, u64_limit, find_map,
}

-- `Usage`.
pub record Usage : Type 0 where
  pub used : ℕ
  pub total : ℕ

-- `trim_start`, and `trim` on both sides.
unfoldable pub trim_start : Text → Text
trim_start [] = []
trim_start (c ∷ cs) = if is_whitespace c then trim_start cs else c ∷ cs

unfoldable pub reverse_onto : Text → Text → Text
reverse_onto [] done = done
reverse_onto (c ∷ cs) done = reverse_onto cs (c ∷ done)

abbrev pub reversed : Text → Text
reversed text = reverse_onto text []

unfoldable pub trim : Text → Text
unfolding trim_start reverse_onto is_whitespace
trim text = reversed (trim_start (reversed (trim_start text)))

-- `trim_end_matches(" kB")`, on the reversed text: every such ending is cut off.
unfoldable pub cut_kb : Text → Text
cut_kb (b ∷ k ∷ c ∷ rest) =
    let more = cut_kb rest in if b == b'B' && k == b'k' && c == b' ' then more else b ∷ k ∷ c ∷ rest
cut_kb text = text

unfoldable pub trim_end_kb : Text → Text
unfolding cut_kb reverse_onto
trim_end_kb text = reversed (cut_kb (reversed text))

-- The closure of `meminfo_field`.
unfoldable pub kb_of : Text → Text → Option ℕ
unfolding trim trim_end_kb strip_prefix
kb_of prefix line = elim (strip_prefix prefix line) [
  | none ↦ none
  | some rest ↦ parse_u64 (trim (trim_end_kb rest))
]

abbrev pub or_missing : String → Option ℕ → Result ℕ
or_missing prefix (some kb) = ok kb
or_missing prefix none = err (plain (String.◌++◌ "/proc/meminfo has no " prefix))

unfoldable pub meminfo_field : List Text → String → Result ℕ
meminfo_field lines prefix = or_missing prefix (find_map (kb_of (codes prefix)) lines)

-- What `memory` and `swap` make of two fields, in `u64` as it wraps in a release build.
unfoldable pub usage_of : ℕ → ℕ → Usage
usage_of total_kb free_kb = record {
  used = ((total_kb - free_kb) * 1024) % u64_limit;
  total = (total_kb * 1024) % u64_limit;
}

unfoldable pub memory : List Text → Result Usage
unfolding usage_of
memory lines = do
  total_kb ← meminfo_field lines "MemTotal:"
  available_kb ← meminfo_field lines "MemAvailable:"
  ok (usage_of total_kb available_kb)

unfoldable pub swap : List Text → Result Usage
unfolding usage_of
swap lines = do
  total_kb ← meminfo_field lines "SwapTotal:"
  free_kb ← meminfo_field lines "SwapFree:"
  ok (usage_of total_kb free_kb)

-- The usage that two fields in kilobytes stand for.
abbrev pub in_bytes : ℕ → ℕ → Usage
in_bytes total_kb free_kb = record { used = (total_kb - free_kb) * 1024; total = total_kb * 1024 }

usage_of-eq-in_bytes : (t a : ℕ) → t * 1024 < u64_limit → usage_of t a ≡ in_bytes t a
unfolding usage_of
usage_of-eq-in_bytes t a h = ground arith

-- What a report should be, by the two fields that it is made of: the first field that is missing is
-- the error.
abbrev pub Reports : Result ℕ → Result ℕ → Result Usage → Type 0
Reports (ok t) (ok a) r = (r ≡ ok (in_bytes t a)) × ((in_bytes t a).used ≤ (in_bytes t a).total)
Reports (ok t) (err e) r = r ≡ err e
Reports (err e) _ r = r ≡ err e

-- A field that is reported in bytes without overflow.
abbrev pub Fits : Result ℕ → Type 0
Fits (ok t) = t * 1024 < u64_limit
Fits (err e) = Unit

both_fields :
    (t a : Result ℕ)
    → Fits t
    → Reports t a (do total_kb ← t; free_kb ← a; ok (usage_of total_kb free_kb))
both_fields (ok t) (ok a) h = (ap ok (usage_of-eq-in_bytes t a h), omega arith)
both_fields (ok t) (err e) h = refl
both_fields (err e) a h = refl

-- Where the two totals, if they are there, fit a u64 in bytes, memory and swap report their total
-- in bytes and the difference of their fields, zero where that is negative, with the use within the
-- total; the first field that is missing, by its name, is the error, that of the total before the
-- other.
pub memory-swap-Reports :
    (lines : List Text)
    → Fits (meminfo_field lines "MemTotal:")
    → Fits (meminfo_field lines "SwapTotal:")
    → Reports (meminfo_field lines "MemTotal:") (meminfo_field lines "MemAvailable:") (memory lines)
      × Reports (meminfo_field lines "SwapTotal:") (meminfo_field lines "SwapFree:") (swap lines)
unfolding memory swap
memory-swap-Reports lines m s = (
  both_fields (meminfo_field lines "MemTotal:") (meminfo_field lines "MemAvailable:") m,
  both_fields (meminfo_field lines "SwapTotal:") (meminfo_field lines "SwapFree:") s,
)
