-- ===== src/Liveness/Systemd.antt =====
-- `SystemdState` of liveness/protocol/src/lib.rs, `systemd_state` of liveness/src/metrics.rs, and
-- `verbosity_from_flags`, which both agents have.
use minimal_vm_tool.Prelude.{
  ℕ, suc, zero, ◌≡◌, refl, Bool, true, false, [], ◌∷◌, ◌++◌, if◌then◌else◌,
}
use minimal_vm_tool.Prelude.Int.{ℤ, pos, negsuc, sub_ℕ}
use minimal_vm_tool.Outcome.{Result, ok, err}
use minimal_vm_tool.Liveness.Text.{Text, codes, same}
use minimal_vm_tool.Liveness.MemInfo.{trim}

pub data SystemdState : Type 0 where
  initializing starting running degraded maintenance stopping unknown : SystemdState

pub is_operational : SystemdState → Bool
is_operational running = true
is_operational degraded = true
is_operational _ = false

-- The `match` on the trimmed output.
unfoldable pub state_of : Text → SystemdState
unfolding same
state_of word =
    if same word (codes "initializing")
    then initializing
    else if same word (codes "starting")
    then starting
    else if same word (codes "running")
    then running
    else if same word (codes "degraded")
    then degraded
    else if same word (codes "maintenance")
    then maintenance
    else if same word (codes "stopping")
    then stopping
    else unknown

unfoldable pub parse : Text → SystemdState
unfolding state_of trim
parse output = state_of (trim output)

-- `Display`.
pub fmt : SystemdState → Text
fmt initializing = codes "initializing"
fmt starting = codes "starting"
fmt running = codes "running"
fmt degraded = codes "degraded"
fmt maintenance = codes "maintenance"
fmt stopping = codes "stopping"
fmt unknown = codes "unknown"

-- At the output of `systemctl is-system-running`, decoded as UTF-8.
unfoldable pub systemd_state : Result Text → SystemdState
unfolding parse
systemd_state (ok output) = parse output
systemd_state (err e) = unknown

pub data LogLevelNum : Type 0 where
  error_level warn info debug trace : LogLevelNum

-- The `match` on `verbose as i16 - quiet as i16`, which is within the range of an i16.
pub level_of : ℤ → LogLevelNum
level_of (negsuc (suc n)) = error_level
level_of (negsuc zero) = warn
level_of (pos zero) = info
level_of (pos (suc zero)) = debug
level_of (pos (suc (suc n))) = trace

unfoldable pub verbosity_from_flags : ℕ → ℕ → LogLevelNum
unfolding level_of
verbosity_from_flags verbose quiet = level_of (sub_ℕ verbose quiet)

-- The word that is printed for a state of systemd, with a newline behind it, is read as that state.
pub parse-fmt : (state : SystemdState) → parse (fmt state ++ b'\n' ∷ []) ≡ state
unfolding parse fmt
parse-fmt initializing = refl
parse-fmt starting = refl
parse-fmt running = refl
parse-fmt degraded = refl
parse-fmt maintenance = refl
parse-fmt stopping = refl
parse-fmt unknown = refl
