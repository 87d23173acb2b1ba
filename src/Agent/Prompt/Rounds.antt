-- ===== src/Agent/Prompt/Rounds.antt =====
-- Schedules in which every task of a session gets its turns, and what is so of a session when none
-- is of use.
use minimal_vm_tool.Prelude.{ℕ, suc, ◌≡◌, refl, ap, false, Option, none, some, List, ◌∷◌, ◌++◌}
use minimal_vm_tool.Outcome.{Result}
use minimal_vm_tool.Agent.Tasks.{Env, works, Copy, Feed, Watch}
use minimal_vm_tool.Agent.Session.{Session, Turn, stdin_turn, stdout_turn, stderr_turn, exit_turn}
use minimal_vm_tool.Agent.Main.{copy_result, feed_result, watch_result, joined, joined_session}
use minimal_vm_tool.Agent.Prompt.{Prompts}
use minimal_vm_tool.Agent.Prompt.Costs.{copy_live}
use minimal_vm_tool.Agent.Prompt.FeedCosts.{feed_live}
use minimal_vm_tool.Agent.Prompt.WatchCosts.{watch_live}
use minimal_vm_tool.Agent.Prompt.Turns.{Lives, Idle, AllIdle, lives}

pub data Takes (turn : Turn) : List Turn → Type 0 where
  now : (rest : List Turn) → Takes turn (turn ∷ rest)
  later : (first : Turn) (rest : List Turn) → Takes turn rest → Takes turn (first ∷ rest)

-- A round: each task gets a turn at its own work, among any others.
pub record Covers (turns : List Turn) : Type 0 where
  pub stdin_takes : Takes stdin_turn turns
  pub stdout_takes : Takes (stdout_turn works) turns
  pub stderr_takes : Takes (stderr_turn works) turns
  pub exit_takes : Takes (exit_turn works) turns

-- At least so many rounds.
pub data Rounds : ℕ → List Turn → Type 0 where
  none_left : (rest : List Turn) → Rounds 0 rest
  round :
      (n : ℕ) (turns rest : List Turn)
      → Covers turns
      → Rounds n rest
      → Rounds (suc n) (turns ++ rest)

abbrev pub all_ended : Lives
all_ended = record {
  stdin_live = false;
  stdout_live = false;
  stderr_live = false;
  exit_live = false;
}

Idle-Takes :
    (v : Lives) (turn : Turn) (turns : List Turn) → Takes turn turns → AllIdle v turns → Idle v turn
Idle-Takes v turn turns (now rest) (i, is) = i
Idle-Takes v turn turns (later first rest t) (i, is) = Idle-Takes v turn rest t is

-- Where nobody who gets a turn works, and all get one, all have ended.
pub ended_of_idle : (v : Lives) (turns : List Turn) → Covers turns → AllIdle v turns → v ≡ all_ended
ended_of_idle v turns c i =
    let a = Idle-Takes v stdin_turn turns c.stdin_takes i in
    let b = Idle-Takes v (stdout_turn works) turns c.stdout_takes i refl in
    let d = Idle-Takes v (stderr_turn works) turns c.stderr_takes i refl in
    let e = Idle-Takes v (exit_turn works) turns c.exit_takes i refl in cc

abbrev IsThere : Option (Result (Unit {0})) → Type 0
IsThere (some r) = Unit
IsThere none = ⊥

copy_ended : (t : Copy) → copy_live t ≡ false → IsThere (copy_result t)
copy_ended (Copy.ended r) e = tt
copy_ended (Copy.selecting b p) e = absurd (cc e)
copy_ended (Copy.passing p d) e = absurd (cc e)
copy_ended (Copy.closing d) e = absurd (cc e)
copy_ended Copy.aborted e = absurd (cc e)

feed_ended : {I : Type 0} (t : Feed I) → feed_live t ≡ false → IsThere (feed_result t)
feed_ended (Feed.ended i r) e = tt
feed_ended (Feed.waiting i) e = absurd (cc e)
feed_ended (Feed.writing i left) e = absurd (cc e)
feed_ended (Feed.announcing i d) e = absurd (cc e)
feed_ended Feed.aborted e = absurd (cc e)

module _ (E : Env) (Q : Prompts E) where
  watch_ended : (t : Watch E.child) → watch_live E Q t ≡ false → IsThere (watch_result E t)
  watch_ended (Watch.ended r) e = tt
  watch_ended (Watch.watching w p) e = absurd (cc e)
  watch_ended (Watch.reporting p d) e = absurd (cc e)
  watch_ended Watch.aborted e = absurd (cc e)

  joined_there :
      (a b c d : Option (Result (Unit {0})))
      → IsThere a
      → IsThere b
      → IsThere c
      → IsThere d
      → joined E a b c d ≡ none
      → ⊥
  unfolding joined
  joined_there (some a) (some b) (some c) (some d) p q r s e = cc e
  joined_there none b c d p q r s e = p
  joined_there (some a) none c d p q r s e = q
  joined_there (some a) (some b) none d p q r s e = r
  joined_there (some a) (some b) (some c) none p q r s e = s

  -- The tasks have all ended only where they are joined.
  pub not_all_ended : (s : Session E) → lives E Q s ≡ all_ended → joined_session E s ≡ none → ⊥
  unfolding joined_session
  not_all_ended s h =
      joined_there (watch_result E s.exit_task) (feed_result s.stdin_task)
        (copy_result s.stdout_task) (copy_result s.stderr_task)
        (watch_ended s.exit_task (ap (λ (v : Lives). v.exit_live) h))
        (feed_ended s.stdin_task (ap (λ (v : Lives). v.stdin_live) h))
        (copy_ended s.stdout_task (ap (λ (v : Lives). v.stdout_live) h))
        (copy_ended s.stderr_task (ap (λ (v : Lives). v.stderr_live) h))
