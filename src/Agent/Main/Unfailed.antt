-- ===== src/Agent/Main/Unfailed.antt =====
-- The join of the tasks of a session in which no task has failed.
use minimal_vm_tool.Prelude.{Option, none, some}
use minimal_vm_tool.Outcome.{Result, ok, err, ◌>>=◌}
use minimal_vm_tool.Agent.Tasks.{Env, Copy, Feed, Watch}
use minimal_vm_tool.Agent.Session.{Session}
use minimal_vm_tool.Agent.Prompt.{Prompts}
use minimal_vm_tool.Agent.Prompt.Sound.{NoFaults, CopySound, FeedSound, WatchSound}
use minimal_vm_tool.Agent.Prompt.Faultless.{AllSound}
use minimal_vm_tool.Agent.Main.{copy_result, feed_result, watch_result, joined, joined_session}

-- A task that has not failed.
abbrev pub Unfailed : Option (Result (Unit {0})) → Type 0
Unfailed none = Unit
Unfailed (some (ok _)) = Unit
Unfailed (some (err e)) = ⊥

copy-Unfailed : (t : Copy) → CopySound t → Unfailed (copy_result t)
copy-Unfailed (Copy.selecting e p) h = tt
copy-Unfailed (Copy.passing p d) h = tt
copy-Unfailed (Copy.closing d) h = tt
copy-Unfailed (Copy.ended (ok _)) h = tt
copy-Unfailed (Copy.ended (err e)) h = h
copy-Unfailed Copy.aborted h = tt

feed-Unfailed : {I : Type 0} (t : Feed I) → FeedSound t → Unfailed (feed_result t)
feed-Unfailed (Feed.waiting i) h = tt
feed-Unfailed (Feed.writing i left) h = tt
feed-Unfailed (Feed.announcing i d) h = tt
feed-Unfailed (Feed.ended i (ok _)) h = tt
feed-Unfailed (Feed.ended i (err e)) h = h
feed-Unfailed Feed.aborted h = tt

module _ (E : Env) (Q : Prompts E) (N : NoFaults E) where
  watch-Unfailed : (t : Watch E.child) → WatchSound t → Unfailed (watch_result E t)
  watch-Unfailed (Watch.watching w p) h = tt
  watch-Unfailed (Watch.reporting p d) h = tt
  watch-Unfailed (Watch.ended (ok _)) h = tt
  watch-Unfailed (Watch.ended (err e)) h = h
  watch-Unfailed Watch.aborted h = tt

  results-Unfailed :
      (a b c d : Result (Unit {0}))
      → Unfailed (some a)
      → Unfailed (some b)
      → Unfailed (some c)
      → Unfailed (some d)
      → Unfailed (some (a >>= λ _. b >>= λ _. c >>= λ _. d))
  results-Unfailed (ok _) (ok _) (ok _) (ok _) p q r s = tt
  results-Unfailed (ok _) (ok _) (ok _) (err x) p q r s = s
  results-Unfailed (ok _) (ok _) (err x) d p q r s = r
  results-Unfailed (ok _) (err x) c d p q r s = q
  results-Unfailed (err x) b c d p q r s = p

  joined-Unfailed :
      (a b c d : Option (Result (Unit {0})))
      → Unfailed a
      → Unfailed b
      → Unfailed c
      → Unfailed d
      → Unfailed (joined E a b c d)
  unfolding joined
  joined-Unfailed (some a) (some b) (some c) (some d) p q r s = results-Unfailed a b c d p q r s
  joined-Unfailed none b c d p q r s = tt
  joined-Unfailed (some a) none c d p q r s = tt
  joined-Unfailed (some a) (some b) none d p q r s = tt
  joined-Unfailed (some a) (some b) (some c) none p q r s = tt

  pub joined_session-Unfailed : (s : Session E) → AllSound E Q N s → Unfailed (joined_session E s)
  unfolding joined_session
  joined_session-Unfailed s (i, o, r, x, v, h) =
      joined-Unfailed (watch_result E s.exit_task) (feed_result s.stdin_task)
        (copy_result s.stdout_task) (copy_result s.stderr_task) (watch-Unfailed s.exit_task x)
        (feed-Unfailed s.stdin_task i) (copy-Unfailed s.stdout_task o)
        (copy-Unfailed s.stderr_task r)
