-- ===== src/Agent/Main/Whole.antt =====
-- What `main` has said when it is over, where its connection is prompt: a whole conversation, or one
-- that ends with an `Error`.
use minimal_vm_tool.Agent.Process.{Process}
use minimal_vm_tool.Prelude.{
  ◌≡◌, refl, subst, Option, none, some, List, [], ◌∷◌, ◌++◌, map, Bytes, ◌⊎◌, inl, inr,
}
use minimal_vm_tool.Prelude.Int.{ℤ}
use minimal_vm_tool.Outcome.{Error, Result, ok, err, ◌>>=◌}
use minimal_vm_tool.Protocol.{
  Message, Exec, Stdio, data_of, closed, in_stream, out_stream, err_stream,
}
use minimal_vm_tool.Io.Writer.{Delivers}
use minimal_vm_tool.Agent.Chunks.Pieces.{output}
use minimal_vm_tool.Agent.Tasks.{Env, Copy, Feed, Watch}
use minimal_vm_tool.Agent.Tasks.Sending.{on}
use minimal_vm_tool.Agent.Tasks.Copying.{SilentClosed, joined_bytes, Copies}
use minimal_vm_tool.Agent.Tasks.Feeding.{Feeds}
use minimal_vm_tool.Agent.Tasks.Watching.{StatusOf, exits, Watches}
use minimal_vm_tool.Agent.Session.{Session}
use minimal_vm_tool.Agent.Session.Steps.{IsSession}
use minimal_vm_tool.Agent.Main.{
  Main, greeting, serving, flushing, closing, gone, aborted, apologizing, expecting, spawn, Child,
  Host, copy_result, feed_result, watch_result, joined, joined_session,
}
use minimal_vm_tool.Agent.Main.Story.{IsChildOf, hello, sorry, Story}
use minimal_vm_tool.Outcome.{Poll, pending, ready}
use minimal_vm_tool.Protocol.{from_exec}
use minimal_vm_tool.Io.Rx.Recv.{shared_recv}

-- All of an output, and that it is closed.
abbrev pub Full : Bytes → List Stdio → Type 0
Full out sent = (ds : List Bytes) × (joined_bytes ds ≡ out) × (sent ≡ map data_of ds ++ closed ∷ [])

-- Where `main` sends its `Error`.
abbrev pub Apologizing : (E : Env) → Main E → Type 0
Apologizing E (apologizing d tx) = Unit
Apologizing E m = ⊥

module _ (E : Env) (H : Host E) where
  -- The messages of a session after which nothing is missing.
  abbrev pub Complete : Child E → List Message → Type 0
  Complete c talk =
      Full (output c.output) (on out_stream talk)
      × Full (output c.errors) (on err_stream talk)
      × (on in_stream talk ≡ closed ∷ [])
      × ((status : ℤ) × StatusOf E.child c.process.proc status × (exits talk ≡ status ∷ []))

  -- A whole conversation, on a child that is `B`.
  abbrev pub WholeOf : (Child E → Type 0) → List Message → Type 0
  WholeOf B log =
      (exec : Exec) × (c : Child E) × (talk : List Message) × IsChildOf E H exec c
      × B c
      × Complete c talk
      × (log ≡ hello E H c ∷ talk)

  -- A conversation that ends with an `Error`.
  abbrev pub Apology : List Message → Type 0
  Apology log =
      (before : List Message) × (e : Error) × Story E H before × (log ≡ before ++ sorry E H e ∷ [])

  -- A conversation that has come to its end, with an `Error` only where `A` is so.
  abbrev pub FinalIf : Type 0 → (Child E → Type 0) → List Message → Type 0
  FinalIf A B log = WholeOf B log ⊎ (A × Apology log)

  -- A conversation that has come to its end.
  abbrev pub Final : List Message → Type 0
  Final log = WholeOf (λ c. Unit) log ⊎ Apology log

  -- The whole conversation on a given child.
  abbrev pub Whole : Child E → List Message → Type 0
  Whole c log = (talk : List Message) × Complete c talk × (log ≡ hello E H c ∷ talk)

  pub FinalIf-Final : (log : List Message) → FinalIf Unit (λ c. Unit) log → Final log
  FinalIf-Final log (inl w) = inl w
  FinalIf-Final log (inr (_, h)) = inr h

  pub FinalIf-Whole :
      (c : Child E) (log : List Message) → FinalIf ⊥ (λ c'. c' ≡ c) log → Whole c log
  FinalIf-Whole c log (inl (exec, c', talk, i, same, all, e)) =
      subst (λ x. Whole x log) same (talk, all, e)
  FinalIf-Whole c log (inr (a, h)) = absurd a

  -- The child of an `Exec` that comes is `B`.
  abbrev pub Bears : (Child E → Type 0) → Poll (Result (Option Exec)) → Type 0
  Bears B pending = Unit
  Bears B (ready (err e)) = Unit
  Bears B (ready (ok none)) = Unit
  Bears B (ready (ok (some exec))) = (c : Child E) → spawn E H exec ≡ ok c → B c

  abbrev pub Bearing : (Child E → Type 0) → Main E → Type 0
  Bearing B (expecting tx rx) = Bears B (shared_recv from_exec E.from_slice rx).0
  Bearing B m = Unit

  Bears-any : (r : Poll (Result (Option Exec))) → Bears (λ c. Unit) r
  Bears-any pending = tt
  Bears-any (ready (err e)) = tt
  Bears-any (ready (ok none)) = tt
  Bears-any (ready (ok (some exec))) = λ c e. tt

  pub Bearing-any : (m : Main E) → Bearing (λ c. Unit) m
  Bearing-any (expecting tx rx) = Bears-any (shared_recv from_exec E.from_slice rx).0
  Bearing-any (apologizing d tx) = tt
  Bearing-any (greeting lb d s) = tt
  Bearing-any (serving lb s) = tt
  Bearing-any (flushing d tx) = tt
  Bearing-any (closing c tx) = tt
  Bearing-any (gone w tx) = tt
  Bearing-any (aborted tx) = tt

  -- The results of tasks that are joined well.
  abbrev AllWell :
      Option (Result (Unit {0}))
      → Option (Result (Unit {0}))
      → Option (Result (Unit {0}))
      → Option (Result (Unit {0}))
      → Type 0
  AllWell a b c d =
      (a ≡ some (ok tt)) × (b ≡ some (ok tt)) × (c ≡ some (ok tt)) × (d ≡ some (ok tt))

  joined_results :
      (a b c d : Result (Unit {0}))
      → (a >>= λ _. b >>= λ _. c >>= λ _. d) ≡ ok tt
      → AllWell (some a) (some b) (some c) (some d)
  joined_results (ok _) (ok _) (ok _) (ok _) e = (refl, refl, refl, refl)
  joined_results (ok _) (ok _) (ok _) (err x) e = absurd (cc e)
  joined_results (ok _) (ok _) (err x) d e = absurd (cc e)
  joined_results (ok _) (err x) c d e = absurd (cc e)
  joined_results (err x) b c d e = absurd (cc e)

  joined_well :
      (a b c d : Option (Result (Unit {0}))) → joined E a b c d ≡ some (ok tt) → AllWell a b c d
  unfolding joined
  joined_well (some a) (some b) (some c) (some d) e = joined_results a b c d (cc e)
  joined_well none b c d e = absurd (cc e)
  joined_well (some a) none c d e = absurd (cc e)
  joined_well (some a) (some b) none d e = absurd (cc e)
  joined_well (some a) (some b) (some c) none e = absurd (cc e)

  module _ (D : Delivers E.writer) (F : SilentClosed E) where
    copied :
        (out : Bytes) (sent : List Stdio) (t : Copy)
        → copy_result t ≡ some (ok tt)
        → (name : _) → Copies E D F name out sent t
        → Full out sent
    copied out sent (Copy.ended (ok _)) e name h = h
    copied out sent (Copy.ended (err x)) e name h = absurd (cc e)
    copied out sent (Copy.selecting b p) e name h = absurd (cc e)
    copied out sent (Copy.passing p d) e name h = absurd (cc e)
    copied out sent (Copy.closing d) e name h = absurd (cc e)
    copied out sent Copy.aborted e name h = absurd (cc e)

    fed_all :
        (sent : List Stdio) (t : Feed E.Input)
        → feed_result t ≡ some (ok tt)
        → Feeds E D sent t
        → sent ≡ closed ∷ []
    fed_all sent (Feed.ended i (ok _)) e h = h
    fed_all sent (Feed.ended i (err x)) e h = absurd (cc e)
    fed_all sent (Feed.waiting i) e h = absurd (cc e)
    fed_all sent (Feed.writing i left) e h = absurd (cc e)
    fed_all sent (Feed.announcing i d) e h = absurd (cc e)
    fed_all sent Feed.aborted e h = absurd (cc e)

    watched :
        (begun : Process E.child) (sent : List ℤ) (t : Watch E.child)
        → watch_result E t ≡ some (ok tt)
        → Watches E D begun sent t
        → (status : ℤ) × StatusOf E.child begun.proc status × (sent ≡ status ∷ [])
    watched begun sent (Watch.ended (ok _)) e h = h
    watched begun sent (Watch.ended (err x)) e h = absurd (cc e)
    watched begun sent (Watch.watching w p) e h = absurd (cc e)
    watched begun sent (Watch.reporting p d) e h = absurd (cc e)
    watched begun sent Watch.aborted e h = absurd (cc e)

    -- A session whose tasks have all ended well has said everything.
    pub joined-Complete :
        (c : Child E) (base : Bytes) (log : List Message) (s : Session E)
        → IsSession E D F base (output c.output) (output c.errors) c.process log s
        → joined_session E s ≡ some (ok tt)
        → Complete c log
    unfolding joined_session
    joined-Complete c base log s v e =
        let (x, i, o, r) =
          joined_well (watch_result E s.exit_task) (feed_result s.stdin_task)
            (copy_result s.stdout_task) (copy_result s.stderr_task) e in
        (
          copied (output c.output) (on out_stream log) s.stdout_task o out_stream v.stdout_copies,
          copied (output c.errors) (on err_stream log) s.stderr_task r err_stream v.stderr_copies,
          fed_all (on in_stream log) s.stdin_task i v.stdin_feeds,
          watched c.process (exits log) s.exit_task x v.exit_watches,
        )
