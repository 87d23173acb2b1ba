-- ===== src/Agent/Main/Tells.antt =====
-- What `main` keeps: its conversation is whole, or ends with an `Error`, once it is over.
use minimal_vm_tool.Prelude.{
  ◌⊎◌, ◌≡◌, refl, ◌∙◌, Option, none, some, List, [], ◌∷◌, ◌++◌, Bytes, Bool, inl, inr,
}
use minimal_vm_tool.Outcome.{Error, plain, Result, ok, err, Poll, pending, ready}
use minimal_vm_tool.Protocol.{Message, Exec}
use minimal_vm_tool.Io.Rx.Recv.{SharedRx}
use minimal_vm_tool.Io.Tx.{Sending}
use minimal_vm_tool.Io.Tx.Output.{frame}
use minimal_vm_tool.Io.Tx.Handle.{Shared, DoSend, flush_all, CloseState}
use minimal_vm_tool.Io.Tx.Handle.Delivery.{frames}
use minimal_vm_tool.Io.Tx.Handle.Closed.{Closes, ClosePoll}
use minimal_vm_tool.Io.Tx.Handle.Prepare.{serialized}
use minimal_vm_tool.Io.Tx.Handle.Single.{Taken, Rests}
use minimal_vm_tool.Agent.Chunks.Pieces.{output}
use minimal_vm_tool.Agent.Tasks.{Env, Sent}
use minimal_vm_tool.Agent.Tasks.Sending.{Outgoing, Wired, send_one-Outgoing, Posts}
use minimal_vm_tool.Agent.Session.{Session, start}
use minimal_vm_tool.Agent.Session.Steps.{Spoken}
use minimal_vm_tool.Agent.Prompt.{Prompts}
use minimal_vm_tool.Agent.Main.{
  Child, Host, Main, expecting, greeting, serving, apologizing, flushing, closing, gone, aborted,
  joined_session, concluded, spawn, spawned, expected, greeted, served, greeting_polled,
  apologizing_polled, flushing_polled, closing_polled,
}
use minimal_vm_tool.Agent.Main.Story.{
  IsChildOf, hello, sorry, Story, silent, opened, Says, IsMain, Wired-cons,
}
use minimal_vm_tool.Agent.Main.Turns.{quiet, session_Talks, begins_again, starts}
use minimal_vm_tool.Agent.Tasks.Copying.{SilentClosed}
use minimal_vm_tool.Agent.Main.Whole.{Bears, Apologizing, FinalIf, joined-Complete}
use minimal_vm_tool.Agent.Prompt.Loaded.{msgs-send_one}

module _ (E : Env) (H : Host E) (Q : Prompts E) (F : SilentClosed E) (A : Type 0)
    (B : Child E → Type 0)
    (says : A → (e : Error) → (b : Bytes) × (E.to_vec (sorry E H e) ≡ ok b)) where
  -- The invariant of `main`, by where it is: a conversation that is over is final.
  abbrev pub Tells : Main E → Type 0
  Tells (expecting tx rx) = IsMain E H Q.delivers F (expecting tx rx)
  Tells (greeting lb d s) =
      (exec : Exec) × (c : Child E) × IsChildOf E H exec c
      × B c
      × ((tx : Shared E.writer) × (rx : SharedRx) × (s
            ≡ start E tx rx c.input c.output c.errors c.process))
      × ((Outgoing E Q.delivers (hello E H c) d × Wired E Q.delivers [] [] s.tx)
          ⊎ (Taken d.msgs × Wired E Q.delivers [] (hello E H c ∷ []) s.tx))
  Tells (serving lb s) =
      (exec : Exec) × (c : Child E) × IsChildOf E H exec c
      × B c
      × (b : Bytes) × (E.to_vec (hello E H c) ≡ ok b)
      × Spoken E Q.delivers F (frame (some b)) (output c.output) (output c.errors) c.process s
  Tells (apologizing d tx) =
      A
      × (before : List Message) × (e : Error) × Story E H before
      × ((b : Bytes) × (E.to_vec (sorry E H e) ≡ ok b) × (d.msgs ≡ ok (some b ∷ [])))
      × Wired E Q.delivers [] before tx
  Tells (flushing d tx) = Taken d.msgs × Says E H Q.delivers F (FinalIf E H A B) tx
  Tells (closing c tx) =
      (log : List Message) × (ss : List Sending) × FinalIf E H A B log
      × (serialized E.to_vec E.describe log ≡ ok ss)
      × Closes E.writer Q.delivers (frames ss) c tx
  Tells (gone (some w) tx) =
      (log : List Message) × (ss : List Sending) × FinalIf E H A B log
      × (serialized E.to_vec E.describe log ≡ ok ss)
      × (Q.delivers.delivered w ≡ frames ss)
  Tells (gone none tx) = Unit
  Tells (aborted tx) = ⊥

  apologizes :
      (before : List Message) (e : Error) (tx : Shared E.writer)
      → Story E H before
      → Wired E Q.delivers [] before tx
      → (Apologizing E (concluded E H (err e) tx) → A)
      → Tells (concluded E H (err e) tx)
  unfolding concluded
  apologizes before e tx t w a =
      let (b, h) = says (a tt) e in
      (a tt, before, e, t, (b, h, msgs-send_one E (sorry E H e) b h), w)

  spawned-Tells :
      (exec : Exec) (tx : Shared E.writer) (rx : SharedRx) (r : Result (Child E))
      → spawn E H exec ≡ r
      → Wired E Q.delivers [] [] tx
      → (Apologizing E (spawned E H exec tx rx r) → A)
      → ((c : Child E) → r ≡ ok c → B c)
      → Tells (spawned E H exec tx rx r)
  unfolding spawned start
  spawned-Tells exec tx rx (err e) h w a u =
      apologizes [] (plain (E.format_debug "Failed to spawn child" e)) tx silent w a
  spawned-Tells exec tx rx (ok c) h w a u =
      (exec, c, h, u c refl, (tx, rx, refl), inl (send_one-Outgoing E Q.delivers (hello E H c), w))

  pub expected-Tells :
      (tx : Shared E.writer) (rx : SharedRx) (r : Poll (Result (Option Exec)))
      → Wired E Q.delivers [] [] tx
      → (Apologizing E (expected E H tx rx r) → A)
      → Bears E H B r
      → Tells (expected E H tx rx r)
  unfolding expected
  expected-Tells tx rx pending w a u = w
  expected-Tells tx rx (ready (err e)) w a u = apologizes [] e tx silent w a
  expected-Tells tx rx (ready (ok none)) w a u =
      apologizes [] (plain "Connection closed") tx silent w a
  expected-Tells tx rx (ready (ok (some exec))) w a u =
      spawned-Tells exec tx rx (spawn E H exec) refl w a u

  greeting_ends :
      (lb : Bool) (exec : Exec) (c : Child E) (s : Session E) (tx : Shared E.writer)
      (r : Result (Unit {0}))
      → IsChildOf E H exec c
      → ((tx₀ : Shared E.writer) × (rx : SharedRx) × (s
            ≡ start E tx₀ rx c.input c.output c.errors c.process))
      → Wired E Q.delivers [] (hello E H c ∷ []) tx
      → B c
      → (Apologizing E (greeted E H lb s tx r) → A)
      → Tells (greeted E H lb s tx r)
  unfolding greeted
  greeting_ends lb exec c s tx (ok _) h st w k a =
      let (b, to, spoken) = starts E H Q.delivers F c s tx st w in (exec, c, h, k, b, to, spoken)
  greeting_ends lb exec c s tx (err e) h st w k a =
      apologizes (hello E H c ∷ []) e tx (opened exec c [] h (quiet E H Q.delivers F c)) w a

  pub greeting_polled-Tells :
      (lb : Bool) (exec : Exec) (c : Child E) (s : Session E) (o : Sent E.writer)
      → IsChildOf E H exec c
      → ((tx : Shared E.writer) × (rx : SharedRx) × (s
            ≡ start E tx rx c.input c.output c.errors c.process))
      → Posts E Q.delivers [] [] (hello E H c) o
      → B c
      → (Apologizing E (greeting_polled E H lb s o) → A)
      → Tells (greeting_polled E H lb s o)
  unfolding greeting_polled greeted
  greeting_polled-Tells lb exec c s none h st p k a = p
  greeting_polled-Tells lb exec c s (some (pending, (tx, d))) h st (inl (w, i, u)) k a =
      (exec, c, h, k, begins_again E H Q.delivers F c s tx st, inl (i, w))
  greeting_polled-Tells lb exec c s (some (pending, (tx, d))) h st (inr (w, t)) k a =
      (exec, c, h, k, begins_again E H Q.delivers F c s tx st, inr (t, w))
  greeting_polled-Tells lb exec c s (some (ready (err e), (tx, d))) h st (inl (w, i, u)) k a =
      apologizes [] e tx silent w a
  greeting_polled-Tells lb exec c s (some (ready (ok _), (tx, d))) h st (inl (w, i, u)) k a =
      absurd u
  greeting_polled-Tells lb exec c s (some (ready r, (tx, d))) h st (inr (w, t)) k a =
      greeting_ends lb exec c s tx r h st w k a

  pub served-Tells :
      (lb : Bool) (exec : Exec) (c : Child E) (b : Bytes) (s : Session E)
      (r : Option (Result (Unit {0})))
      → joined_session E s ≡ r
      → IsChildOf E H exec c
      → B c
      → E.to_vec (hello E H c) ≡ ok b
      → Spoken E Q.delivers F (frame (some b)) (output c.output) (output c.errors) c.process s
      → (Apologizing E (served E H lb s r) → A)
      → Tells (served E H lb s r)
  unfolding served concluded flush_all
  served-Tells lb exec c b s none j h k e v a = (exec, c, h, k, b, e, v)
  served-Tells lb exec c b s (some (ok _)) j h k e (log, v) a = (
    inr refl,
    (
      hello E H c ∷ log,
      inl (exec, c, log, h, k, joined-Complete E H Q.delivers F c (frame (some b)) log s v j, refl),
      Wired-cons E H Q.delivers F (hello E H c) b log s.tx e v.wired,
    ),
  )
  served-Tells lb exec c b s (some (err x)) j h k e (log, v) a =
      apologizes (hello E H c ∷ log) x s.tx
        (opened exec c log h (session_Talks E H Q.delivers F c (frame (some b)) log s v))
        (Wired-cons E H Q.delivers F (hello E H c) b log s.tx e v.wired) a

  -- The `Error` goes through at the first poll.
  pub apologized-Tells :
      (before : List Message) (e : Error) (tx : Shared E.writer) (o : Sent E.writer)
      → Story E H before
      → Posts E Q.delivers [] before (sorry E H e) o
      → ((s : Shared E.writer × DoSend) × (o ≡ some (ready (ok tt), s)))
      → A
      → Tells (apologizing_polled E H tx o)
  unfolding apologizing_polled flush_all
  apologized-Tells before e tx none t p (s, h) a = absurd p
  apologized-Tells before e tx (some (pending, (tx', d))) t p (s, h) a = absurd (cc h)
  apologized-Tells before e tx (some (ready (err x), (tx', d))) t p (s, h) a = absurd (cc h)
  apologized-Tells before e tx (some (ready (ok _), (tx', d))) t (inl (w, i, u)) h a = absurd u
  apologized-Tells before e tx (some (ready (ok _), (tx', d))) t (inr (w, k)) h a =
      (inr refl, (before ++ sorry E H e ∷ [], inr (a, (before, e, t, refl)), w))

  pub flushed-Tells :
      (tx : Shared E.writer) (o : Sent E.writer)
      → Says E H Q.delivers F (FinalIf E H A B) tx
      → Rests E.writer Q.delivers tx o
      → Tells (flushing_polled E H tx o)
  unfolding flushing_polled
  flushed-Tells tx none v h = h
  flushed-Tells tx (some (pending, (tx', d))) (log, t, (ss, e, o)) (k, same) =
      (k, (log, t, (ss, e, same ∙ o)))
  flushed-Tells tx (some (ready r, (tx', d))) (log, t, (ss, e, o)) (k, same) =
      (log, ss, t, e, same ∙ o)

  pub closed-Tells :
      (log : List Message) (ss : List Sending)
      (q : Poll (Result (E.writer.Conn)) × (CloseState E.writer × Shared E.writer))
      → FinalIf E H A B log
      → serialized E.to_vec E.describe log ≡ ok ss
      → ClosePoll E.writer Q.delivers (frames ss) q
      → Tells (closing_polled E H q)
  unfolding closing_polled
  closed-Tells log ss (pending, (c, tx)) t e h = (log, ss, t, e, h)
  closed-Tells log ss (ready (ok w), (c, tx)) t e h = (log, ss, t, e, h.0)
  closed-Tells log ss (ready (err x), (c, tx)) t e h = tt
