-- ===== src/Agent/Tasks/Watching.antt =====
-- The task `exit`: what it sends.
use minimal_vm_tool.Prelude.{
  Bool, true, false, if◌then◌else◌, ◌≡◌, refl, ap, ◌∙◌, Option, none, some, List, [], ◌∷◌, ◌++◌,
  Bytes, ◌⊎◌, inl, inr,
}
use minimal_vm_tool.Prelude.Int.{ℤ}
use minimal_vm_tool.Outcome.{Result, ok, err, Poll, pending, ready}
use minimal_vm_tool.Protocol.{Message, exited, Kill}
use minimal_vm_tool.Io.Writer.{Delivers}
use minimal_vm_tool.Io.Rx.Recv.{SharedRx}
use minimal_vm_tool.Io.Tx.Handle.{Shared, DoSend, poll_do_send}
use minimal_vm_tool.Io.Tx.Handle.Single.{Taken}
use minimal_vm_tool.Agent.Process.{
  Os, Slot, running, finished, Process, Wait, locking, waiting, KillCall, waited, guarded,
  poll_wait, drop_wait,
}
use minimal_vm_tool.Agent.Tasks.{
  Env, Branch, works, receives, Watch, watching, reporting, after_send, watch_ended, watch_waited,
  watch_received, watch_reported, watch_turn,
}
use minimal_vm_tool.Agent.Tasks.Sending.{
  Wired, Outgoing, send_last-Outgoing, poll_do_send-Posts, Goes, after_send-Goes, after-Taken-Goes,
}

-- The exit statuses in a log.
abbrev pub exit_of : Message → List ℤ → List ℤ
exit_of (exited e) rest = e.status ∷ rest
exit_of _ rest = rest

abbrev pub exits : List Message → List ℤ
exits [] = []
exits (m ∷ log) = exit_of m (exits log)

abbrev pub report : ℤ → Message
report status = exited (record { status = status })

exit_of-append : (m : Message) (xs ys : List ℤ) → exit_of m (xs ++ ys) ≡ exit_of m xs ++ ys
exit_of-append (exited e) xs ys = refl
exit_of-append (Message.exec e) xs ys = refl
exit_of-append (Message.started e) xs ys = refl
exit_of-append (Message.stdin e) xs ys = refl
exit_of-append (Message.stdout e) xs ys = refl
exit_of-append (Message.stderr e) xs ys = refl
exit_of-append (Message.kill e) xs ys = refl
exit_of-append (Message.error e) xs ys = refl
exit_of-append Message.no_op xs ys = refl

pub exits-append : (log more : List Message) → exits (log ++ more) ≡ exits log ++ exits more
exits-append [] more = refl
exits-append (m ∷ log) more =
    ap (exit_of m) (exits-append log more) ∙ exit_of-append m (exits log) (exits more)

-- None, or one.
abbrev pub AtMostOne : List ℤ → Type 0
AtMostOne sent = (sent ≡ []) ⊎ ((status : ℤ) × (sent ≡ status ∷ []))

-- The exit statuses that a child may come to when it is waited for.
pub data Exits (V : Os) : V.Child → ℤ → Type 0 where
  exits_now : {c c' : V.Child} {z : ℤ} → V.child_wait c ≡ (ready (ok z), c') → Exits V c z
  exits_later :
      {c c' : V.Child} {z : ℤ} → V.child_wait c ≡ (pending, c') → Exits V c' z → Exits V c z

abbrev pub StatusOf : (V : Os) → Slot V → ℤ → Type 0
StatusOf V (running c) z = Exits V c z
StatusOf V (finished r) z = r ≡ ok z

-- For a process that was `begun` so.
module _ (E : Env) (D : Delivers E.writer) (begun : Process E.child) where
  -- What the process may yet come to, it could from the beginning.
  abbrev pub Upholds : Slot E.child → Type 0
  Upholds slot = (z : ℤ) → StatusOf E.child slot z → StatusOf E.child begun.proc z

  abbrev WaitUpholds : Poll (Result ℤ) × (Wait × Process E.child) → Type 0
  WaitUpholds (pending, (w, p)) = Upholds p.proc
  WaitUpholds (ready (ok z), (w, p)) = StatusOf E.child begun.proc z
  WaitUpholds (ready (err e), (w, p)) = Unit

  waited-Upholds :
      (p : Process E.child) (c : E.child.Child) (o : Poll (Result ℤ) × E.child.Child)
      → E.child.child_wait c ≡ o
      → Upholds (running c)
      → WaitUpholds (waited E.child p o)
  unfolding waited
  waited-Upholds p c (pending, c') e h = λ z x. h z (exits_later e x)
  waited-Upholds p c (ready (ok z), c') e h = h z (exits_now e)
  waited-Upholds p c (ready (err x), c') e h = tt

  guarded-Upholds :
      (p : Process E.child) (slot : Slot E.child)
      → Upholds slot
      → WaitUpholds (guarded E.child p slot)
  unfolding guarded
  guarded-Upholds p (running c) h = waited-Upholds p c (E.child.child_wait c) refl h
  guarded-Upholds p (finished (ok z)) h = h z refl
  guarded-Upholds p (finished (err e)) h = tt

  locked-Upholds :
      (held : Bool) (p : Process E.child) (o : Poll (Result ℤ) × (Wait × Process E.child))
      → Upholds p.proc
      → WaitUpholds o
      → WaitUpholds (if held then (pending, (locking, p)) else o)
  locked-Upholds true p o h k = h
  locked-Upholds false p o h k = k

  poll_wait-Upholds :
      (w : Wait) (p : Process E.child) → Upholds p.proc → WaitUpholds (poll_wait E.child w p)
  unfolding poll_wait
  poll_wait-Upholds waiting p h = guarded-Upholds p p.proc h
  poll_wait-Upholds locking p h =
      locked-Upholds p.held p (guarded E.child p p.proc) h (guarded-Upholds p p.proc h)

  drop_wait-Upholds :
      (w : Wait) (p : Process E.child) → Upholds p.proc → Upholds (drop_wait E.child w p).proc
  unfolding drop_wait
  drop_wait-Upholds locking p h = h
  drop_wait-Upholds waiting p h = h

  -- What the task has sent, by where it is.
  abbrev pub Watches : List ℤ → Watch E.child → Type 0
  Watches sent (watching w p) = (sent ≡ []) × Upholds p.proc
  Watches sent (reporting p d) =
      (status : ℤ) × StatusOf E.child begun.proc status
      × (((sent ≡ []) × Outgoing E D (report status) d) ⊎ ((sent ≡ status ∷ []) × Taken d.msgs))
  Watches sent (Watch.ended (ok _)) =
      (status : ℤ) × StatusOf E.child begun.proc status × (sent ≡ status ∷ [])
  Watches sent (Watch.ended (err e)) = AtMostOne sent
  Watches sent Watch.aborted = ⊥

  abbrev pub WatchesOf : List Message → Watch E.child → Type 0
  WatchesOf log t = Watches (exits log) t

  pub Watches-AtMostOne : (sent : List ℤ) (t : Watch E.child) → Watches sent t → AtMostOne sent
  Watches-AtMostOne sent (watching w p) h = inl h.0
  Watches-AtMostOne sent (reporting p d) (s, z, inl (h, i)) = inl h
  Watches-AtMostOne sent (reporting p d) (s, z, inr (h, i)) = inr (s, h)
  Watches-AtMostOne sent (Watch.ended (ok _)) (s, z, h) = inr (s, h)
  Watches-AtMostOne sent (Watch.ended (err e)) h = h
  Watches-AtMostOne sent Watch.aborted h = absurd h

  watch_waited-Watches :
      (sent : List ℤ) (q : Poll (Result ℤ) × (Wait × Process E.child))
      → sent ≡ []
      → WaitUpholds q
      → Watches sent (watch_waited E q).0
  unfolding watch_waited watch_ended
  watch_waited-Watches sent (pending, (w, p)) h k = (h, k)
  watch_waited-Watches sent (ready (err e), (w, p)) h k = inl h
  watch_waited-Watches sent (ready (ok s), (w, p)) h k =
      (s, k, inl (h, send_last-Outgoing E D (report s)))

  watch_received-Watches :
      (sent : List ℤ) (w : Wait) (p : Process E.child) (r : Poll (Result (Option Kill)))
      → sent ≡ []
      → Upholds p.proc
      → Watches sent (watch_received E w p r).0
  unfolding watch_received watch_ended
  watch_received-Watches sent w p pending h k = (h, k)
  watch_received-Watches sent w p (ready (err e)) h k = inl h
  watch_received-Watches sent w p (ready (ok none)) h k = (h, drop_wait-Upholds w p k)
  watch_received-Watches sent w p (ready (ok (some m))) h k = (h, drop_wait-Upholds w p k)

  watch_ended-Watches :
      (log : List Message) (s : ℤ) (r : Result (Unit {0}))
      → StatusOf E.child begun.proc s
      → exits log ≡ s ∷ []
      → WatchesOf log (Watch.ended r)
  watch_ended-Watches log s (ok _) z h = (s, z, h)
  watch_ended-Watches log s (err e) z h = inr (s, h)

  -- A turn keeps this, and extends the log by at most an exit status.
  abbrev pub Moves :
      Bytes → List Message → (Watch E.child × List KillCall) × (Shared E.writer × SharedRx) → Type 0
  Moves base log ((t, calls), (tx, rx)) =
      (log' : List Message) × Wired E D base log' tx
      × WatchesOf log' t
      × ((log' ≡ log) ⊎ ((status : ℤ) × (log' ≡ log ++ report status ∷ [])))

  watch_reported-Watches :
      (p : Process E.child) (log : List Message) (t : Watch E.child)
      → WatchesOf log t
      → WatchesOf log (watch_reported E p t).0
  unfolding watch_reported watch_ended
  watch_reported-Watches p log (Watch.ended r) h = h
  watch_reported-Watches p log (watching w q) h = h
  watch_reported-Watches p log (reporting q d) h = h
  watch_reported-Watches p log Watch.aborted h = h

  Moves-of_Goes :
      (p : Process E.child) (base : Bytes) (log : List Message) (s : ℤ) (rx : SharedRx)
      (q : Watch E.child × Shared E.writer)
      → Goes E D WatchesOf base log (report s) q
      → Moves base log (watch_reported E p q.0, (q.1, rx))
  Moves-of_Goes p base log s rx (t, tx) (log', w, c, inl e) =
      (log', w, watch_reported-Watches p log' t c, inl e)
  Moves-of_Goes p base log s rx (t, tx) (log', w, c, inr e) =
      (log', w, watch_reported-Watches p log' t c, inr (s, e))

  reporting-Moves :
      (p : Process E.child) (d : DoSend) (base : Bytes) (log : List Message) (tx : Shared E.writer)
      (rx : SharedRx)
      → Wired E D base log tx
      → WatchesOf log (reporting p d)
      → Moves base log (watch_turn E works (reporting p d) tx rx)
  unfolding watch_turn
  reporting-Moves p d base log tx rx w (s, z, inl (h, i)) =
      let more = exits-append log (report s ∷ []) ∙ ap (λ x. x ++ s ∷ []) h in
      Moves-of_Goes p base log s rx
        (after_send (poll_do_send E.writer d tx) tx Watch.aborted (reporting p) Watch.ended)
        (after_send-Goes E D WatchesOf base log (report s) tx Watch.aborted (reporting p)
          Watch.ended (poll_do_send E.writer d tx)
          (poll_do_send-Posts E D base log (report s) tx d w i) (λ d' i'. (s, z, inl (h, i')))
          (λ d' t. (s, z, inr (more, t))) (λ e. inl h)
          (λ r. watch_ended-Watches (log ++ report s ∷ []) s r z more))
  reporting-Moves p d base log tx rx w (s, z, inr (h, t)) =
      Moves-of_Goes p base log s rx
        (after_send (poll_do_send E.writer d tx) tx Watch.aborted (reporting p) Watch.ended)
        (after-Taken-Goes E D WatchesOf base log (report s) tx Watch.aborted (reporting p)
          Watch.ended d w t (λ d' t'. (s, z, inr (h, t'))) (λ r. watch_ended-Watches log s r z h))

  pub watch_turn-Moves :
      (branch : Branch) (t : Watch E.child) (base : Bytes) (log : List Message)
      (tx : Shared E.writer) (rx : SharedRx)
      → Wired E D base log tx
      → WatchesOf log t
      → Moves base log (watch_turn E branch t tx rx)
  unfolding watch_turn
  watch_turn-Moves works (watching w p) base log tx rx wired (h, k) = (
    log,
    wired,
    watch_waited-Watches (exits log) (poll_wait E.child w p) h (poll_wait-Upholds w p k),
    inl refl,
  )
  watch_turn-Moves receives (watching w p) base log tx rx wired (h, k) =
      (log, wired, watch_received-Watches (exits log) w p _ h k, inl refl)
  watch_turn-Moves branch (reporting p d) base log tx rx wired h =
      reporting-Moves p d base log tx rx wired h
  watch_turn-Moves branch (Watch.ended r) base log tx rx wired h = (log, wired, h, inl refl)
  watch_turn-Moves branch Watch.aborted base log tx rx wired h = absurd h
