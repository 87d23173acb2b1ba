-- ===== src/Agent/Tasks/Feeding.antt =====
-- The task `stdin`: what it sends.
use minimal_vm_tool.Prelude.{
  ◌≡◌, refl, ap, ◌∙◌, Option, none, some, List, [], ◌∷◌, ◌++◌, Bytes, ◌⊎◌, inl, inr,
}
use minimal_vm_tool.Outcome.{Result, ok, err, Poll, pending, ready}
use minimal_vm_tool.Protocol.{Message, Stdio, closed, in_stream, stdin}
use minimal_vm_tool.Io.Writer.{Delivers}
use minimal_vm_tool.Io.Rx.Recv.{SharedRx}
use minimal_vm_tool.Io.Tx.Handle.{Shared, DoSend, poll_do_send}
use minimal_vm_tool.Io.Tx.Handle.Single.{Taken}
use minimal_vm_tool.Agent.Tasks.{
  Env, Feed, waiting, writing, announcing, after_send, feed_received, feed_written, feed_turn,
}
use minimal_vm_tool.Agent.Tasks.Sending.{
  on, on-append_own, Wired, Outgoing, send_last-Outgoing, poll_do_send-Posts, Goes, after_send-Goes,
  after-Taken-Goes,
}

-- Nothing, or that the stream is closed.
abbrev pub AtMostClosed : List Stdio → Type 0
AtMostClosed sent = (sent ≡ []) ⊎ (sent ≡ closed ∷ [])

module _ (E : Env) (D : Delivers E.writer) where
  -- What the task has sent, by where it is.
  abbrev pub Feeds : List Stdio → Feed E.Input → Type 0
  Feeds sent (waiting i) = sent ≡ []
  Feeds sent (writing i left) = sent ≡ []
  Feeds sent (announcing i d) =
      ((sent ≡ []) × Outgoing E D (stdin closed) d) ⊎ ((sent ≡ closed ∷ []) × Taken d.msgs)
  Feeds sent (Feed.ended i (ok _)) = sent ≡ closed ∷ []
  Feeds sent (Feed.ended i (err e)) = AtMostClosed sent
  Feeds sent Feed.aborted = ⊥

  abbrev pub FeedsOf : List Message → Feed E.Input → Type 0
  FeedsOf log t = Feeds (on in_stream log) t

  pub Feeds-AtMostClosed : (sent : List Stdio) (t : Feed E.Input) → Feeds sent t → AtMostClosed sent
  Feeds-AtMostClosed sent (waiting i) h = inl h
  Feeds-AtMostClosed sent (writing i left) h = inl h
  Feeds-AtMostClosed sent (announcing i d) (inl (h, x)) = inl h
  Feeds-AtMostClosed sent (announcing i d) (inr (h, x)) = inr h
  Feeds-AtMostClosed sent (Feed.ended i (ok _)) h = inr h
  Feeds-AtMostClosed sent (Feed.ended i (err e)) h = h
  Feeds-AtMostClosed sent Feed.aborted h = absurd h

  feed_received-Feeds :
      (sent : List Stdio) (i : E.Input) (r : Poll (Result (Option (Option Bytes))))
      → sent ≡ []
      → Feeds sent (feed_received E i r)
  unfolding feed_received
  feed_received-Feeds sent i pending h = h
  feed_received-Feeds sent i (ready (err e)) h = inl h
  feed_received-Feeds sent i (ready (ok none)) h = inl (h, send_last-Outgoing E D (stdin closed))
  feed_received-Feeds sent i (ready (ok (some none))) h =
      inl (h, send_last-Outgoing E D (stdin closed))
  feed_received-Feeds sent i (ready (ok (some (some bytes)))) h = h

  feed_written-Feeds :
      (sent : List Stdio) (q : Poll (Result (Unit {0})) × (E.Input × Bytes))
      → sent ≡ []
      → Feeds sent (feed_written E q)
  unfolding feed_written
  feed_written-Feeds sent (pending, (i, left)) h = h
  feed_written-Feeds sent (ready (err e), (i, left)) h = inl h
  feed_written-Feeds sent (ready (ok _), (i, left)) h = h

  feed_ended :
      (i : E.Input) (log : List Message) (r : Result (Unit {0}))
      → on in_stream log ≡ closed ∷ []
      → FeedsOf log (Feed.ended i r)
  feed_ended i log (ok _) h = h
  feed_ended i log (err e) h = inr h

  -- A turn keeps this, and extends the log by at most a message of the stream.
  abbrev pub Moves : Bytes → List Message → Feed E.Input × (Shared E.writer × SharedRx) → Type 0
  Moves base log (t, (tx, rx)) =
      (log' : List Message) × Wired E D base log' tx
      × FeedsOf log' t
      × ((log' ≡ log) ⊎ (log' ≡ log ++ stdin closed ∷ []))

  Moves-of_Goes :
      (base : Bytes) (log : List Message) (rx : SharedRx) (q : Feed E.Input × Shared E.writer)
      → Goes E D FeedsOf base log (stdin closed) q
      → Moves base log (q.0, (q.1, rx))
  Moves-of_Goes base log rx (t, tx) h = h

  announcing-Moves :
      (i : E.Input) (d : DoSend) (base : Bytes) (log : List Message) (tx : Shared E.writer)
      (rx : SharedRx)
      → Wired E D base log tx
      → FeedsOf log (announcing i d)
      → Moves base log (feed_turn E (announcing i d) tx rx)
  unfolding feed_turn
  announcing-Moves i d base log tx rx w (inl (h, x)) =
      let more = on-append_own in_stream log closed ∙ ap (λ x. x ++ closed ∷ []) h in
      Moves-of_Goes base log rx
        (after_send (poll_do_send E.writer d tx) tx Feed.aborted (announcing i) (Feed.ended i))
        (after_send-Goes E D FeedsOf base log (stdin closed) tx Feed.aborted (announcing i)
          (Feed.ended i) (poll_do_send E.writer d tx)
          (poll_do_send-Posts E D base log (stdin closed) tx d w x) (λ d' x'. inl (h, x'))
          (λ d' t. inr (more, t)) (λ e. inl h)
          (λ r. feed_ended i (log ++ stdin closed ∷ []) r more))
  announcing-Moves i d base log tx rx w (inr (h, t)) =
      Moves-of_Goes base log rx
        (after_send (poll_do_send E.writer d tx) tx Feed.aborted (announcing i) (Feed.ended i))
        (after-Taken-Goes E D FeedsOf base log (stdin closed) tx Feed.aborted (announcing i)
          (Feed.ended i) d w t (λ d' t'. inr (h, t')) (λ r. feed_ended i log r h))

  pub feed_turn-Moves :
      (t : Feed E.Input) (base : Bytes) (log : List Message) (tx : Shared E.writer) (rx : SharedRx)
      → Wired E D base log tx
      → FeedsOf log t
      → Moves base log (feed_turn E t tx rx)
  unfolding feed_turn
  feed_turn-Moves (waiting i) base log tx rx w h =
      (log, w, feed_received-Feeds (on in_stream log) i _ h, inl refl)
  feed_turn-Moves (writing i left) base log tx rx w h =
      (log, w, feed_written-Feeds (on in_stream log) (E.write_all i left) h, inl refl)
  feed_turn-Moves (announcing i d) base log tx rx w h = announcing-Moves i d base log tx rx w h
  feed_turn-Moves (Feed.ended i r) base log tx rx w h = (log, w, h, inl refl)
  feed_turn-Moves Feed.aborted base log tx rx w h = absurd h
