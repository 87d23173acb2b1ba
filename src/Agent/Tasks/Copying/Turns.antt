-- ===== src/Agent/Tasks/Copying/Turns.antt =====
-- The turns of the tasks `stdout` and `stderr`: each keeps what they have sent, and extends the log.
use minimal_vm_tool.Prelude.{
  ◌≡◌, refl, ap, ◌∙◌, sym, subst, List, [], ◌∷◌, ◌++◌, Bytes, ◌⊎◌, inl, inr, Bool, true, false, map,
}
use minimal_vm_tool.Outcome.{Result, ok, err}
use minimal_vm_tool.Protocol.{Message, Stdio, data_of, closed, Stream}
use minimal_vm_tool.Io.Writer.{Delivers}
use minimal_vm_tool.Io.Rx.Recv.{SharedRx}
use minimal_vm_tool.Io.Tx.Handle.{Shared, DoSend, poll_do_send}
use minimal_vm_tool.Io.Tx.Handle.Single.{Taken}
use minimal_vm_tool.Agent.Chunks.{Pipe, read_line_or_chunk}
use minimal_vm_tool.Agent.Chunks.Pieces.{output, read_line_or_chunk-Cuts}
use minimal_vm_tool.Agent.Tasks.{
  Env, on_stream, Branch, works, receives, Copy, selecting, passing, closing, aborted, copy_passed,
  copy_turn, after_send,
}
use minimal_vm_tool.Agent.Tasks.Sending.{
  on, on-append_own, Wired, Outgoing, poll_do_send-Posts, Goes, after_send-Goes, after-Taken-Goes,
}
use minimal_vm_tool.Agent.Tasks.Copying.{
  SilentClosed, joined_bytes, map-append, Relayed, so_far, in_full, Loses, Copies, Copies-Relayed,
  Relayed-all, read-Loses, copy_read-Copies, copy_received-Copies,
}

module _ (E : Env) (D : Delivers E.writer) (F : SilentClosed E) (name : Stream) (out : Bytes) where
  -- The invariant over the log, of which the stream's messages are `sent`.
  abbrev pub CopiesOf : List Message → Copy → Type 0
  CopiesOf log t = Copies E D F name out (on name log) t

  -- A turn keeps it, and extends the log by at most a message of the stream.
  abbrev pub Moves : Bytes → List Message → Copy × (Shared E.writer × SharedRx) → Type 0
  Moves base log (t, (tx, rx)) =
      (log' : List Message) × Wired E D base log' tx
      × CopiesOf log' t
      × ((log' ≡ log) ⊎ ((s : Stdio) × (log' ≡ log ++ on_stream name s ∷ [])))

  Moves-of_Goes :
      (base : Bytes) (log : List Message) (s : Stdio) (rx : SharedRx) (q : Copy × Shared E.writer)
      → Goes E D CopiesOf base log (on_stream name s) q
      → Moves base log (q.0, (q.1, rx))
  Moves-of_Goes base log s rx (t, tx) (log', w, c, inl e) = (log', w, c, inl e)
  Moves-of_Goes base log s rx (t, tx) (log', w, c, inr e) = (log', w, c, inr (s, e))

  passed :
      (p : Pipe) (ds : List Bytes) (c lost : Bytes) (log : List Message) (r : Result (Unit {0}))
      → joined_bytes (ds ++ c ∷ []) ++ (output p ++ lost) ≡ out
      → Loses E D F name out p lost
      → on name log ≡ map data_of (ds ++ c ∷ [])
      → CopiesOf log (copy_passed E p r)
  unfolding copy_passed
  passed p ds c lost log (ok _) j l h = (ds ++ c ∷ [], lost, h, j, l)
  passed p ds c lost log (err e) j l h =
      subst (Relayed out) (sym h) (so_far (ds ++ c ∷ []) (output p ++ lost) j)

  -- The log with another message of the stream.
  one_more :
      (log : List Message) (ds : List Bytes) (s : Stdio)
      → on name log ≡ map data_of ds
      → on name (log ++ on_stream name s ∷ []) ≡ map data_of ds ++ s ∷ []
  one_more log ds s h = on-append_own name log s ∙ ap (λ x. x ++ s ∷ []) h

  passing_posts :
      (p : Pipe) (d : DoSend) (ds : List Bytes) (c lost : Bytes) (base : Bytes) (log : List Message)
      (tx : Shared E.writer) (rx : SharedRx)
      → Wired E D base log tx
      → joined_bytes (ds ++ c ∷ []) ++ (output p ++ lost) ≡ out
      → Loses E D F name out p lost
      → on name log ≡ map data_of ds
      → Outgoing E D (on_stream name (data_of c)) d
      → Moves base log (copy_turn E name true works (passing p d) tx rx)
  unfolding copy_turn copy_passed
  passing_posts p d ds c lost base log tx rx w j l h i =
      let m = on_stream name (data_of c) in
      let more : on name (log ++ m ∷ []) ≡ map data_of (ds ++ c ∷ []) =
        one_more log ds (data_of c) h ∙ sym (map-append ds c) in
      Moves-of_Goes base log (data_of c) rx
        (after_send (poll_do_send E.writer d tx) tx Copy.aborted (passing p) (copy_passed E p))
        (after_send-Goes E D CopiesOf base log m tx Copy.aborted (passing p) (copy_passed E p)
          (poll_do_send E.writer d tx) (poll_do_send-Posts E D base log m tx d w i)
          (λ d' i'. (ds, c, lost, j, l, inl (h, i'))) (λ d' t. (ds, c, lost, j, l, inr (more, t)))
          (λ e.
            Copies-Relayed E D F name out (on name log) (passing p d)
              (ds, c, lost, j, l, inl (h, i)))
          (λ r. passed p ds c lost (log ++ m ∷ []) r j l more))

  passing_rests :
      (p : Pipe) (d : DoSend) (ds : List Bytes) (c lost : Bytes) (base : Bytes) (log : List Message)
      (tx : Shared E.writer) (rx : SharedRx)
      → Wired E D base log tx
      → joined_bytes (ds ++ c ∷ []) ++ (output p ++ lost) ≡ out
      → Loses E D F name out p lost
      → on name log ≡ map data_of (ds ++ c ∷ [])
      → Taken d.msgs
      → Moves base log (copy_turn E name true works (passing p d) tx rx)
  unfolding copy_turn copy_passed
  passing_rests p d ds c lost base log tx rx w j l h t =
      Moves-of_Goes base log (data_of c) rx
        (after_send (poll_do_send E.writer d tx) tx Copy.aborted (passing p) (copy_passed E p))
        (after-Taken-Goes E D CopiesOf base log (on_stream name (data_of c)) tx Copy.aborted
          (passing p) (copy_passed E p) d w t (λ d' t'. (ds, c, lost, j, l, inr (h, t')))
          (λ r. passed p ds c lost log r j l h))

  closed_well :
      (ds : List Bytes) (log : List Message) (r : Result (Unit {0}))
      → joined_bytes ds ≡ out
      → on name log ≡ map data_of ds ++ closed ∷ []
      → CopiesOf log (Copy.ended r)
  closed_well ds log (ok _) j h = (ds, j, h)
  closed_well ds log (err e) j h = subst (Relayed out) (sym h) (in_full ds j)

  closing_posts :
      (d : DoSend) (ds : List Bytes) (base : Bytes) (log : List Message) (tx : Shared E.writer)
      (rx : SharedRx)
      → Wired E D base log tx
      → joined_bytes ds ≡ out
      → on name log ≡ map data_of ds
      → Outgoing E D (on_stream name closed) d
      → Moves base log (copy_turn E name true works (closing d) tx rx)
  unfolding copy_turn
  closing_posts d ds base log tx rx w j h i =
      let m = on_stream name closed in
      Moves-of_Goes base log closed rx
        (after_send (poll_do_send E.writer d tx) tx Copy.aborted closing Copy.ended)
        (after_send-Goes E D CopiesOf base log m tx Copy.aborted closing Copy.ended
          (poll_do_send E.writer d tx) (poll_do_send-Posts E D base log m tx d w i)
          (λ d' i'. (ds, j, inl (h, i'))) (λ d' t. (ds, j, inr (one_more log ds closed h, t)))
          (λ e. Relayed-all E D F name out ds j h)
          (λ r. closed_well ds (log ++ m ∷ []) r j (one_more log ds closed h)))

  closing_rests :
      (d : DoSend) (ds : List Bytes) (base : Bytes) (log : List Message) (tx : Shared E.writer)
      (rx : SharedRx)
      → Wired E D base log tx
      → joined_bytes ds ≡ out
      → on name log ≡ map data_of ds ++ closed ∷ []
      → Taken d.msgs
      → Moves base log (copy_turn E name true works (closing d) tx rx)
  unfolding copy_turn
  closing_rests d ds base log tx rx w j h t =
      Moves-of_Goes base log closed rx
        (after_send (poll_do_send E.writer d tx) tx Copy.aborted closing Copy.ended)
        (after-Taken-Goes E D CopiesOf base log (on_stream name closed) tx Copy.aborted closing
          Copy.ended d w t (λ d' t'. (ds, j, inr (h, t'))) (λ r. closed_well ds log r j h))

  pub copy_turn-Moves :
      (lb : Bool) (branch : Branch) (t : Copy) (base : Bytes) (log : List Message)
      (tx : Shared E.writer) (rx : SharedRx)
      → Wired E D base log tx
      → CopiesOf log t
      → Moves base log (copy_turn E name lb branch t tx rx)
  unfolding copy_turn
  copy_turn-Moves lb works (selecting b p) base log tx rx w (ds, lost, h, j, l) = (
    log,
    w,
    copy_read-Copies E D F name out lb b p (on name log) ds lost (read_line_or_chunk lb p) h j
        (read_line_or_chunk-Cuts lb p) (read-Loses E D F name out lb p lost l),
    inl refl,
  )
  copy_turn-Moves lb receives (selecting true p) base log tx rx w (ds, lost, h, j, l) =
      (log, w, copy_received-Copies E D F name out p (on name log) ds lost _ h j l, inl refl)
  copy_turn-Moves lb receives (selecting false p) base log tx rx w c = (log, w, c, inl refl)
  copy_turn-Moves lb branch (passing p d) base log tx rx w (ds, c, lost, j, l, inl (h, i)) =
      passing_posts p d ds c lost base log tx rx w j l h i
  copy_turn-Moves lb branch (passing p d) base log tx rx w (ds, c, lost, j, l, inr (h, t)) =
      passing_rests p d ds c lost base log tx rx w j l h t
  copy_turn-Moves lb branch (closing d) base log tx rx w (ds, j, inl (h, i)) =
      closing_posts d ds base log tx rx w j h i
  copy_turn-Moves lb branch (closing d) base log tx rx w (ds, j, inr (h, t)) =
      closing_rests d ds base log tx rx w j h t
  copy_turn-Moves lb branch (Copy.ended r) base log tx rx w c = (log, w, c, inl refl)
  copy_turn-Moves lb branch aborted base log tx rx w c = absurd c
