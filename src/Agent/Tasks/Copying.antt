-- ===== src/Agent/Tasks/Copying.antt =====
-- The tasks `stdout` and `stderr`: what they send of the output of the process.
pub mod Turns
use minimal_vm_tool.Prelude.{
  ◌≡◌, refl, ap, ap₂, ◌∙◌, sym, subst, Option, none, some, List, [], ◌∷◌, ◌++◌, append-nil,
  append_assoc, Bytes, ◌⊎◌, inl, inr, Bool, true, false, map,
}
use minimal_vm_tool.Outcome.{Error, Result, ok, err, Poll, pending, ready}
use minimal_vm_tool.Protocol.{Message, Stdio, data_of, closed, Stream}
use minimal_vm_tool.Io.Writer.{Delivers}
use minimal_vm_tool.Io.Rx.{ReadEvent, chunk, wait, fail}
use minimal_vm_tool.Io.Rx.Reads.{content}
use minimal_vm_tool.Io.Rx.Recv.{SharedRx}
use minimal_vm_tool.Io.Tx.Handle.{Shared, DoSend, poll_do_send}
use minimal_vm_tool.Io.Tx.Handle.Single.{Taken}
use minimal_vm_tool.Agent.Chunks.{Pipe, Chunk, read_line_or_chunk}
use minimal_vm_tool.Agent.Chunks.Broken.{Blocked, Doomed, DoomedRead, read_line_or_chunk-DoomedRead}
use minimal_vm_tool.Agent.Chunks.Pieces.{
  output, Cuts, gives, ended, waits, fails, read_line_or_chunk-Cuts,
}
use minimal_vm_tool.Agent.Tasks.{
  Env, on_stream, Branch, works, receives, Copy, selecting, passing, closing, aborted, copy_read,
  closed_fd, copy_received, copy_passed, copy_turn, after_send,
}
use minimal_vm_tool.Agent.Tasks.Sending.{
  on, on-append_own, Wired, Outgoing, send_one-Outgoing, send_last-Outgoing, poll_do_send-Posts,
  Goes, after_send-Goes, after-Taken-Goes,
}

-- What is relied on of close(2): reads of a descriptor that has been closed give nothing. They are
-- pending, for as long as may be, or fail.
pub record SilentClosed (E : Env) : Type 0 where
  pub silent_after : (r r' : List ReadEvent) → E.close_fd r ≡ (ok tt, r') → Blocked r'

content_of_Blocked : (r : List ReadEvent) → Blocked r → content r ≡ []
content_of_Blocked [] h = absurd h
content_of_Blocked (chunk b bs ∷ r) h = absurd h
content_of_Blocked (wait ∷ r) h = content_of_Blocked r h
content_of_Blocked (fail e ∷ r) h = ap content h

abbrev pub joined_bytes : List Bytes → Bytes
joined_bytes [] = []
joined_bytes (d ∷ ds) = d ++ joined_bytes ds

joined_bytes-append :
    (ds : List Bytes) (d : Bytes) → joined_bytes (ds ++ d ∷ []) ≡ joined_bytes ds ++ d
joined_bytes-append [] d = append-nil d
joined_bytes-append (x ∷ ds) d =
    ap (λ b. x ++ b) (joined_bytes-append ds d) ∙ sym (append_assoc x (joined_bytes ds) d)

map-append :
    (ds : List Bytes) (d : Bytes) → map data_of (ds ++ d ∷ []) ≡ map data_of ds ++ data_of d ∷ []
map-append [] d = refl
map-append (x ∷ ds) d = ap (◌∷◌ (data_of x)) (map-append ds d)

-- What may have been sent of an output: data that is the start of it; or all of it, and then `closed`.
pub data Relayed (out : Bytes) : List Stdio → Type 0 where
  so_far :
      (ds : List Bytes) (rest : Bytes)
      → joined_bytes ds ++ rest ≡ out
      → Relayed out (map data_of ds)
  in_full : (ds : List Bytes) → joined_bytes ds ≡ out → Relayed out (map data_of ds ++ closed ∷ [])

module _ (E : Env) (D : Delivers E.writer) (F : SilentClosed E) (name : Stream) (out : Bytes) where
  -- What is lost of the output when its descriptor is closed; then no read gives anything.
  abbrev pub Loses : Pipe → Bytes → Type 0
  Loses p lost = (lost ≡ []) ⊎ Doomed p

  -- What the task has sent, by where it is.
  abbrev pub Copies : List Stdio → Copy → Type 0
  Copies sent (selecting b p) =
      (ds : List Bytes) × (lost : Bytes) × (sent ≡ map data_of ds)
      × (joined_bytes ds ++ (output p ++ lost) ≡ out)
      × Loses p lost
  Copies sent (passing p d) =
      (ds : List Bytes) × (c : Bytes) × (lost : Bytes) × (joined_bytes (ds ++ c ∷ [])
          ++ (output p ++ lost)
        ≡ out)
      × Loses p lost
      × (((sent ≡ map data_of ds) × Outgoing E D (on_stream name (data_of c)) d)
          ⊎ ((sent ≡ map data_of (ds ++ c ∷ [])) × Taken d.msgs))
  Copies sent (closing d) =
      (ds : List Bytes) × (joined_bytes ds ≡ out)
      × (((sent ≡ map data_of ds) × Outgoing E D (on_stream name closed) d)
          ⊎ ((sent ≡ map data_of ds ++ closed ∷ []) × Taken d.msgs))
  Copies sent (Copy.ended (ok _)) =
      (ds : List Bytes) × (joined_bytes ds ≡ out) × (sent ≡ map data_of ds ++ closed ∷ [])
  Copies sent (Copy.ended (err e)) = Relayed out sent
  Copies sent aborted = ⊥

  pub Relayed-all :
      (ds : List Bytes) {sent : List Stdio}
      → joined_bytes ds ≡ out
      → sent ≡ map data_of ds
      → Relayed out sent
  Relayed-all ds j h = subst (Relayed out) (sym h) (so_far ds [] (append-nil (joined_bytes ds) ∙ j))

  pub Copies-Relayed : (sent : List Stdio) (t : Copy) → Copies sent t → Relayed out sent
  Copies-Relayed sent (selecting b p) (ds, lost, h, j, l) =
      subst (Relayed out) (sym h) (so_far ds (output p ++ lost) j)
  Copies-Relayed sent (passing p d) (ds, c, lost, j, l, inl (h, i)) = subst (Relayed out) (sym h) (
      so_far ds (c ++ (output p ++ lost)) (
        sym (append_assoc (joined_bytes ds) c (output p ++ lost))
        ∙ ap (λ b. b ++ (output p ++ lost)) (sym (joined_bytes-append ds c))
        ∙ j))
  Copies-Relayed sent (passing p d) (ds, c, lost, j, l, inr (h, i)) =
      subst (Relayed out) (sym h) (so_far (ds ++ c ∷ []) (output p ++ lost) j)
  Copies-Relayed sent (closing d) (ds, j, inl (h, i)) = Relayed-all ds j h
  Copies-Relayed sent (closing d) (ds, j, inr (h, i)) = subst (Relayed out) (sym h) (in_full ds j)
  Copies-Relayed sent (Copy.ended (ok _)) (ds, j, h) = subst (Relayed out) (sym h) (in_full ds j)
  Copies-Relayed sent (Copy.ended (err e)) r = r
  Copies-Relayed sent aborted h = absurd h

  -- After a read of a pipe that has lost `lost`.
  read-Loses :
      (lb : Bool) (p : Pipe) (lost : Bytes)
      → Loses p lost
      → (lost ≡ []) ⊎ DoomedRead (read_line_or_chunk lb p)
  read-Loses lb p lost (inl e) = inl e
  read-Loses lb p lost (inr d) = inr (read_line_or_chunk-DoomedRead lb p d)

  pub copy_read-Copies :
      (lb b : Bool) (p : Pipe) (sent : List Stdio) (ds : List Bytes) (lost : Bytes) (c : Chunk)
      → sent ≡ map data_of ds
      → joined_bytes ds ++ (output p ++ lost) ≡ out
      → Cuts lb p c
      → (lost ≡ []) ⊎ DoomedRead c
      → Copies sent (copy_read E name b c)
  unfolding copy_read
  copy_read-Copies lb b p sent ds lost c h j (waits p' e f) l =
      (ds, lost, h, ap (λ o. joined_bytes ds ++ (o ++ lost)) (sym e) ∙ j, l)
  copy_read-Copies lb b p sent ds lost c h j (fails x p' e f) l =
      subst (Relayed out) (sym h) (so_far ds (output p ++ lost) j)
  copy_read-Copies lb b p sent ds lost c h j (ended p' e f) (inr l) = absurd l
  copy_read-Copies lb b p sent ds lost c h j (ended p' e f) (inl l) = (
    ds,
    sym (append-nil (joined_bytes ds)) ∙ ap (λ x. joined_bytes ds ++ x) (sym (ap₂ ◌++◌ e l)) ∙ j,
    inl (h, send_last-Outgoing E D (on_stream name closed)),
  )
  copy_read-Copies lb b p sent ds lost c h j (gives d p' e n k) l = (
    ds,
    d,
    lost,
    ap (λ x. x ++ (output p' ++ lost)) (joined_bytes-append ds d)
        ∙ append_assoc (joined_bytes ds) d (output p' ++ lost)
        ∙ ap (λ x. joined_bytes ds ++ x)
            (sym (append_assoc d (output p') lost) ∙ ap (λ x. x ++ lost) (sym e))
        ∙ j,
    l,
    inl (h, send_one-Outgoing E D (on_stream name (data_of d))),
  )

  pub closed_fd-Copies :
      (p : Pipe) (sent : List Stdio) (ds : List Bytes) (lost : Bytes)
      (r : Result (Unit {0}) × List ReadEvent)
      → sent ≡ map data_of ds
      → joined_bytes ds ++ (output p ++ lost) ≡ out
      → E.close_fd p.reader ≡ r
      → Copies sent (closed_fd E name p r)
  unfolding closed_fd
  closed_fd-Copies p sent ds lost (ok _, r) h j e =
      let f = F.silent_after p.reader r e in
      (
        ds,
        content p.reader ++ lost,
        h,
        ap (λ q. joined_bytes ds ++ q)
              (append_assoc p.buffer (content r) (content p.reader ++ lost)
                ∙ ap (λ q. p.buffer ++ (q ++ (content p.reader ++ lost))) (content_of_Blocked r f)
                ∙ sym (append_assoc p.buffer (content p.reader) lost))
            ∙ j,
        inr f,
      )
  closed_fd-Copies p sent ds lost (err x, r) h j e =
      subst (Relayed out) (sym h) (so_far ds (output p ++ lost) j)

  pub copy_received-Copies :
      (p : Pipe) (sent : List Stdio) (ds : List Bytes) (lost : Bytes)
      (r : Poll (Result (Option Stdio)))
      → sent ≡ map data_of ds
      → joined_bytes ds ++ (output p ++ lost) ≡ out
      → Loses p lost
      → Copies sent (copy_received E name p r)
  unfolding copy_received
  copy_received-Copies p sent ds lost pending h j l = (ds, lost, h, j, l)
  copy_received-Copies p sent ds lost (ready (err e)) h j l = (ds, lost, h, j, l)
  copy_received-Copies p sent ds lost (ready (ok none)) h j l = (ds, lost, h, j, l)
  copy_received-Copies p sent ds lost (ready (ok (some (data_of d)))) h j l = (ds, lost, h, j, l)
  copy_received-Copies p sent ds lost (ready (ok (some closed))) h j l =
      closed_fd-Copies p sent ds lost (E.close_fd p.reader) h j refl
