-- ===== src/Agent/Main/Heard.antt =====
-- What the host receives of a conversation of the agent's `main`: both ends of the connection.
use minimal_vm_tool.Prelude.{
  ℕ, ◌+◌, ◌<◌, ◌≤◌, ◌≡◌, refl, ap, ◌∙◌, some, List, [], ◌∷◌, arith, length, length-append, Bytes,
  String, map,
}
use minimal_vm_tool.Outcome.{Result, ok, err, ◌>>=◌}
use minimal_vm_tool.Protocol.{Message}
use minimal_vm_tool.Io.Writer.{Delivers}
use minimal_vm_tool.Io.Tx.{Sending}
use minimal_vm_tool.Io.Tx.Output.{frame}
use minimal_vm_tool.Io.Tx.Handle.{Shared}
use minimal_vm_tool.Io.Tx.Handle.Delivery.{frames, output_of}
use minimal_vm_tool.Io.Tx.Handle.Prepare.{serialized, serialized_one}
use minimal_vm_tool.Io.Rx.{ReadEvent}
use minimal_vm_tool.Io.Rx.Lines.{lines}
use minimal_vm_tool.Io.Rx.Reads.{content}
use minimal_vm_tool.Io.Rx.Recv.{SharedRx, new_rx}
use minimal_vm_tool.Io.Rx.Recv.All.{Drains, recv_all, recv_all-Drains}
use minimal_vm_tool.Io.Wire.{IsCodec, serialized-Reads}
use minimal_vm_tool.Agent.Tasks.{Env}
use minimal_vm_tool.Agent.Tasks.Copying.{SilentClosed}
use minimal_vm_tool.Agent.Session.{Turn}
use minimal_vm_tool.Agent.Main.{Host, expecting, gone, run_main}
use minimal_vm_tool.Agent.Main.Story.{Told}
use minimal_vm_tool.Agent.Main.Conversation.{Converses, run_main-Converses}

module _ (to_vec : Message → Result Bytes) (describe : Message → String) where
  counted :
      (m : Message) (ms : List Message) (ss : List Sending) (r : Result Bytes)
      (t : Result (List Sending))
      → ((rest : List Sending) → t ≡ ok rest → length ms ≤ length (frames rest))
      → (do s ← serialized_one to_vec describe m r; rest ← t; ok (s ∷ rest)) ≡ ok ss
      → length (m ∷ ms) ≤ length (frames ss)
  counted m ms ss (err x) t ih h = cc
  counted m ms ss (ok b) (err x) ih h = cc
  counted m ms ss (ok b) (ok rest) ih h =
      let whole : ss ≡ some b ∷ rest = cc in
      let more : length ms ≤ length (frames rest) = ih rest refl in
      rw whole
        (ground (arith, length-append (frame (some b)) (frames rest), length-append b (10 ∷ [])))

  -- There is a byte of output for each message.
  pub length-serialized :
      (ms : List Message) (ss : List Sending)
      → serialized to_vec describe ms ≡ ok ss
      → length ms ≤ length (frames ss)
  length-serialized [] ss h = omega arith
  length-serialized (m ∷ ms) ss h =
      counted m ms ss (to_vec m) (serialized to_vec describe ms) (length-serialized ms) h

-- Where a writer delivers in order, reads of a closed descriptor of an output give nothing, and
-- JSON is as IsCodec says: after any turns of main of the exec agent, from a connection with no
-- output, that end with the connection closed well, receiving everything over a reader of what the
-- connection took, with a bound above its bytes and the polls of the reader, gives all of one
-- conversation in order, or a prefix of it and an error. A conversation is nothing, or Started with
-- the pid of the child that the Exec was spawned as and the messages of its session; and then
-- perhaps an Error. Of a session, what is sent of each output is a start of it in pieces, or all of
-- it and Closed; there is at most one Closed of the input and at most one exit status.
pub run_main-Drains :
    (E : Env) (H : Host E) (D : Delivers E.writer) (F : SilentClosed E)
    (codec : IsCodec E.to_vec E.from_slice) (turns : List Turn) (tx tx' : Shared E.writer)
    (rx : SharedRx) (w : E.writer.Conn) (k : ℕ) (r : List ReadEvent)
    → output_of E.writer D tx.local ≡ []
    → run_main E H turns (expecting tx rx) ≡ gone (some w) tx'
    → content r ≡ D.delivered w
    → length (content r) + length r < k
    → (log : List Message) × Told E H log × Drains log (recv_all E.from_slice k (new_rx r))
unfolding new_rx
run_main-Drains E H D F codec turns tx tx' rx w k r fresh run same enough =
    let said : Converses E H D F (gone (some w) tx') =
      rw run at (run_main-Converses E H D F turns tx rx fresh) in
    let (log, ss, told, e, all) = said in
    let n : length log ≤ length (content r) =
      rw (same ∙ all) (length-serialized E.to_vec E.describe log ss e) in
    (
      log,
      told,
      recv_all-Drains E.from_slice k (new_rx r) log
          (
            log,
            refl,
            ap (λ x. map E.from_slice (lines x)) (same ∙ all)
                ∙ serialized-Reads E.to_vec E.describe E.from_slice codec log ss e,
          )
          (omega arith),
    )
