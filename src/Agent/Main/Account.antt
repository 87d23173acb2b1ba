-- ===== src/Agent/Main/Account.antt =====
-- From the first poll of `main` to what its host has received: the end of the connection, and the
-- conversation on it.
use minimal_vm_tool.Prelude.{
  ◌∷◌, ℕ, suc, ◌+◌, ◌<◌, ◌≤◌, ◌≡◌, refl, ap, ◌∙◌, subst, false, some, List, [], ◌++◌, map, length,
  Bytes, arith,
}
use minimal_vm_tool.Outcome.{Error, ok}
use minimal_vm_tool.Protocol.{Message}
use minimal_vm_tool.Io.Tx.{Sending}
use minimal_vm_tool.Io.Tx.Handle.{Shared}
use minimal_vm_tool.Io.Tx.Handle.Delivery.{frames, output_of}
use minimal_vm_tool.Io.Tx.Handle.Prepare.{serialized}
use minimal_vm_tool.Io.Rx.{ReadEvent}
use minimal_vm_tool.Io.Rx.Lines.{lines}
use minimal_vm_tool.Io.Rx.Reads.{content}
use minimal_vm_tool.Io.Rx.Recv.{SharedRx, new_rx}
use minimal_vm_tool.Io.Rx.Recv.Steady.{Chunks}
use minimal_vm_tool.Io.Wire.{IsCodec, serialized-Reads}
use minimal_vm_tool.Io.Messages.{messages, deserialize_messages}
use minimal_vm_tool.Io.Messages.RoundTrip.{received_by}
use minimal_vm_tool.Agent.Tasks.{Env}
use minimal_vm_tool.Agent.Session.{Turn}
use minimal_vm_tool.Agent.Prompt.{Prompts, Healthy}
use minimal_vm_tool.Agent.Prompt.Mail.{mail, Box}
use minimal_vm_tool.Agent.Prompt.Manners.{Follows, exec-Allowed}
use minimal_vm_tool.Agent.Tasks.Copying.{SilentClosed}
use minimal_vm_tool.Agent.Prompt.Rounds.{Rounds}
use minimal_vm_tool.Agent.Main.{Host, expecting, gone, run_main}
use minimal_vm_tool.Agent.Main.Story.{sorry}
use minimal_vm_tool.Agent.Main.Heard.{length-serialized}
use minimal_vm_tool.Agent.Main.Phases.{Bounded}
use minimal_vm_tool.Agent.Main.Ends.{run_main_ends}
use minimal_vm_tool.Agent.Main.Whole.{Whole, Final, FinalIf-Final, FinalIf-Whole, Bearing-any}
use minimal_vm_tool.Agent.Main.Good.{Spawns, Good, main_turn-Good, Good-silent, Good-Bearing}
use minimal_vm_tool.Agent.Prompt.Sound.{NoFaults}
use minimal_vm_tool.Io.Rx.Recv.Held.{Held}
use minimal_vm_tool.Io.Rx.Recv.Select.{select}
use minimal_vm_tool.Protocol.{Exec, from_exec}
use minimal_vm_tool.Agent.Main.Tells.{Tells}
use minimal_vm_tool.Agent.Main.Telling.{run_main-Tells}

-- Some way in which a reader gets bytes in chunks.
pub record Cut : Type 0 where
  pub cut : Bytes → List ReadEvent
  pub content-cut : (bytes : Bytes) → content (cut bytes) ≡ bytes
  pub cut-Chunks : (bytes : Bytes) → Chunks (cut bytes)

module _ (E : Env) (codec : IsCodec E.to_vec E.from_slice) (K : Cut) where
  -- Polls enough for all the messages that the bytes may have.
  abbrev pub enough_polls : Bytes → ℕ
  enough_polls bytes = suc (length bytes + length (K.cut bytes))

  pub received_all :
      (log : List Message) (ss : List Sending) (bytes : Bytes)
      → serialized E.to_vec E.describe log ≡ ok ss
      → bytes ≡ frames ss
      → deserialize_messages E.from_slice (enough_polls bytes) (K.cut bytes) ≡ messages log
  unfolding new_rx
  received_all log ss bytes e same =
      let n : length log ≤ length bytes =
        rw same (length-serialized E.to_vec E.describe log ss e) in
      received_by E.from_slice (enough_polls bytes) (K.cut bytes) log (K.cut-Chunks bytes)
        (
          log,
          refl,
          ap (λ x. map E.from_slice (lines x)) (K.content-cut bytes ∙ same)
              ∙ serialized-Reads E.to_vec E.describe E.from_slice codec log ss e,
        )
        (omega arith)

-- Where the connection delivers in order, takes at least a byte of each write, flushes and shuts
-- down at once, the input of the child is taken or refused at once, reads of a closed descriptor
-- give nothing, and each poll of a wait that is pending brings its child nearer to its end; a
-- serialized message is a line that is read back as it; the Error that main makes of an error
-- serializes; every child that can be spawned gives its session no more than a bound to do; the
-- sender is open and has nothing to send, the receiver is in order and holds given messages, none
-- of which tells the agent to close an output; and the turns hold more rounds than the polls to
-- come of the reader, four times the messages, the bound and two, in each of which every task gets
-- a turn at its own work, and then three turns: main of the exec agent comes to the close of the
-- connection, and deserialize_messages, over the bytes that the connection has delivered, in any
-- chunks, gives exactly one of two conversations. It is whole: Started of a child that was spawned
-- for an Exec, pieces that join to all of its output, and then its close, the same for its errors,
-- the close of its input, and one exit status, which the waiting for that child comes to. Or it is
-- one that main may have had until then, with the Error behind it.
pub run_main-Final :
    (E : Env) (H : Host E) (Q : Prompts E) (F : SilentClosed E)
    (codec : IsCodec E.to_vec E.from_slice) (K : Cut)
    (says : (e : Error) → (b : Bytes) × (E.to_vec (sorry E H e) ≡ ok b)) (most n : ℕ)
    (bounded : Bounded E H Q most) (turns last : List Turn) (tx : Shared E.writer) (rx : SharedRx)
    (q : List Message)
    → Healthy E tx
    → output_of E.writer Q.delivers tx.local ≡ []
    → rx.broken ≡ false
    → Box E.from_slice rx.local q
    → mail rx.local q + (most + 2) < n
    → Rounds n turns
    → 3 ≤ length last
    → (w : E.writer.Conn) × (tx' : Shared E.writer) × (log : List Message) × (run_main E H
          (turns ++ last)
          (expecting tx rx)
        ≡ gone (some w) tx')
      × Final E H log
      × (deserialize_messages E.from_slice
            (enough_polls E codec K (Q.delivers.delivered w))
            (K.cut (Q.delivers.delivered w))
          ≡ messages log)
run_main-Final E H Q F codec K says most n bounded turns last tx rx q v fresh b h lt rounds enough =
    let (w, tx', e) =
      run_main_ends E H Q most n bounded turns last tx rx q v b h lt rounds enough in
    let told : Tells E H Q F Unit (λ c. Unit) (λ a. says) (gone (some w) tx') =
      subst (Tells E H Q F Unit (λ c. Unit) (λ a. says)) e (
        run_main-Tells E H Q F Unit (λ c. Unit) (λ a. says) most bounded (λ m. Unit)
          (λ turn m i. tt) (λ m i a. tt) (λ m i. Bearing-any E H m) n (turns ++ last)
          (expecting tx rx) (v, b, (q, h, lt)) ([], refl, fresh) tt) in
    let (log, ss, final, s, all) = told in
    (
      w,
      tx',
      log,
      e,
      FinalIf-Final E H log final,
      received_all E codec K log ss (Q.delivers.delivered w) s all,
    )

-- Where the connection delivers in order, takes at least a byte of each write, flushes and shuts
-- down at once, reads of a closed descriptor give nothing, and each poll of a wait that is pending
-- brings its child nearer to its end; the input of a child takes at once what is written to it, and
-- the wait for a child does not fail; the messages of a session serialize, and a serialized message
-- is a line that is read back as it; every child that can be spawned gives its session no more than
-- a bound to do; the sender is open and has nothing to send, the receiver is in order, its reader
-- does not fail, and its messages are an Exec, input and perhaps its close, and perhaps a signal
-- behind them; a child is spawned for the Exec, and its outputs do not fail; and the turns hold
-- more rounds than the polls to come of the reader, four times the messages, the bound and two, in
-- each of which every task gets a turn at its own work, and then three turns: main of the exec
-- agent comes to the close of the connection, and deserialize_messages, over the bytes that the
-- connection has delivered, in any chunks, gives exactly a conversation without an Error: Started
-- with the pid of that child, pieces that join to all of its output, and then the close of the
-- output, the same for its errors, the close of its input, and one exit status, which the waiting
-- for that child comes to.
pub run_main-Whole :
    (E : Env) (H : Host E) (Q : Prompts E) (F : SilentClosed E) (N : NoFaults E)
    (codec : IsCodec E.to_vec E.from_slice) (K : Cut) (most n : ℕ) (bounded : Bounded E H Q most)
    (exec : Exec) (there : Spawns E H exec) (turns last : List Turn) (tx : Shared E.writer)
    (rx : SharedRx) (rest : List Message)
    → Healthy E tx
    → output_of E.writer Q.delivers tx.local ≡ []
    → Held E.from_slice rx (Message.exec exec ∷ rest)
    → Follows rest
    → mail rx.local (Message.exec exec ∷ rest) + (most + 2) < n
    → Rounds n turns
    → 3 ≤ length last
    → (w : E.writer.Conn) × (tx' : Shared E.writer) × (log : List Message) × (run_main E H
          (turns ++ last)
          (expecting tx rx)
        ≡ gone (some w) tx')
      × Whole E H there.0 log
      × (deserialize_messages E.from_slice
            (enough_polls E codec K (Q.delivers.delivered w))
            (K.cut (Q.delivers.delivered w))
          ≡ messages log)
unfolding select from_exec
run_main-Whole E H Q F N codec K most n bounded exec there turns last tx rx rest v fresh (b, c, h) m
      lt rounds enough =
    let q = Message.exec exec ∷ rest in
    let a = exec-Allowed exec rest m in
    let (w, tx', e) =
      run_main_ends E H Q most n bounded turns last tx rx q v b (h, a) lt rounds enough in
    let told : Tells E H Q F ⊥ (λ c. c ≡ there.0) (λ a. absurd a) (gone (some w) tx') =
      subst (Tells E H Q F ⊥ (λ c. c ≡ there.0) (λ a. absurd a)) e (
        run_main-Tells E H Q F ⊥ (λ c. c ≡ there.0) (λ a. absurd a) most bounded
          (Good E H Q N exec there) (main_turn-Good E H Q N exec there)
          (Good-silent E H Q N exec there) (Good-Bearing E H Q N exec there) n (turns ++ last)
          (expecting tx rx) (v, b, (q, (h, a), lt)) ([], refl, fresh)
          (v, (q, rest, (b, c, h), a, refl))) in
    let (log, ss, final, s, all) = told in
    (
      w,
      tx',
      log,
      e,
      FinalIf-Whole E H there.0 log final,
      received_all E codec K log ss (Q.delivers.delivered w) s all,
    )
