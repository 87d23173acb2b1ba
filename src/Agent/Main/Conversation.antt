-- ===== src/Agent/Main/Conversation.antt =====
-- What `main` of the exec agent says on its connection, from the first poll to the close.
use minimal_vm_tool.Prelude.{◌≡◌, refl, none, some, List, [], ◌∷◌, ◌++◌, inl, inr}
use minimal_vm_tool.Outcome.{ok}
use minimal_vm_tool.Protocol.{Message}
use minimal_vm_tool.Io.Writer.{Delivers}
use minimal_vm_tool.Io.Rx.Recv.{SharedRx}
use minimal_vm_tool.Io.Tx.{Sending}
use minimal_vm_tool.Io.Tx.Output.{frame}
use minimal_vm_tool.Io.Tx.Handle.{Shared}
use minimal_vm_tool.Io.Tx.Handle.Delivery.{frames, output_of}
use minimal_vm_tool.Io.Tx.Handle.Closed.{Closes}
use minimal_vm_tool.Io.Tx.Handle.Prepare.{serialized}
use minimal_vm_tool.Agent.Tasks.{Env}
use minimal_vm_tool.Agent.Tasks.Copying.{SilentClosed}
use minimal_vm_tool.Agent.Session.{Turn}
use minimal_vm_tool.Agent.Main.{
  Host, Main, expecting, greeting, serving, apologizing, flushing, closing, gone, aborted, run_main,
}
use minimal_vm_tool.Agent.Main.Story.{
  hello, sorry, Story, silent, opened, Told, Says, IsMain, Wired-cons,
}
use minimal_vm_tool.Agent.Main.Turns.{quiet, session_Talks, run_main-IsMain}

module _ (E : Env) (H : Host E) (D : Delivers E.writer) (F : SilentClosed E) where
  -- What has been said, by where `main` is: nothing while the `Exec` is expected, and all of it in a
  -- connection that was closed well.
  abbrev pub Converses : Main E → Type 0
  Converses (expecting tx rx) = Says E H D F (λ log. log ≡ []) tx
  Converses (greeting lb d s) = Says E H D F (Story E H) s.tx
  Converses (serving lb s) = Says E H D F (Story E H) s.tx
  Converses (apologizing d tx) = Says E H D F (Told E H) tx
  Converses (flushing d tx) = Says E H D F (Told E H) tx
  Converses (closing c tx) =
      (log : List Message) × (ss : List Sending) × Told E H log
      × (serialized E.to_vec E.describe log ≡ ok ss)
      × Closes E.writer D (frames ss) c tx
  Converses (gone (some w) tx) =
      (log : List Message) × (ss : List Sending) × Told E H log
      × (serialized E.to_vec E.describe log ≡ ok ss)
      × (D.delivered w ≡ frames ss)
  Converses (gone none tx) = Unit
  Converses (aborted tx) = ⊥

  converses : (m : Main E) → IsMain E H D F m → Converses m
  converses (expecting tx rx) w = ([], refl, w)
  converses (greeting lb d s) (exec, c, h, st, inl (i, w)) = ([], silent, w)
  converses (greeting lb d s) (exec, c, h, st, inr (t, w)) =
      (hello E H c ∷ [], opened exec c [] h (quiet E H D F c), w)
  converses (serving lb s) (exec, c, h, b, e, (log, v)) = (
    hello E H c ∷ log,
    opened exec c log h (session_Talks E H D F c (frame (some b)) log s v),
    Wired-cons E H D F (hello E H c) b log s.tx e v.wired,
  )
  converses (apologizing d tx) (before, e, t, inl (i, w)) = (before, inl t, w)
  converses (apologizing d tx) (before, e, t, inr (k, w)) =
      (before ++ sorry E H e ∷ [], inr (before, e, t, refl), w)
  converses (flushing d tx) (k, v) = v
  converses (closing c tx) v = v
  converses (gone (some w) tx) v = v
  converses (gone none tx) v = v
  converses (aborted tx) v = v

-- Where a writer delivers in order, and reads of a closed descriptor of an output give nothing:
-- from a connection with no output, and whatever the turns of main of the exec agent are, it does
-- not panic, and what it has put out is the lines of one conversation: nothing while the Exec is
-- expected; nothing, or Started and the messages of a session up to the end of that session; and
-- these with perhaps an Error from there on. What is delivered where the connection has been closed
-- well is all of it.
pub run_main-Converses :
    (E : Env) (H : Host E) (D : Delivers E.writer) (F : SilentClosed E) (turns : List Turn)
    (tx : Shared E.writer) (rx : SharedRx)
    → output_of E.writer D tx.local ≡ []
    → Converses E H D F (run_main E H turns (expecting tx rx))
run_main-Converses E H D F turns tx rx fresh =
    converses E H D F (run_main E H turns (expecting tx rx))
      (run_main-IsMain E H D F turns (expecting tx rx) ([], refl, fresh))
