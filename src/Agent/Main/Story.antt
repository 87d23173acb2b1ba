-- ===== src/Agent/Main/Story.antt =====
-- The messages of a conversation of the exec agent's `main`, and the invariant of its states.
use minimal_vm_tool.Prelude.{
  ◌≡◌, refl, ◌∙◌, sym, subst, Option, none, some, List, [], ◌∷◌, ◌++◌, append-nil, Bytes, ◌⊎◌, inl,
  inr,
}
use minimal_vm_tool.Outcome.{Error, plain, Result, ok, err, Poll, pending, ready, ◌>>=◌}
use minimal_vm_tool.Protocol.{Message, Exec, started, error, in_stream, out_stream, err_stream}
use minimal_vm_tool.Io.Writer.{Delivers}
use minimal_vm_tool.Io.Rx.Recv.{SharedRx}
use minimal_vm_tool.Io.Tx.{Sending}
use minimal_vm_tool.Io.Tx.Output.{frame}
use minimal_vm_tool.Io.Tx.Handle.{Shared, flush_all}
use minimal_vm_tool.Io.Tx.Handle.Delivery.{frames, output_of}
use minimal_vm_tool.Io.Tx.Handle.Closed.{Closes}
use minimal_vm_tool.Io.Tx.Handle.Prepare.{serialized, serialized_one}
use minimal_vm_tool.Io.Tx.Handle.Single.{Taken}
use minimal_vm_tool.Agent.Chunks.Pieces.{output}
use minimal_vm_tool.Agent.Tasks.{Env}
use minimal_vm_tool.Agent.Tasks.Sending.{on, Wired, Outgoing, send_one-Outgoing}
use minimal_vm_tool.Agent.Tasks.Copying.{SilentClosed, Relayed}
use minimal_vm_tool.Agent.Tasks.Feeding.{AtMostClosed}
use minimal_vm_tool.Agent.Tasks.Watching.{exits, AtMostOne}
use minimal_vm_tool.Agent.Session.{Session, start}
use minimal_vm_tool.Agent.Session.Steps.{Spoken}
use minimal_vm_tool.Agent.Main.{
  spawn, Child, Host, Main, expecting, greeting, serving, apologizing, flushing, closing, gone,
  aborted, concluded, spawned, expected,
}

module _ (E : Env) (H : Host E) where
  -- A child that an `Exec` was spawned as.
  abbrev pub IsChildOf : Exec → Child E → Type 0
  IsChildOf exec c = spawn E H exec ≡ ok c

  -- The messages after `Started`: a start of each output, and perhaps its end; at most one end of the
  -- input, and at most one exit status.
  abbrev pub Talks : Child E → List Message → Type 0
  Talks c talk =
      Relayed (output c.output) (on out_stream talk)
      × Relayed (output c.errors) (on err_stream talk)
      × AtMostClosed (on in_stream talk)
      × AtMostOne (exits talk)

  abbrev pub hello : Child E → Message
  hello c = started (record { pid = c.pid })

  abbrev pub sorry : Error → Message
  sorry e = error (record { message = H.to_string e })

  -- A conversation that has not been ended: nothing, or `Started` and the messages of a session.
  pub data Story : List Message → Type 0 where
    silent : Story []
    opened :
        (exec : Exec) (c : Child E) (talk : List Message)
        → IsChildOf exec c
        → Talks c talk
        → Story (hello c ∷ talk)

  -- The same, with perhaps an error at its end.
  abbrev pub Told : List Message → Type 0
  Told log =
      Story log
      ⊎ ((before : List Message) × (e : Error) × Story before × (log ≡ before ++ sorry e ∷ []))

module _ (E : Env) (H : Host E) (D : Delivers E.writer) (F : SilentClosed E) where
  abbrev pub Says : (List Message → Type 0) → Shared E.writer → Type 0
  Says P tx = (log : List Message) × P log × Wired E D [] log tx

  -- The invariant, by where `main` is.
  abbrev pub IsMain : Main E → Type 0
  IsMain (expecting tx rx) = Wired E D [] [] tx
  IsMain (greeting lb d s) =
      (exec : Exec) × (c : Child E) × IsChildOf E H exec c
      × ((tx : Shared E.writer) × (rx : SharedRx) × (s
            ≡ start E tx rx c.input c.output c.errors c.process))
      × ((Outgoing E D (hello E H c) d × Wired E D [] [] s.tx)
          ⊎ (Taken d.msgs × Wired E D [] (hello E H c ∷ []) s.tx))
  IsMain (serving lb s) =
      (exec : Exec) × (c : Child E) × IsChildOf E H exec c
      × (b : Bytes) × (E.to_vec (hello E H c) ≡ ok b)
      × Spoken E D F (frame (some b)) (output c.output) (output c.errors) c.process s
  IsMain (apologizing d tx) =
      (before : List Message) × (e : Error) × Story E H before
      × ((Outgoing E D (sorry E H e) d × Wired E D [] before tx)
          ⊎ (Taken d.msgs × Wired E D [] (before ++ sorry E H e ∷ []) tx))
  IsMain (flushing d tx) = Taken d.msgs × Says (Told E H) tx
  IsMain (closing c tx) =
      (log : List Message) × (ss : List Sending) × Told E H log
      × (serialized E.to_vec E.describe log ≡ ok ss)
      × Closes E.writer D (frames ss) c tx
  IsMain (gone (some w) tx) =
      (log : List Message) × (ss : List Sending) × Told E H log
      × (serialized E.to_vec E.describe log ≡ ok ss)
      × (D.delivered w ≡ frames ss)
  IsMain (gone none tx) = Unit
  IsMain (aborted tx) = ⊥

  -- `Started`, and then the lines of a session.
  pub Wired-cons :
      (m : Message) (b : Bytes) (talk : List Message) (tx : Shared E.writer)
      → E.to_vec m ≡ ok b
      → Wired E D (frame (some b)) talk tx
      → Wired E D [] (m ∷ talk) tx
  Wired-cons m b talk tx e (ss, s, o) = (some b ∷ ss, rw (e, s) refl, o)

  pub said_one :
      (m : Message) (r : Result Bytes) (ss : List Sending)
      → E.to_vec m ≡ r
      → (do s ← serialized_one E.to_vec E.describe m r; ok (s ∷ [])) ≡ ok ss
      → (b : Bytes) × (E.to_vec m ≡ ok b) × (ss ≡ some b ∷ [])
  said_one m (err x) ss e h = cc
  said_one m (ok b) ss e h = (b, e, cc)

  pub concluded_err :
      (before : List Message) (e : Error) (tx : Shared E.writer)
      → Story E H before
      → Wired E D [] before tx
      → IsMain (concluded E H (err e) tx)
  unfolding concluded
  concluded_err before e tx t w = (before, e, t, inl (send_one-Outgoing E D (sorry E H e), w))

  pub concluded_at :
      (log : List Message) (r : Result (Unit {0})) (tx : Shared E.writer)
      → Story E H log
      → Wired E D [] log tx
      → IsMain (concluded E H r tx)
  unfolding concluded flush_all
  concluded_at log (ok _) tx t w = (inr refl, (log, inl t, w))
  concluded_at log (err e) tx t w = concluded_err log e tx t w

  spawned-IsMain :
      (exec : Exec) (tx : Shared E.writer) (rx : SharedRx) (r : Result (Child E))
      → spawn E H exec ≡ r
      → Wired E D [] [] tx
      → IsMain (spawned E H exec tx rx r)
  unfolding spawned start
  spawned-IsMain exec tx rx (err e) h w =
      concluded_err [] (plain (E.format_debug "Failed to spawn child" e)) tx silent w
  spawned-IsMain exec tx rx (ok c) h w =
      (exec, c, h, (tx, rx, refl), inl (send_one-Outgoing E D (hello E H c), w))

  pub expected-IsMain :
      (tx : Shared E.writer) (rx : SharedRx) (r : Poll (Result (Option Exec)))
      → Wired E D [] [] tx
      → IsMain (expected E H tx rx r)
  unfolding expected
  expected-IsMain tx rx pending w = w
  expected-IsMain tx rx (ready (err e)) w = concluded_err [] e tx silent w
  expected-IsMain tx rx (ready (ok none)) w = concluded_err [] _ tx silent w
  expected-IsMain tx rx (ready (ok (some exec))) w = spawned-IsMain exec tx rx _ refl w

  -- The session begins with what `Started` has put out.
  pub session_begins :
      (c : Child E) (s : Session E) (tx : Shared E.writer)
      → ((tx₀ : Shared E.writer) × (rx : SharedRx) × (s
            ≡ start E tx₀ rx c.input c.output c.errors c.process))
      → (b : Bytes) → output_of E.writer D tx.local ≡ frame (some b)
      → Spoken E D F
          (frame (some b))
          (output c.output)
          (output c.errors)
          c.process
          (record s { tx = tx })
  unfolding start
  session_begins c s tx (tx₀, rx, h) b o =
      subst
        (λ (x : Session E).
          Spoken E D F (frame (some b)) (output c.output) (output c.errors) c.process
            (record x { tx = tx }))
        (sym h)
        (
          [],
          record {
            wired = ([], refl, o ∙ sym (append-nil (frame (some b))));
            stdin_feeds = refl;
            stdout_copies = ([], [], refl, append-nil (output c.output), inl refl);
            stderr_copies = ([], [], refl, append-nil (output c.errors), inl refl);
            exit_watches = (refl, λ z h. h);
          },
        )
