-- ===== src/Agent/Prompt/Loaded.antt =====
-- A send whose message has its line goes through at its first poll, where the connection is prompt.
use minimal_vm_tool.Prelude.{◌≡◌, refl, ap₂, ◌∙◌, sym, subst, some, [], ◌∷◌, Bytes}
use minimal_vm_tool.Outcome.{Result, ok, ready}
use minimal_vm_tool.Protocol.{Message}
use minimal_vm_tool.Io.Tx.Handle.{Shared, DoSend, send, send_and_flush, poll_do_send}
use minimal_vm_tool.Io.Tx.Handle.Prepare.{prepare_msgs-eq-serialized}
use minimal_vm_tool.Io.Tx.Handle.Progress.{open_tx, do_send_prompt}
use minimal_vm_tool.Agent.Tasks.{Env, send_one, send_last, after_send}
use minimal_vm_tool.Agent.Prompt.{Prompts, Healthy}

-- A send that has its line.
abbrev pub Loaded : DoSend → Type 0
Loaded d = (b : Bytes) × (d.msgs ≡ ok (some b ∷ []))

module _ (E : Env) where
  pub msgs-send_one :
      (m : Message) (b : Bytes) → E.to_vec m ≡ ok b → (send_one E m).msgs ≡ ok (some b ∷ [])
  unfolding send
  msgs-send_one m b e = prepare_msgs-eq-serialized E.to_vec E.describe (m ∷ []) ∙ rw e refl

  pub send_one-Loaded : (m : Message) (b : Bytes) → E.to_vec m ≡ ok b → Loaded (send_one E m)
  send_one-Loaded m b e = (b, msgs-send_one m b e)

  pub send_last-Loaded : (m : Message) (b : Bytes) → E.to_vec m ≡ ok b → Loaded (send_last E m)
  unfolding send_and_flush
  send_last-Loaded m b e = (b, prepare_msgs-eq-serialized E.to_vec E.describe (m ∷ []) ∙ rw e refl)

  module _ (Q : Prompts E) where
    pub goes_through :
        (d : DoSend) (tx : Shared E.writer)
        → Loaded d
        → Healthy E tx
        → (tx' : Shared E.writer) × (d' : DoSend) × Healthy E tx'
          × (poll_do_send E.writer d tx ≡ some (ready (ok tt), (tx', d')))
    goes_through d tx (b, l) (t, h) =
        let (t', through) = do_send_prompt E.writer Q.delivers Q.prompt (some b ∷ []) d.flush t in
        (
          open_tx E.writer t',
          record { msgs = ok []; flush = d.flush },
          (t', refl),
          ap₂ (λ x y. poll_do_send E.writer (record { msgs = x; flush = d.flush }) y) l h ∙ through,
        )

    -- A task goes on from such a send.
    pub after_send_through :
        {T : Type 0} (P : T × Shared E.writer → Type 0) (d : DoSend) (tx : Shared E.writer)
        (panic : T) (stay : DoSend → T) (go : Result (Unit {0}) → T)
        → Loaded d
        → Healthy E tx
        → ((tx' : Shared E.writer) → Healthy E tx' → P (go (ok tt), tx'))
        → P (after_send (poll_do_send E.writer d tx) tx panic stay go)
    after_send_through P d tx panic stay go l h p =
        let (tx', d', h', e) = goes_through d tx l h in
        subst (λ o. P (after_send o tx panic stay go)) (sym e) (p tx' h')
