-- ===== src/Agent/Prompt.antt =====
-- What makes a session of the exec agent end, and what a turn then costs.
pub mod Mail
pub mod Costs
pub mod FeedCosts
pub mod WatchCosts
pub mod Turns
pub mod Rounds
pub mod Loaded
pub mod Manners
pub mod Sound
pub mod Faultless
use minimal_vm_tool.Prelude.{
  ℕ, ◌<◌, ◌≡◌, ◌≢◌, refl, ◌∙◌, sym, subst, Bool, Option, none, some, List, Bytes,
}
use minimal_vm_tool.Outcome.{Error, Result, ok, err, Poll, pending, ready}
use minimal_vm_tool.Io.Writer.{Writer, Delivers}
use minimal_vm_tool.Io.Tx.{Sending, TxLocal}
use minimal_vm_tool.Io.Tx.Prompt.{Prompt}
use minimal_vm_tool.Io.Tx.Handle.{Shared, DoSend, poll_do_send}
use minimal_vm_tool.Io.Tx.Handle.Progress.{open_tx, do_send_prompt}
use minimal_vm_tool.Agent.Tasks.{Env, Sent, after_send}
use minimal_vm_tool.Agent.Tasks.Copying.{SilentClosed}

-- A connection that is always ready, a child that takes its input at once or fails to, and that
-- runs for some polls of its wait.
pub record Prompts (E : Env) : Type 0 where
  pub delivers : Delivers E.writer
  pub prompt : Prompt E.writer
  pub shuts : (w : E.writer.Conn) → (E.writer.poll_shutdown w).0 ≡ ready (ok tt)
  pub writes_now : (i : E.Input) (b : Bytes) → (E.write_all i b).0 ≢ pending
  pub left_to_run : E.child.Child → ℕ
  pub runs_down :
      (c c' : E.child.Child) → E.child.child_wait c ≡ (pending, c') → left_to_run c' < left_to_run c

module _ (E : Env) where
  -- A sender whose mutex is in order, and which has its writer.
  abbrev pub Healthy : Shared E.writer → Type 0
  Healthy tx = (s : TxLocal E.writer) × (tx ≡ open_tx E.writer s)

  -- A poll of a send that is ready.
  abbrev pub Sends : Sent E.writer → Type 0
  Sends none = ⊥
  Sends (some (pending, (tx, d))) = ⊥
  Sends (some (ready r, (tx, d))) = Healthy tx

  module _ (Q : Prompts E) where
    do_send_at :
        (m : Result (List Sending)) (flush : Bool) (s : TxLocal E.writer)
        → Sends (poll_do_send E.writer (record { msgs = m; flush = flush }) (open_tx E.writer s))
    unfolding poll_do_send
    do_send_at (err e) flush s = (s, refl)
    do_send_at (ok msgs) flush s =
        let sent = do_send_prompt E.writer Q.delivers Q.prompt msgs flush s in
        subst Sends (sym sent.1) (sent.0, refl)

    pub poll_do_send-Sends :
        (d : DoSend) (tx : Shared E.writer) → Healthy tx → Sends (poll_do_send E.writer d tx)
    poll_do_send-Sends d tx (s, e) =
        subst (λ x. Sends (poll_do_send E.writer d x)) (sym e) (do_send_at d.msgs d.flush s)

    -- A task goes on from such a send.
    pub after_send-Sends :
        {T : Type 0} (P : T × Shared E.writer → Type 0) (tx : Shared E.writer) (panic : T)
        (stay : DoSend → T) (go : Result (Unit {0}) → T) (o : Sent E.writer)
        → Sends o
        → ((r : Result (Unit {0})) (tx' : Shared E.writer) → Healthy tx' → P (go r, tx'))
        → P (after_send o tx panic stay go)
    after_send-Sends P tx panic stay go none h p = absurd h
    after_send-Sends P tx panic stay go (some (pending, (tx', d))) h p = absurd h
    after_send-Sends P tx panic stay go (some (ready r, (tx', d))) h p = p r tx' h
