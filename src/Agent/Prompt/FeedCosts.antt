-- ===== src/Agent/Prompt/FeedCosts.antt =====
-- What a turn of `stdin` costs.
use minimal_vm_tool.Prelude.{
  ℕ, ◌+◌, ◌<◌, ◌≡◌, ◌≢◌, refl, Bool, true, false, inl, inr, Option, none, some, List, arith, Bytes,
}
use minimal_vm_tool.Outcome.{Result, ok, err, Poll, pending, ready}
use minimal_vm_tool.Protocol.{Message, in_stream}
use minimal_vm_tool.Protocol.Kinds.{all_give_back}
use minimal_vm_tool.Io.Rx.Recv.{SharedRx, shared_recv}
use minimal_vm_tool.Agent.Prompt.Mail.{Box}
use minimal_vm_tool.Io.Tx.Handle.{Shared, poll_do_send}
use minimal_vm_tool.Agent.Tasks.{
  Env, Feed, waiting, writing, announcing, feed_received, feed_written, feed_turn,
}
use minimal_vm_tool.Agent.Tasks.Hearing.{feed_type}
use minimal_vm_tool.Agent.Prompt.{Prompts, Healthy, poll_do_send-Sends, after_send-Sends}
use minimal_vm_tool.Agent.Prompt.Mail.{mail, Spends, SharedMails, shared_recv-Mails}
use minimal_vm_tool.Agent.Prompt.Costs.{Costs, Spent, Spent-Costs}

module _ {I : Type 0} where
  abbrev pub feed_cost : Feed I → ℕ
  feed_cost (waiting i) = 2
  feed_cost (writing i left) = 3
  feed_cost (announcing i d) = 1
  feed_cost (Feed.ended i r) = 0
  feed_cost Feed.aborted = 0

  abbrev pub feed_live : Feed I → Bool
  feed_live (Feed.ended i r) = false
  feed_live (waiting i) = true
  feed_live (writing i left) = true
  feed_live (announcing i d) = true
  feed_live Feed.aborted = true

  abbrev pub FeedSane : Feed I → Type 0
  FeedSane Feed.aborted = ⊥
  FeedSane (waiting i) = Unit
  FeedSane (writing i left) = Unit
  FeedSane (announcing i d) = Unit
  FeedSane (Feed.ended i r) = Unit

module _ (E : Env) (Q : Prompts E) where
  abbrev pub FeedCosts : Bool → ℕ → Bool → Feed E.Input × (Shared E.writer × SharedRx) → Type 0
  FeedCosts = Costs E feed_cost feed_live FeedSane

  received-Pays :
      (i : E.Input) (r : Poll (Result (Option (Option Bytes)))) (n n' : ℕ)
      → Spends E.from_slice feed_type n n' r
      → FeedSane (feed_received E i r) × (feed_cost (feed_received E i r) + n' < 2 + n)
  unfolding feed_received
  received-Pays i pending n n' s = (tt, omega arith)
  received-Pays i (ready (err e)) n n' s = (tt, omega arith)
  received-Pays i (ready (ok none)) n n' s = (tt, omega arith)
  received-Pays i (ready (ok (some none))) n n' s = (tt, omega arith)
  received-Pays i (ready (ok (some (some bytes)))) n n' s = (tt, omega arith)

  feed_received-Costs :
      (i : E.Input) (tx : Shared E.writer) (n : ℕ)
      (a : Poll (Result (Option (Option Bytes))) × SharedRx)
      → Healthy E tx
      → SharedMails E.from_slice feed_type n a
      → FeedCosts true (2 + n) true (feed_received E i a.0, (tx, a.1))
  feed_received-Costs i tx n (r, rx) v (b, (q, h, (s, k))) =
      let (sane, lt) = received-Pays i r n (mail rx.local q) s in (v, b, sane, (q, h, inl lt))

  written_pays :
      (a : Poll (Result (Unit {0})) × (E.Input × Bytes))
      → a.0 ≢ pending
      → FeedSane (feed_written E a) × (feed_cost (feed_written E a) < 3)
  unfolding feed_written
  written_pays (pending, (i, left)) n = absurd (n refl)
  written_pays (ready (err e), (i, left)) n = (tt, omega arith)
  written_pays (ready (ok _), (i, left)) n = (tt, omega arith)

  pub feed_turn-Costs :
      (t : Feed E.Input) (tx : Shared E.writer) (rx : SharedRx) (q : List Message)
      → Healthy E tx
      → rx.broken ≡ false
      → Box E.from_slice rx.local q
      → FeedSane t
      → FeedCosts true (feed_cost t + mail rx.local q) (feed_live t) (feed_turn E t tx rx)
  unfolding feed_turn
  feed_turn-Costs (waiting i) tx rx q v o h s =
      feed_received-Costs i tx (mail rx.local q) (shared_recv feed_type E.from_slice rx) v (
        shared_recv-Mails E.from_slice feed_type (all_give_back.bytes_or_closed_back in_stream) rx q
          o h)
  feed_turn-Costs (writing i left) tx rx q v o h s =
      let (sane, lt) = written_pays (E.write_all i left) (Q.writes_now i left) in
      Spent-Costs E feed_cost feed_live FeedSane true true rx q 3
        (feed_written E (E.write_all i left), tx) o h (v, sane, lt)
  feed_turn-Costs (announcing i d) tx rx q v o h s =
      Spent-Costs E feed_cost feed_live FeedSane true true rx q 1 _ o h (
        after_send-Sends E Q (Spent E feed_cost feed_live FeedSane rx.local q 1) tx Feed.aborted
          (announcing i) (Feed.ended i) (poll_do_send E.writer d tx) (poll_do_send-Sends E Q d tx v)
          (λ r tx' v'. (v', tt, omega arith)))
  feed_turn-Costs (Feed.ended i r) tx rx q v o h s =
      (v, o, tt, (q, h, inr (omega arith, refl, λ m. refl)))
  feed_turn-Costs Feed.aborted tx rx q v o h s = absurd s
