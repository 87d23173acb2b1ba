-- ===== src/Agent/Prompt/Costs.antt =====
-- What a turn of `stdout` or `stderr` costs.
use minimal_vm_tool.Prelude.{
  ℕ, ◌+◌, ◌*◌, ◌<◌, ◌≤◌, ◌≡◌, ◌≢◌, refl, ap, Bool, true, false, ◌⊎◌, inl, inr, Option, none, some,
  List, [], ◌∷◌, arith, length, length-append, Bytes,
}
use minimal_vm_tool.Outcome.{Result, ok, err, Poll, pending, ready}
use minimal_vm_tool.Protocol.{Message, Stdio, data_of, closed, Stream, from_stdio}
use minimal_vm_tool.Protocol.Kinds.{all_give_back}
use minimal_vm_tool.Io.Rx.Recv.{RxLocal, SharedRx, shared_recv}
use minimal_vm_tool.Agent.Prompt.Mail.{Taken, IsOutput, not_closed, Box}
use minimal_vm_tool.Io.Tx.Handle.{Shared, DoSend, poll_do_send}
use minimal_vm_tool.Agent.Chunks.{Pipe, Chunk, events, read_line_or_chunk}
use minimal_vm_tool.Agent.Chunks.Pieces.{
  output, Cuts, gives, ended, waits, fails, read_line_or_chunk-Cuts,
}
use minimal_vm_tool.Agent.Chunks.Polls.{events-read_line_or_chunk}
use minimal_vm_tool.Agent.Tasks.{
  Env, Branch, works, receives, Copy, selecting, passing, closing, copy_read, copy_received,
  copy_passed, copy_turn, after_send,
}
use minimal_vm_tool.Agent.Prompt.{Prompts, Healthy, poll_do_send-Sends, after_send-Sends}
use minimal_vm_tool.Agent.Prompt.Mail.{mail, Spends, SharedMails, shared_recv-Mails}

-- What a turn makes of a cost: it falls; or it does not rise, the task is as live as it was, and it
-- was not live where the turn was to be of use.
abbrev pub Pays : Bool → ℕ → Bool → ℕ → Bool → Type 0
Pays must n live n' live' = (n' < n) ⊎ ((n' ≤ n) × (live' ≡ live) × (must ≡ true → live ≡ false))

abbrev pub is_works : Branch → Bool
is_works works = true
is_works receives = false

-- A task that has the cost `cost`, and what is `sane` for it.
module _ (E : Env) {T : Type 0} (cost : T → ℕ) (live : T → Bool) (Sane : T → Type 0) where
  abbrev pub Costs : Bool → ℕ → Bool → T × (Shared E.writer × SharedRx) → Type 0
  Costs must n l (t, (tx, rx)) =
      Healthy E tx
      × (rx.broken ≡ false)
      × Sane t
      × ((q : List Message) × Box E.from_slice rx.local q
          × Pays must n l (cost t + mail rx.local q) (live t))

  -- A turn that leaves the mailbox, and costs something.
  abbrev pub Spent : RxLocal → List Message → ℕ → T × Shared E.writer → Type 0
  Spent rx q n (t, tx) = Healthy E tx × Sane t × (cost t < n)

  pub Spent-Costs :
      (must l : Bool) (rx : SharedRx) (q : List Message) (n : ℕ) (p : T × Shared E.writer)
      → rx.broken ≡ false
      → Box E.from_slice rx.local q
      → Spent rx.local q n p
      → Costs must (n + mail rx.local q) l (p.0, (p.1, rx))
  Spent-Costs must l rx q n (t, tx) b h (v, s, lt) = (v, b, s, (q, h, inl (omega arith)))

abbrev pub pipe_cost : Pipe → ℕ
pipe_cost p = events p + length (output p)

abbrev pub copy_cost : Copy → ℕ
copy_cost (selecting b p) = 2 * pipe_cost p + 2
copy_cost (passing p d) = 2 * pipe_cost p + 3
copy_cost (closing d) = 1
copy_cost (Copy.ended r) = 0
copy_cost Copy.aborted = 0

abbrev pub copy_live : Copy → Bool
copy_live (Copy.ended r) = false
copy_live (selecting b p) = true
copy_live (passing p d) = true
copy_live (closing d) = true
copy_live Copy.aborted = true

abbrev pub CopySane : Copy → Type 0
CopySane Copy.aborted = ⊥
CopySane (selecting b p) = Unit
CopySane (passing p d) = Unit
CopySane (closing d) = Unit
CopySane (Copy.ended r) = Unit

length_pos : (d : Bytes) → d ≢ [] → 0 < length d
length_pos [] n = absurd (n refl)
length_pos (b ∷ bs) n = omega arith

module _ (E : Env) (Q : Prompts E) (name : Stream) (is_output : IsOutput name) where
  abbrev pub CopyCosts : Bool → ℕ → Bool → Copy × (Shared E.writer × SharedRx) → Type 0
  CopyCosts = Costs E copy_cost copy_live CopySane

  read_pays :
      (enabled lb : Bool) (p : Pipe) {c : Chunk}
      → Cuts lb p c
      → events c.1 ≤ events p
      → CopySane (copy_read E name enabled c)
        × (copy_cost (copy_read E name enabled c) < 2 * pipe_cost p + 2)
  unfolding copy_read
  read_pays enabled lb p (gives d s' e n k) le =
      (tt, omega (arith, length_pos d n, ap length e, length-append d (output s')))
  read_pays enabled lb p (ended s' e h) le = (tt, omega arith)
  read_pays enabled lb p (waits s' e lt) le = (tt, omega (arith, ap length e))
  read_pays enabled lb p (fails x s' e lt) le = (tt, omega arith)

  -- What a receive leaves to pay for.
  received-Pays :
      (p : Pipe) (r : Poll (Result (Option Stdio))) (n n' : ℕ)
      → Spends E.from_slice (from_stdio name) n n' r
      → Taken E.from_slice (from_stdio name) r
      → CopySane (copy_received E name p r)
        × Pays false
            (2 * pipe_cost p + 2 + n)
            true
            (copy_cost (copy_received E name p r) + n')
            (copy_live (copy_received E name p r))
  unfolding copy_received
  received-Pays p pending n n' s k = (tt, inl (omega arith))
  received-Pays p (ready (err e)) n n' s k = (tt, inr (omega arith, refl, λ m. cc))
  received-Pays p (ready (ok none)) n n' s k = (tt, inr (omega arith, refl, λ m. cc))
  received-Pays p (ready (ok (some (data_of d)))) n n' s k = (tt, inl (omega arith))
  received-Pays p (ready (ok (some closed))) n n' s (m, a, i) =
      absurd (not_closed name is_output m a i)

  copy_received-Costs :
      (p : Pipe) (tx : Shared E.writer) (n : ℕ) (a : Poll (Result (Option Stdio)) × SharedRx)
      → Healthy E tx
      → SharedMails E.from_slice (from_stdio name) n a
      → CopyCosts false (2 * pipe_cost p + 2 + n) true (copy_received E name p a.0, (tx, a.1))
  copy_received-Costs p tx n (r, rx) v (b, (q, h, (s, k))) =
      let (sane, pays) = received-Pays p r n (mail rx.local q) s k in (v, b, sane, (q, h, pays))

  -- A send that is over.
  after_copy_send :
      (d : DoSend) (tx : Shared E.writer) (rx : RxLocal) (q : List Message) (n : ℕ)
      (stay : DoSend → Copy) (go : Result (Unit {0}) → Copy)
      → Healthy E tx
      → ((r : Result (Unit {0})) → CopySane (go r) × (copy_cost (go r) < n))
      → Spent E copy_cost copy_live CopySane rx q n
          (after_send (poll_do_send E.writer d tx) tx Copy.aborted stay go)
  after_copy_send d tx rx q n stay go v h =
      after_send-Sends E Q (Spent E copy_cost copy_live CopySane rx q n) tx Copy.aborted stay go
        (poll_do_send E.writer d tx) (poll_do_send-Sends E Q d tx v)
        (λ r tx' v'. let (sane, lt) = h r in (v', sane, lt))

  passed_pays :
      (p : Pipe) (r : Result (Unit {0}))
      → CopySane (copy_passed E p r) × (copy_cost (copy_passed E p r) < 2 * pipe_cost p + 3)
  unfolding copy_passed
  passed_pays p (ok _) = (tt, omega arith)
  passed_pays p (err e) = (tt, omega arith)

  pub copy_turn-Costs :
      (lb : Bool) (b : Branch) (t : Copy) (tx : Shared E.writer) (rx : SharedRx) (q : List Message)
      → Healthy E tx
      → rx.broken ≡ false
      → Box E.from_slice rx.local q
      → CopySane t
      → CopyCosts
          (is_works b)
          (copy_cost t + mail rx.local q)
          (copy_live t)
          (copy_turn E name lb b t tx rx)
  unfolding copy_turn
  copy_turn-Costs lb works (selecting e p) tx rx q v o h s =
      let c = read_line_or_chunk lb p in
      let (sane, lt) =
        read_pays e lb p (read_line_or_chunk-Cuts lb p) (events-read_line_or_chunk lb p) in
      Spent-Costs E copy_cost copy_live CopySane true true rx q (2 * pipe_cost p + 2)
        (copy_read E name e c, tx) o h (v, sane, lt)
  copy_turn-Costs lb receives (selecting true p) tx rx q v o h s =
      copy_received-Costs p tx (mail rx.local q) (shared_recv (from_stdio name) E.from_slice rx) v
        (shared_recv-Mails E.from_slice (from_stdio name) (all_give_back.stdio_back name) rx q o h)
  copy_turn-Costs lb receives (selecting false p) tx rx q v o h s =
      (v, o, tt, (q, h, inr (omega arith, refl, λ m. cc)))
  copy_turn-Costs lb b (passing p d) tx rx q v o h s =
      Spent-Costs E copy_cost copy_live CopySane (is_works b) true rx q (2 * pipe_cost p + 3) _ o h
        (after_copy_send d tx rx.local q (2 * pipe_cost p + 3) (passing p) (copy_passed E p) v
          (passed_pays p))
  copy_turn-Costs lb b (closing d) tx rx q v o h s =
      Spent-Costs E copy_cost copy_live CopySane (is_works b) true rx q 1 _ o h
        (after_copy_send d tx rx.local q 1 closing Copy.ended v (λ r. (tt, omega arith)))
  copy_turn-Costs lb b (Copy.ended r) tx rx q v o h s =
      (v, o, tt, (q, h, inr (omega arith, refl, λ m. refl)))
  copy_turn-Costs lb b Copy.aborted tx rx q v o h s = absurd s
