-- ===== src/Agent/Tasks/Killing.antt =====
-- The task `exit`: the calls of kill(2) that it makes for the messages of the host.
use minimal_vm_tool.Prelude.{
  ◌≡◌, refl, ap, ◌∙◌, sym, subst, Option, none, some, List, [], ◌∷◌, ◌++◌, append-nil, append_assoc,
  ◌⊎◌, inl, inr, map, ℕ,
}
use minimal_vm_tool.Prelude.Int.{ℤ, pos}
use minimal_vm_tool.Outcome.{Result, ok, err, Poll, pending, ready}
use minimal_vm_tool.Protocol.{Message, Kill, from_kill}
use minimal_vm_tool.Protocol.Kinds.{all_give_back}
use minimal_vm_tool.Io.Rx.Recv.{SharedRx, shared_recv}
use minimal_vm_tool.Io.Rx.Recv.Share.{
  wanted, left_by, taken_by, wanted-left_by, Polled, shared_recv-Polled,
}
use minimal_vm_tool.Io.Tx.Handle.{Shared, poll_do_send}
use minimal_vm_tool.Agent.Process.{
  Process, Wait, KillCall, signal_pid, poll_wait, drop_wait, drop_process,
}
use minimal_vm_tool.Agent.Process.Signals.{
  Settles, poll_wait-Settles, HasId, Ready, Keeps, poll_wait-Keeps, dropped, signal_at,
  drop_process_at,
}
use minimal_vm_tool.Agent.Tasks.{
  Env, Watch, watching, reporting, Branch, works, receives, after_send, Sent, watch_ended,
  watch_waited, watch_received, watch_reported, watch_turn,
}
use minimal_vm_tool.Agent.Tasks.Hearing.{feed_type, kill_feed_apart, InOrder}

map-append :
    {A B : Type 0} (f : A → B) (xs : List A) (y : A) → map f (xs ++ y ∷ []) ≡ map f xs ++ f y ∷ []
map-append f [] y = refl
map-append f (x ∷ xs) y = ap (◌∷◌ (f x)) (map-append f xs y)

-- What tokio documents of a child: it has its pid as long as it has not been waited for.
pub record KeepsId (E : Env) : Type 0 where
  pub keeps :
      (c c' : E.child.Child) → E.child.child_wait c ≡ (pending, c') → E.child.id c' ≡ E.child.id c

module _ (E : Env) (L : KeepsId E) (pid : ℕ) (all : List Kill) where
  -- The call that a message asks for.
  abbrev pub call_for : Kill → KillCall
  call_for k = signal_pid E.child pid k.signal

  -- The calls for the first signals, and what is left of the others.
  abbrev pub Answers : List KillCall → List Kill → Type 0
  Answers calls w = (handled : List Kill) × (calls ≡ map call_for handled) × (all ≡ handled ++ w)

  abbrev pub AnswersSome : List KillCall → Type 0
  AnswersSome calls = (w : List Kill) × Answers calls w

  -- So much, and perhaps the kill of a process that is dropped.
  abbrev pub KilledLast : List KillCall → Type 0
  KilledLast calls =
      AnswersSome calls
      ⊎ ((before : List KillCall) × (calls ≡ before ++ signal_pid E.child pid (pos 9) ∷ [])
          × AnswersSome before)

  -- The calls so far, by where the task is and what is still wanted.
  abbrev pub Kills : List KillCall → List Kill → Watch E.child → Type 0
  Kills calls w (watching wait p) =
      HasId E.child pid p × Ready E.child L.keeps wait p × Answers calls w
  Kills calls w (reporting p d) = ((drop_process E.child p).0 ≡ []) × AnswersSome calls
  Kills calls w (Watch.ended (ok _)) = AnswersSome calls
  Kills calls w (Watch.ended (err e)) = KilledLast calls
  Kills calls w Watch.aborted = Unit

  same_calls : (calls more : List KillCall) → more ≡ [] → calls ++ more ≡ calls
  same_calls calls more e = ap (λ x. calls ++ x) e ∙ append-nil calls

  abbrev Adds : List KillCall → List Kill → Watch E.child × List KillCall → Type 0
  Adds calls w (t, more) = Kills (calls ++ more) w t

  watch_waited-Adds :
      (calls : List KillCall) (w : List Kill) (q : Poll (Result ℤ) × (Wait × Process E.child))
      → Answers calls w
      → Keeps E.child L.keeps pid q
      → Settles E.child (pos 9) q.0 q.1.1
      → Adds calls w (watch_waited E q)
  unfolding watch_waited watch_ended
  watch_waited-Adds calls w (pending, (wait, p)) a k s =
      (k.0, k.1, subst (λ c. Answers c w) (sym (append-nil calls)) a)
  watch_waited-Adds calls w (ready (err e), (wait, p)) a k s = inl (
    w,
    subst (λ c. Answers c w) (sym (same_calls calls (drop_process E.child p).0 (ap (λ x. x.0) s.1)))
        a,
  )
  watch_waited-Adds calls w (ready (ok status), (wait, p)) a k s =
      (ap (λ x. x.0) s.1, (w, subst (λ c. Answers c w) (sym (append-nil calls)) a))

  watch_received-Adds :
      (calls : List KillCall) (w w' : List Kill) (wait : Wait) (p : Process E.child)
      (r : Poll (Result (Option Kill)))
      → HasId E.child pid p
      → Ready E.child L.keeps wait p
      → Answers calls w
      → w ≡ taken_by from_kill r ++ w'
      → Adds calls w' (watch_received E wait p r)
  unfolding watch_received watch_ended
  watch_received-Adds calls w w' wait p pending v h (hs, c, a) e =
      (v, h, (hs, append-nil calls ∙ c, a ∙ ap (λ x. hs ++ x) e))
  watch_received-Adds calls w w' wait p (ready (err x)) v h a e =
      let d = dropped E.child L.keeps pid wait p v h in
      inr (
        calls,
        ap (λ x. calls ++ x)
            (drop_process_at E.child L.keeps pid (drop_wait E.child wait p) d.0 d.1),
        (w, a),
      )
  watch_received-Adds calls w w' wait p (ready (ok none)) v h (hs, c, a) e =
      let d = dropped E.child L.keeps pid wait p v h in
      (d.0, d.1, (hs, append-nil calls ∙ c, a ∙ ap (λ x. hs ++ x) e))
  watch_received-Adds calls w w' wait p (ready (ok (some k))) v h (hs, c, a) e =
      let d = dropped E.child L.keeps pid wait p v h in
      let p' = drop_wait E.child wait p in
      (
        d.0,
        d.1,
        (
          hs ++ k ∷ [],
          ap (λ x. calls ++ x) (signal_at E.child L.keeps pid p' k.signal d.0 d.1)
              ∙ ap (λ x. x ++ call_for k ∷ []) c
              ∙ sym (map-append call_for hs k),
          a ∙ ap (λ x. hs ++ x) e ∙ sym (append_assoc hs (k ∷ []) w'),
        ),
      )

  after_reporting :
      (calls : List KillCall) (w : List Kill) (p : Process E.child) (o : Sent E.writer)
      (tx : Shared E.writer)
      → ((drop_process E.child p).0 ≡ [])
      → AnswersSome calls
      → Adds calls w
          (watch_reported E p (after_send o tx Watch.aborted (reporting p) Watch.ended).0)
  unfolding watch_reported watch_ended
  after_reporting calls w p none tx n a = tt
  after_reporting calls w p (some (pending, (tx', d))) tx n a =
      (n, subst AnswersSome (sym (append-nil calls)) a)
  after_reporting calls w p (some (ready (ok _), (tx', d))) tx n a =
      subst AnswersSome (sym (same_calls calls (drop_process E.child p).0 n)) a
  after_reporting calls w p (some (ready (err e), (tx', d))) tx n a =
      inl (subst AnswersSome (sym (same_calls calls (drop_process E.child p).0 n)) a)

  -- After a turn of `exit`, with a mailbox that has all the input that there was.
  abbrev pub KillTurns :
      List KillCall
      → List Message
      → (Watch E.child × List KillCall) × (Shared E.writer × SharedRx)
      → Type 0
  KillTurns calls q ((t, more), (tx, rx)) =
      (q' : List Message) × InOrder E rx q'
      × Kills (calls ++ more) (wanted from_kill q') t
      × (wanted feed_type q ≡ wanted feed_type q')

  watching-KillTurns :
      (calls : List KillCall) (wait : Wait) (p : Process E.child) (q : List Message)
      (tx : Shared E.writer) (a : Poll (Result (Option Kill)) × SharedRx)
      → Kills calls (wanted from_kill q) (watching wait p)
      → Polled E.from_slice from_kill all_give_back.kill_back q a
      → KillTurns calls q (watch_received E wait p a.0, (tx, a.1))
  watching-KillTurns calls wait p q tx (r, rx) (v, h, ans) (b, (box, e, x)) = (
    left_by from_kill q r,
    (b, box),
    watch_received-Adds calls (wanted from_kill q) (wanted from_kill (left_by from_kill q r)) wait p
        r v h ans e,
    wanted-left_by from_kill feed_type kill_feed_apart q r,
  )

  no_calls :
      (calls : List KillCall) (w : List Kill) (t : Watch E.child)
      → Kills calls w t
      → Kills (calls ++ []) w t
  no_calls calls w t = subst (λ c. Kills c w t) (sym (append-nil calls))

  pub watch_turn-KillTurns :
      (b : Branch) (t : Watch E.child) (calls : List KillCall) (q : List Message)
      (tx : Shared E.writer) (rx : SharedRx)
      → InOrder E rx q
      → Kills calls (wanted from_kill q) t
      → KillTurns calls q (watch_turn E b t tx rx)
  unfolding watch_turn
  watch_turn-KillTurns works (watching wait p) calls q tx rx o (v, h, ans) = (
    q,
    o,
    watch_waited-Adds calls (wanted from_kill q) (poll_wait E.child wait p) ans
        (poll_wait-Keeps E.child L.keeps pid wait p v h) (poll_wait-Settles E.child (pos 9) wait p),
    refl,
  )
  watch_turn-KillTurns receives (watching wait p) calls q tx rx o k =
      watching-KillTurns calls wait p q tx (shared_recv from_kill E.from_slice rx) k
        (shared_recv-Polled E.from_slice from_kill all_give_back.kill_back rx q o.0 o.1)
  watch_turn-KillTurns b (reporting p d) calls q tx rx o (n, a) =
      (q, o, after_reporting calls (wanted from_kill q) p (poll_do_send E.writer d tx) tx n a, refl)
  watch_turn-KillTurns b (Watch.ended r) calls q tx rx o k =
      (q, o, no_calls calls (wanted from_kill q) (Watch.ended r) k, refl)
  watch_turn-KillTurns b Watch.aborted calls q tx rx o k = (q, o, k, refl)
