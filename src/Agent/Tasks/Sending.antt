-- ===== src/Agent/Tasks/Sending.antt =====
-- What has been sent, as a list of messages, and how a poll of a task's send extends it.
use minimal_vm_tool.Prelude.{
  ◌≡◌, refl, ap, ◌∙◌, sym, Option, none, some, List, [], ◌∷◌, ◌++◌, append-nil, append_assoc, Bytes,
  ◌⊎◌, inl, inr, String,
}
use minimal_vm_tool.Outcome.{Error, Result, ok, err, pending, ready, ◌>>=◌}
use minimal_vm_tool.Protocol.{Message, Stdio, Stream, named, in_stream, out_stream, err_stream}
use minimal_vm_tool.Io.Writer.{Delivers}
use minimal_vm_tool.Io.Tx.{Sending}
use minimal_vm_tool.Io.Tx.Output.{frame}
use minimal_vm_tool.Io.Tx.Handle.{Shared, DoSend, send, send_and_flush, poll_do_send}
use minimal_vm_tool.Io.Tx.Handle.Delivery.{frames, output_of}
use minimal_vm_tool.Io.Tx.Handle.Prepare.{serialized, serialized_one, prepare_msgs-eq-serialized}
use minimal_vm_tool.Io.Tx.Handle.Single.{
  Unsent, Taken, TakesOne, poll_do_send-TakesOne, Rests, poll_do_send-Rests, poll_do_send-err,
}
use minimal_vm_tool.Agent.Tasks.{Env, on_stream, Sent, after_send, send_one, send_last}

-- The messages of one stream.
abbrev pub of_stream : Option Stdio → List Stdio → List Stdio
of_stream (some s) rest = s ∷ rest
of_stream none rest = rest

abbrev pub on : Stream → List Message → List Stdio
on name [] = []
on name (m ∷ log) = of_stream (named name m) (on name log)

of_stream-append :
    (o : Option Stdio) (xs ys : List Stdio) → of_stream o (xs ++ ys) ≡ of_stream o xs ++ ys
of_stream-append none xs ys = refl
of_stream-append (some s) xs ys = refl

pub on-append :
    (name : Stream) (log more : List Message) → on name (log ++ more) ≡ on name log ++ on name more
on-append name [] more = refl
on-append name (m ∷ log) more =
    ap (of_stream (named name m)) (on-append name log more)
    ∙ of_stream-append (named name m) (on name log) (on name more)

pub on-append_own :
    (name : Stream) (log : List Message) (s : Stdio)
    → on name (log ++ on_stream name s ∷ []) ≡ on name log ++ s ∷ []
unfolding named
on-append_own in_stream log s = on-append in_stream log (on_stream in_stream s ∷ [])
on-append_own out_stream log s = on-append out_stream log (on_stream out_stream s ∷ [])
on-append_own err_stream log s = on-append err_stream log (on_stream err_stream s ∷ [])

pub on-append_other :
    (name : Stream) (log : List Message) (m : Message)
    → named name m ≡ none
    → on name (log ++ m ∷ []) ≡ on name log
on-append_other name log m e =
    on-append name log (m ∷ [])
    ∙ ap (λ o. on name log ++ of_stream o []) e
    ∙ append-nil (on name log)

frames-append : (xs ys : List Sending) → frames (xs ++ ys) ≡ frames xs ++ frames ys
frames-append [] ys = refl
frames-append (x ∷ xs) ys =
    ap (λ f. frame x ++ f) (frames-append xs ys)
    ∙ sym (append_assoc (frame x) (frames xs) (frames ys))

module _ (to_vec : Message → Result Bytes) (describe : Message → String) where
  serialized_step :
      (m : Message) (r : Result Bytes) (log : List Message) (n : Message) (b : Bytes)
      (t t' : Result (List Sending)) (ss : List Sending)
      → ((rest : List Sending) → t ≡ ok rest → t' ≡ ok (rest ++ some b ∷ []))
      → (do s ← serialized_one to_vec describe m r; rest ← t; ok (s ∷ rest)) ≡ ok ss
      → (do s ← serialized_one to_vec describe m r; rest ← t'; ok (s ∷ rest))
        ≡ ok (ss ++ some b ∷ [])
  serialized_step m (err e) log n b t t' ss ih h = cc
  serialized_step m (ok x) log n b (err e) t' ss ih h = cc
  serialized_step m (ok x) log n b (ok rest) t' ss ih h =
      let e : ss ≡ some x ∷ rest = cc in rw (ih rest refl, e) refl

  serialized-append :
      (log : List Message) (n : Message) (b : Bytes) (ss : List Sending)
      → to_vec n ≡ ok b
      → serialized to_vec describe log ≡ ok ss
      → serialized to_vec describe (log ++ n ∷ []) ≡ ok (ss ++ some b ∷ [])
  serialized-append [] n b ss e h = let x : ss ≡ [] = cc in rw (e, x) refl
  serialized-append (m ∷ log) n b ss e h =
      serialized_step m (to_vec m) log n b (serialized to_vec describe log)
        (serialized to_vec describe (log ++ n ∷ [])) ss (λ rest. serialized-append log n b rest e) h

module _ (E : Env) (D : Delivers E.writer) where
  -- After `base`, the sender has put out the lines of `log`.
  abbrev pub Wired : Bytes → List Message → Shared E.writer → Type 0
  Wired base log tx =
      (ss : List Sending) × (serialized E.to_vec E.describe log ≡ ok ss)
      × (output_of E.writer D tx.local ≡ base ++ frames ss)

  -- A send of `m` that has not been taken: it failed to serialize, or has its line.
  abbrev pub Outgoing : Message → DoSend → Type 0
  Outgoing m d =
      ((e : Error) × (d.msgs ≡ err e))
      ⊎ ((b : Bytes) × (E.to_vec m ≡ ok b) × (d.msgs ≡ ok (some b ∷ [])))

  one_prepared :
      (m : Message) (r : Result Bytes)
      → E.to_vec m ≡ r
      → (d : DoSend) → d.msgs ≡ (do s ← serialized_one E.to_vec E.describe m r; ok (s ∷ []))
      → Outgoing m d
  one_prepared m (ok b) e d h = inr (b, e, h)
  one_prepared m (err x) e d h = inl (_, h)

  pub send_one-Outgoing : (m : Message) → Outgoing m (send_one E m)
  unfolding send
  send_one-Outgoing m =
      one_prepared m (E.to_vec m) refl (send_one E m)
        (prepare_msgs-eq-serialized E.to_vec E.describe (m ∷ []))

  pub send_last-Outgoing : (m : Message) → Outgoing m (send_last E m)
  unfolding send_and_flush
  send_last-Outgoing m =
      one_prepared m (E.to_vec m) refl (send_last E m)
        (prepare_msgs-eq-serialized E.to_vec E.describe (m ∷ []))

  -- What a poll of such a send leaves: the message is still outgoing, or it is the last of the log.
  abbrev pub Posts : Bytes → List Message → Message → Sent E.writer → Type 0
  Posts base log m none = ⊥
  Posts base log m (some (r, (tx, d))) =
      (Wired base log tx × Outgoing m d × Unsent r) ⊎ (Wired base (log ++ m ∷ []) tx × Taken d.msgs)

  Posts-of_TakesOne :
      (base : Bytes) (log : List Message) (m : Message) (tx : Shared E.writer) (b : Bytes)
      (o : Sent E.writer)
      → Wired base log tx
      → E.to_vec m ≡ ok b
      → TakesOne E.writer D tx (some b) o
      → Posts base log m o
  Posts-of_TakesOne base log m tx b none w e h = h
  Posts-of_TakesOne base log m tx b (some (r, (tx', d))) (ss, s, out) e (inl (left, same, u)) =
      inl ((ss, s, same ∙ out), inr (b, e, left), u)
  Posts-of_TakesOne base log m tx b (some (r, (tx', d))) (ss, s, out) e (inr (taken, more)) = inr (
    (
      ss ++ some b ∷ [],
      serialized-append E.to_vec E.describe log m b ss e s,
      more
          ∙ ap (λ x. x ++ frame (some b)) out
          ∙ append_assoc base (frames ss) (frame (some b))
          ∙ ap (λ x. base ++ x)
              (ap (λ x. frames ss ++ x) (sym (append-nil (frame (some b))))
                ∙ sym (frames-append ss (some b ∷ []))),
    ),
    taken,
  )

  pub poll_do_send-Posts :
      (base : Bytes) (log : List Message) (m : Message) (tx : Shared E.writer) (d : DoSend)
      → Wired base log tx
      → Outgoing m d
      → Posts base log m (poll_do_send E.writer d tx)
  poll_do_send-Posts base log m tx d w (inl (e, h)) =
      rw (poll_do_send-err E.writer D tx d e h) (inl (w, inl (e, h), tt))
  poll_do_send-Posts base log m tx d w (inr (b, e, h)) =
      Posts-of_TakesOne base log m tx b (poll_do_send E.writer d tx) w e
        (poll_do_send-TakesOne E.writer D tx d (some b) h)

  module _ {T : Type 0} (P : List Message → T → Type 0) where
    -- A task that has gone on, and the log as it is then: as before, or with `m` at its end.
    abbrev pub Goes : Bytes → List Message → Message → T × Shared E.writer → Type 0
    Goes base log m (t, tx) =
        (log' : List Message) × Wired base log' tx
        × P log' t
        × ((log' ≡ log) ⊎ (log' ≡ log ++ m ∷ []))

    pub after_send-Goes :
        (base : Bytes) (log : List Message) (m : Message) (tx : Shared E.writer) (panic : T)
        (stay : DoSend → T) (go : Result (Unit {0}) → T) (o : Sent E.writer)
        → Posts base log m o
        → ((d : DoSend) → Outgoing m d → P log (stay d))
        → ((d : DoSend) → Taken d.msgs → P (log ++ m ∷ []) (stay d))
        → ((e : Error) → P log (go (err e)))
        → ((r : Result (Unit {0})) → P (log ++ m ∷ []) (go r))
        → Goes base log m (after_send o tx panic stay go)
    after_send-Goes base log m tx panic stay go none p a b c x = absurd p
    after_send-Goes base log m tx panic stay go (some (pending, (tx', d))) (inl (w, i, u)) a b c x =
        (log, w, a d i, inl refl)
    after_send-Goes base log m tx panic stay go (some (ready (err e), (tx', d))) (inl (w, i, u)) a b
          c x =
        (log, w, c e, inl refl)
    after_send-Goes base log m tx panic stay go (some (ready (ok _), (tx', d))) (inl (w, i, u)) a b
          c x =
        absurd u
    after_send-Goes base log m tx panic stay go (some (pending, (tx', d))) (inr (w, t)) a b c x =
        (log ++ m ∷ [], w, b d t, inr refl)
    after_send-Goes base log m tx panic stay go (some (ready r, (tx', d))) (inr (w, t)) a b c x =
        (log ++ m ∷ [], w, x r, inr refl)

    after_rest :
        (base : Bytes) (log : List Message) (m : Message) (tx : Shared E.writer) (panic : T)
        (stay : DoSend → T) (go : Result (Unit {0}) → T) (o : Sent E.writer)
        → Wired base log tx
        → Rests E.writer D tx o
        → ((d : DoSend) → Taken d.msgs → P log (stay d))
        → ((r : Result (Unit {0})) → P log (go r))
        → Goes base log m (after_send o tx panic stay go)
    after_rest base log m tx panic stay go none w h a x = absurd h
    after_rest base log m tx panic stay go (some (pending, (tx', d))) (ss, s, out) (t, same) a x =
        (log, (ss, s, same ∙ out), a d t, inl refl)
    after_rest base log m tx panic stay go (some (ready r, (tx', d))) (ss, s, out) (t, same) a x =
        (log, (ss, s, same ∙ out), x r, inl refl)

    pub after-Taken-Goes :
        (base : Bytes) (log : List Message) (m : Message) (tx : Shared E.writer) (panic : T)
        (stay : DoSend → T) (go : Result (Unit {0}) → T) (d : DoSend)
        → Wired base log tx
        → Taken d.msgs
        → ((d' : DoSend) → Taken d'.msgs → P log (stay d'))
        → ((r : Result (Unit {0})) → P log (go r))
        → Goes base log m (after_send (poll_do_send E.writer d tx) tx panic stay go)
    after-Taken-Goes base log m tx panic stay go d w t a x =
        after_rest base log m tx panic stay go (poll_do_send E.writer d tx) w
          (poll_do_send-Rests E.writer D tx d t) a x
