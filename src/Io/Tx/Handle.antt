-- ===== src/Io/Tx/Handle.antt =====
-- `Tx`, `DoSend` and the closing of a connection, of protocol/src/io/tx.rs.
-- The clones of a `Tx` share one `Arc<Mutex<…>>`: its contents are passed to each operation and
-- returned by it. `none` is a panic.
pub mod Delivery
pub mod Progress
pub mod Closed
pub mod Prepare
pub mod Single
pub mod Shuts
use minimal_vm_tool.Prelude.{
  ℕ, zero, suc, Bool, true, false, Option, none, some, List, [], ◌∷◌, is_empty, drop, if◌then◌else◌,
  map, Flow, again, done, loop, length, String,
}
use minimal_vm_tool.Outcome.{
  Error, plain, context, Result, ok, err, Poll, pending, ready, with_context, ◌>>=◌,
}
use minimal_vm_tool.Io.Writer.{Writer}
use minimal_vm_tool.Io.Tx.{Sending, TxLocal, new, poll_flush, poll_send}
use minimal_vm_tool.Prelude.{Bytes}

-- `Mutex<TxLocalDrop<W>>`: whether the mutex is poisoned, and the writer or why there is none.
pub record Shared (V : Writer) : Type 0 where
  pub broken : Bool
  pub local : Result (TxLocal V)

-- `DoSend`, without its `tx`.
pub record DoSend : Type 0 where
  pub msgs : Result (List Sending)
  pub flush : Bool

abbrev pub mutex_broken : Error
mutex_broken = plain "BUG: Tx Mutex broken"

abbrev pub was_closed : Error
was_closed = plain "Tx was closed"

-- What an executor that polls a `DoSend` a number of times comes to.
pub data Awaited {ℓ κ} (A : Type ℓ) (S : Type κ) : Type (ℓ ⊔ κ) where
  waiting : S → Awaited A S
  finished : A → S → Awaited A S
  panicked : Awaited A S

module _ (V : Writer) where
  -- `Tx::new`.
  unfoldable pub new_tx : V.Conn → Shared V
  unfolding new
  new_tx w = record { broken = false; local = ok (new V w) }

  -- `Tx::poll_flush`.
  unfoldable pub shared_flush : Shared V → Poll (Result (Unit {0})) × Shared V
  shared_flush s = if s.broken then (ready (err mutex_broken), s) else elim s.local [
    | ok tx ↦ let (r, tx') = poll_flush V tx in (r, record s { local = ok tx' })
    | err e ↦ (ready (err e), s)
  ]

  -- `Tx::poll_send`.
  unfoldable pub shared_send : Sending → Shared V → Poll (Result (Unit {0})) × (Shared V × Sending)
  shared_send msg s = if s.broken then (ready (err mutex_broken), (s, msg)) else elim s.local [
    | ok tx ↦ let (r, (tx', msg')) = poll_send V msg tx in (r, (record s { local = ok tx' }, msg'))
    | err e ↦ (ready (err e), (s, msg))
  ]

  -- The body of the `while let` of `DoSend::poll`, at what `poll_send` returned.
  pub sent :
      List Sending
      → (Shared V → Option (Poll (Result (Unit {0})) × (Shared V × List Sending)))
      → Poll (Result (Unit {0})) × (Shared V × Sending)
      → Option (Poll (Result (Unit {0})) × (Shared V × List Sending))
  sent msgs rest (pending, (s, msg)) = some (pending, (s, msg ∷ msgs))
  sent msgs rest (ready (err e), (s, msg)) = some (ready (err e), (s, msg ∷ msgs))
  sent msgs rest (ready (ok _), (s, none)) = rest s
  sent msgs rest (ready (ok _), (s, some m)) = none

  unfoldable pub poll_msgs :
      List Sending → Shared V → Option (Poll (Result (Unit {0})) × (Shared V × List Sending))
  unfolding sent
  poll_msgs [] s = some (ready (ok tt), (s, []))
  poll_msgs (msg ∷ msgs) s = sent msgs (poll_msgs msgs) (shared_send msg s)

  -- What `DoSend::poll` does after its loop.
  pub finish :
      Bool
      → Poll (Result (Unit {0})) × (Shared V × List Sending)
      → Poll (Result (Unit {0})) × (Shared V × List Sending)
  finish true (ready (ok _), (s, msgs)) = let (r, s') = shared_flush s in (r, (s', msgs))
  finish true other = other
  finish false other = other

  unfoldable pub poll_do_send :
      DoSend → Shared V → Option (Poll (Result (Unit {0})) × (Shared V × DoSend))
  unfolding finish
  poll_do_send d s = elim d.msgs [
    | err e ↦ some (ready (err e), (s, d))
    | ok msgs ↦ elim (poll_msgs msgs s) [
      | none ↦ none
      | some polled ↦
          let (r, (s', msgs')) = finish d.flush polled in
          some (r, (s', record d { msgs = ok msgs' }))
    ]
  ]

  unfoldable pub polled :
      Option (Poll (Result (Unit {0})) × (Shared V × DoSend))
      → (Shared V → DoSend → Awaited (Result (Unit {0})) (Shared V × DoSend))
      → Awaited (Result (Unit {0})) (Shared V × DoSend)
  polled none go_on = panicked
  polled (some (pending, (s, d))) go_on = go_on s d
  polled (some (ready r, (s, d))) go_on = finished r (s, d)

  unfoldable pub await_send :
      ℕ → Shared V → DoSend → Awaited (Result (Unit {0})) (Shared V × DoSend)
  unfolding polled
  await_send zero s d = waiting (s, d)
  await_send (suc n) s d = polled (poll_do_send d s) (await_send n)

  -- The states of the future `TxLocal::close`: before the end of its loop, and at the shutdown.
  pub data Closing : Type 0 where
    draining shutting : TxLocal V → Closing

  -- A round of its loop, at what `write` returned. What a failed write leaves is lost.
  unfoldable pub drained : TxLocal V → Poll (Result ℕ) × V.Conn → Flow (TxLocal V) (Closing)
  drained s (pending, w) = done (draining (record s { writer = w }))
  drained s (ready (err e), w) = done (shutting (record s { writer = w }))
  drained s (ready (ok zero), w) = done (shutting (record s { writer = w }))
  drained s (ready (ok (suc n)), w) =
      again (record { writer = w; transmitting = drop (suc n) s.transmitting })

  unfoldable pub drain_round : TxLocal V → Flow (TxLocal V) Closing
  unfolding drained
  drain_round s =
      if is_empty s.transmitting
      then done (shutting s)
      else drained s (V.poll_write s.writer s.transmitting)

  unfoldable pub drain : TxLocal V → Closing
  drain s = loop draining drain_round (λ t. length t.transmitting) s

  -- `self.writer.shutdown().await.context(…)?; Ok(self.writer)`.
  unfoldable pub shut :
      TxLocal V → Poll (Result (Unit {0})) × V.Conn → Poll (Result V.Conn) × Closing
  shut s (pending, w) = (pending, shutting (record s { writer = w }))
  shut s (ready (err e), w) =
      (ready (err (context "Failed to shutdown connection" e)), shutting (record s { writer = w }))
  shut s (ready (ok _), w) = (ready (ok w), shutting (record s { writer = w }))

  unfoldable pub shutdown : Closing → Poll (Result V.Conn) × Closing
  unfolding shut
  shutdown (draining s) = (pending, draining s)
  shutdown (shutting s) = shut s (V.poll_shutdown s.writer)

  -- A poll of `TxLocal::close`.
  unfoldable pub poll_close : Closing → Poll (Result V.Conn) × Closing
  poll_close (draining s) = shutdown (drain s)
  poll_close (shutting s) = shutdown (shutting s)

  -- The states of the future `Tx::close`: at its flush, and at `TxLocal::close`.
  pub data CloseState : Type 0 where
    flushing : CloseState
    closing : Closing → CloseState

  -- `Tx::close` from the `mem::replace` on: the handle is left saying that it was closed.
  unfoldable pub take_local : Shared V → Poll (Result V.Conn) × (CloseState × Shared V)
  take_local s = elim s.local [
    | err e ↦ (ready (err e), (flushing, record s { local = err was_closed }))
    | ok tx ↦
        let (r, c) = poll_close (draining tx) in
        (r, (closing c, record s { local = err was_closed }))
  ]

  unfoldable pub flushed :
      Poll (Result (Unit {0})) × Shared V → Poll (Result V.Conn) × (CloseState × Shared V)
  flushed (pending, s) = (pending, (flushing, s))
  flushed (ready (err e), s) = (ready (err e), (flushing, s))
  flushed (ready (ok _), s) =
      if s.broken then (ready (err mutex_broken), (flushing, s)) else take_local s

  -- A poll of `Tx::close`.
  unfoldable pub poll_close_tx :
      CloseState → Shared V → Poll (Result V.Conn) × (CloseState × Shared V)
  unfolding flushed take_local
  poll_close_tx flushing s = flushed (shared_flush s)
  poll_close_tx (closing c) s = let (r, c') = poll_close c in (r, (closing c', s))

  -- `TxLocalDrop::drop`: what is left in the slot, and the future that is spawned.
  pub drop_local : Result (TxLocal V) → Result (TxLocal V) × Option Closing
  drop_local (ok tx) = (err (plain "Tx was dropped"), some (draining tx))
  drop_local (err e) = (err (plain "Tx was dropped"), none)

-- An item in front of those that `filter_map` collects, and what `prepare_msgs` makes of them.
abbrev pub keep : Option Sending → List Sending → List Sending
keep (some s) rest = s ∷ rest
keep none rest = rest

abbrev pub joined : List Sending × Option Error → Result (List Sending)
joined (msgs, none) = ok msgs
joined (msgs, some e) = err e

-- `Sending::new` and `DoSend::prepare_msgs`, over the messages `M` and serde_json's serializer.
module _ {M : Type 0} (to_vec : M → Result Bytes) (describe : M → String) where
  pub new_sending : M → Result Sending
  new_sending m = do bytes ← with_context "Failed to serialize message" (to_vec m); ok (some bytes)

  -- The `match` in the closure of `filter_map`: `none` is an item that is left out.
  pub prepared : M → Result Sending → Option Sending × Option Error
  prepared m (ok s) = (some s, none)
  prepared m (err e) = (none, some (context (describe m) e))

  -- The closure, with the first error in `error`.
  pub prepare_one : Option Error → M → Option Sending × Option Error
  unfolding new_sending prepared
  prepare_one (some e) m = (none, some e)
  prepare_one none m = prepared m (new_sending m)

  pub prepare_from : Option Error → List M → List Sending × Option Error
  unfolding prepare_one
  prepare_from error [] = ([], error)
  prepare_from error (m ∷ ms) =
      let (item, error') = prepare_one error m in
      let (rest, last) = prepare_from error' ms in (keep item rest, last)

  unfoldable pub prepare_msgs : List M → Result (List Sending)
  unfolding prepare_from
  prepare_msgs ms = joined (prepare_from none ms)

  -- `Tx::send`, `Tx::send_and_flush`.
  unfoldable pub send : List M → DoSend
  send ms = record { msgs = prepare_msgs ms; flush = false }

  unfoldable pub send_and_flush : List M → DoSend
  send_and_flush ms = record { msgs = prepare_msgs ms; flush = true }

-- `Tx::flush`.
unfoldable pub flush_all : DoSend
flush_all = record { msgs = ok []; flush = true }
