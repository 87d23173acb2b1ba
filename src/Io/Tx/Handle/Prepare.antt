-- ===== src/Io/Tx/Handle/Prepare.antt =====
-- `DoSend::prepare_msgs` against a plain description: the messages are serialized in order, and
-- the first one that fails fails the whole send.
use minimal_vm_tool.Prelude.{
  ◌≡◌, refl, ap, ◌∙◌, Option, none, some, List, [], ◌∷◌, Bytes, String, arith,
}
use minimal_vm_tool.Outcome.{Error, context, Result, ok, err, ◌>>=◌, with_context}
use minimal_vm_tool.Io.Tx.{Sending}
use minimal_vm_tool.Io.Tx.Handle.{
  new_sending, prepared, prepare_one, keep, joined, prepare_from, prepare_msgs,
}

module _ {M : Type 0} (to_vec : M → Result Bytes) (describe : M → String) where
  abbrev pub serialized_one : M → Result Bytes → Result Sending
  serialized_one m (ok b) = ok (some b)
  serialized_one m (err e) = err (context (describe m) (context "Failed to serialize message" e))

  abbrev pub serialized : List M → Result (List Sending)
  serialized [] = ok []
  serialized (m ∷ ms) = do s ← serialized_one m (to_vec m); rest ← serialized ms; ok (s ∷ rest)

  prepare_failed :
      (e : Error) (ms : List M) → prepare_from to_vec describe (some e) ms ≡ ([], some e)
  unfolding prepare_from prepare_one
  prepare_failed e [] = refl
  prepare_failed e (m ∷ ms) = ground (arith, prepare_failed e ms)

  joined_cons :
      (s : Sending) (p : List Sending × Option Error)
      → joined (s ∷ p.0, p.1) ≡ (do rest ← joined p; ok (s ∷ rest))
  joined_cons s (msgs, none) = refl
  joined_cons s (msgs, some e) = refl

  prepare_one-eq :
      (m : M) (ms : List M) (r : Result Bytes)
      → joined (prepare_from to_vec describe none ms) ≡ serialized ms
      → let one =
          prepared to_vec describe m
            (with_context "Failed to serialize message" r >>= λ b. ok (some b)) in
        let rest = prepare_from to_vec describe one.1 ms in
        joined (keep one.0 rest.0, rest.1)
        ≡ (do s ← serialized_one m r; tail ← serialized ms; ok (s ∷ tail))
  unfolding prepared
  prepare_one-eq m ms (ok b) ih =
      joined_cons (some b) (prepare_from to_vec describe none ms)
      ∙ ap (λ x. do tail ← x; ok (some b ∷ tail)) ih
  prepare_one-eq m ms (err e) ih =
      ap joined (prepare_failed (context (describe m) (context "Failed to serialize message" e)) ms)

  prepare_from-eq : (ms : List M) → joined (prepare_from to_vec describe none ms) ≡ serialized ms
  unfolding prepare_from prepare_one new_sending
  prepare_from-eq [] = refl
  prepare_from-eq (m ∷ ms) = prepare_one-eq m ms (to_vec m) (prepare_from-eq ms)

  -- The messages of a send are the serialized messages in order, or the error of the first one that
  -- does not serialize, with its two contexts.
  pub prepare_msgs-eq-serialized : (ms : List M) → prepare_msgs to_vec describe ms ≡ serialized ms
  unfolding prepare_msgs
  prepare_msgs-eq-serialized ms = prepare_from-eq ms
