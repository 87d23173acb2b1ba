-- ===== src/Tests/Writers.antt =====
-- Two connections: one that takes all that it is given, and a slow one, which takes a byte at every
-- other poll.
use native.Mathlib.Nat.{le_refl}
use minimal_vm_tool.Prelude.{
  ℕ, suc, ◌-◌, ◌≤◌, ◌≡◌, refl, ap, sym, Bool, true, false, List, [], ◌∷◌, ◌++◌, append-nil, length,
  is_empty, take, min, arith, Bytes,
}
use minimal_vm_tool.Outcome.{Result, ok, Poll, pending, ready}
use minimal_vm_tool.Io.Writer.{Writer, Delivers, accepted}
use minimal_vm_tool.Io.Tx.Prompt.{Prompt}

abbrev pub sink : Writer
sink = record {
  Conn = Bytes;
  poll_write = λ w buf. (ready (ok (length buf)), w ++ buf);
  poll_flush = λ w. (ready (ok tt), w);
  poll_shutdown = λ w. (ready (ok tt), w);
}

pub take-length {ℓ} : {A : Type ℓ} (xs : List A) → take (length xs) xs ≡ xs
take-length [] = refl
take-length (x ∷ xs) = ap (◌∷◌ x) (take-length xs)

abbrev pub sink-Delivers : Delivers sink
sink-Delivers = record {
  delivered = λ w. w;
  accepted-le = λ w buf. le_refl (length buf);
  delivered-write = λ w buf. ap (λ b. w ++ b) (sym (take-length buf));
  delivered-flush = λ w. refl;
  delivered-shutdown = λ w. refl;
}

pub one_more : (buf : Bytes) → is_empty buf ≡ false → length buf ≡ suc (length buf - 1)
one_more [] e = cc
one_more (b ∷ bs) e = omega arith

abbrev pub sink-Prompt : Prompt sink
sink-Prompt = record {
  taken = λ w buf. length buf - 1;
  takes = λ w buf e. ap (λ n. ready (ok n)) (one_more buf e);
  flushes = λ w. refl;
}

-- The bytes taken, and whether the next write is taken.
abbrev pub slow_write : Bytes × Bool → Bytes → Poll (Result ℕ) × (Bytes × Bool)
slow_write (out, true) buf = (ready (ok (min 1 (length buf))), (out ++ take 1 buf, false))
slow_write (out, false) buf = (pending, (out, true))

abbrev pub slow : Writer
slow = record {
  Conn = Bytes × Bool;
  poll_write = slow_write;
  poll_flush = λ w. (ready (ok tt), w);
  poll_shutdown = λ w. (ready (ok tt), w);
}

pub slow_accepted : (w : Bytes × Bool) (buf : Bytes) → accepted (slow_write w buf).0 ≤ length buf
slow_accepted (out, true) [] = omega arith
slow_accepted (out, true) (b ∷ bs) = omega arith
slow_accepted (out, false) buf = omega arith

pub slow_delivered :
    (w : Bytes × Bool) (buf : Bytes)
    → (slow_write w buf).1.0 ≡ w.0 ++ take (accepted (slow_write w buf).0) buf
slow_delivered (out, true) [] = refl
slow_delivered (out, true) (b ∷ bs) = ap (λ n. out ++ take n (b ∷ bs)) one
  where
    one : 1 ≡ min 1 (suc (length bs))
    one = omega arith
slow_delivered (out, false) buf = sym (append-nil out)

abbrev pub slow-Delivers : Delivers slow
slow-Delivers = record {
  delivered = λ w. w.0;
  accepted-le = slow_accepted;
  delivered-write = slow_delivered;
  delivered-flush = λ w. refl;
  delivered-shutdown = λ w. refl;
}
