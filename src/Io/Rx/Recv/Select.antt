-- ===== src/Io/Rx/Recv/Select.antt =====
-- `MsgBuffer::pop` takes the first message of the wanted type out of the queue.
use minimal_vm_tool.Prelude.{
  suc, ◌≡◌, refl, ap, ap₂, ◌∙◌, sym, Option, none, some, List, [], ◌∷◌, ◌++◌, append-cons, arith,
  length, length-append, get_or, set, erase_idx,
}
use minimal_vm_tool.Protocol.{Message, no_op, Converted, is, is_not}
use minimal_vm_tool.Protocol.Kinds.{GivesBack}
use minimal_vm_tool.Io.Rx.Recv.{popped, pop_from, pop}

module _ {ℓ} {X : Type ℓ} where
  get_or-middle :
      (xs : List X) (y : X) (ys : List X) (d : X) → get_or (xs ++ y ∷ ys) (length xs) d ≡ y
  get_or-middle [] y ys d = refl
  get_or-middle (x ∷ xs) y ys d = get_or-middle xs y ys d

  set-middle :
      (xs : List X) (y : X) (ys : List X) (v : X) → set (xs ++ y ∷ ys) (length xs) v ≡ xs ++ v ∷ ys
  set-middle [] y ys v = refl
  set-middle (x ∷ xs) y ys v = ap (◌∷◌ x) (set-middle xs y ys v)

  erase_idx-middle :
      (xs : List X) (y : X) (ys : List X) → erase_idx (xs ++ y ∷ ys) (length xs) ≡ xs ++ ys
  erase_idx-middle [] y ys = refl
  erase_idx-middle (x ∷ xs) y ys = ap (◌∷◌ x) (erase_idx-middle xs y ys)

module _ {A : Type 0} (f : Message → Converted A) where
  -- A message that was selected, with one in front that was not.
  abbrev pub behind : Message → Option (A × List Message) → Option (A × List Message)
  behind msg none = none
  behind msg (some (a, rest)) = some (a, msg ∷ rest)

  abbrev pub select_at :
      Message → List Message → Option (A × List Message) → Converted A → Option (A × List Message)
  select_at msg msgs later (is a) = some (a, msgs)
  select_at msg msgs later (is_not _) = behind msg later

  -- The first message that converts, and the others in order.
  unfoldable pub select : List Message → Option (A × List Message)
  select [] = none
  select (msg ∷ msgs) = select_at msg msgs (select msgs) (f msg)

  abbrev pub selected : List Message → Option (A × List Message) → Option A × List Message
  selected queue none = (none, queue)
  selected queue (some (a, rest)) = (some a, rest)

  -- What `pop` gives from an index on, by the messages before it.
  abbrev selected_after :
      List Message → List Message → Option (A × List Message) → Option A × List Message
  selected_after front queue none = (none, front ++ queue)
  selected_after front queue (some (a, rest)) = (some a, front ++ rest)

  shift :
      (front : List Message) (msg : Message) (queue : List Message) (o : Option (A × List Message))
      → selected_after (front ++ msg ∷ []) queue o
        ≡ selected_after front (msg ∷ queue) (behind msg o)
  shift front msg queue none = ap (λ q. (none, q)) (append-cons front msg queue)
  shift front msg queue (some (a, rest)) = ap (λ q. (some a, q)) (append-cons front msg rest)

  after_nothing :
      (queue : List Message) (o : Option (A × List Message))
      → selected_after [] queue o ≡ selected queue o
  after_nothing queue none = refl
  after_nothing queue (some (a, rest)) = refl

  -- What is selected behind messages of other types.
  abbrev pub after : List Message → Option (A × List Message) → Option (A × List Message)
  after front none = none
  after front (some (a, rest)) = some (a, front ++ rest)

  behind-after :
      (msg : Message) (front : List Message) (o : Option (A × List Message))
      → behind msg (after front o) ≡ after (msg ∷ front) o
  behind-after msg front none = refl
  behind-after msg front (some (a, rest)) = refl

  pub select-append_of_none :
      (q r : List Message) → select q ≡ none → select (q ++ r) ≡ after q (select r)
  unfolding select
  select-append_of_none [] r e = ground (arith)
  select-append_of_none (msg ∷ q) r e = ground (arith, select-append_of_none q r)

  some_at :
      (msg : Message) (q r : List Message) (c : Converted A) (o : Option (A × List Message)) (a : A)
      (rest : List Message)
      → select q ≡ o
      → ((b : A) (t : List Message) → select q ≡ some (b, t) → select (q ++ r) ≡ some (b, t ++ r))
      → select_at msg q o c ≡ some (a, rest)
      → select_at msg (q ++ r) (select (q ++ r)) c ≡ some (a, rest ++ r)
  some_at msg q r (is x) o a rest e ih h = ground arith
  some_at msg q r (is_not m) none a rest e ih h = cc
  some_at msg q r (is_not m) (some (b, t)) a rest e ih h = ground (arith, ih b t e)

  pub select-append_of_some :
      (q r : List Message) (a : A) (rest : List Message)
      → select q ≡ some (a, rest)
      → select (q ++ r) ≡ some (a, rest ++ r)
  unfolding select
  select-append_of_some [] r a rest e = cc
  select-append_of_some (msg ∷ q) r a rest e =
      some_at msg q r (f msg) (select q) a rest refl (select-append_of_some q r) e

  module _ (back : GivesBack f) where
    popped-eq :
        (front : List Message) (msg : Message) (queue : List Message)
        (next : List Message → Option A × List Message) (c : Converted A)
        → f msg ≡ c
        → next (front ++ msg ∷ queue) ≡ selected_after (front ++ msg ∷ []) queue (select queue)
        → popped f next (length front) (front ++ no_op ∷ queue) c
          ≡ selected_after front (msg ∷ queue) (select_at msg queue (select queue) c)
    unfolding popped
    popped-eq front msg queue next (is a) e ih =
        ap (λ q. (some a, q)) (erase_idx-middle front no_op queue)
    popped-eq front msg queue next (is_not msg') e ih =
        ap next (set-middle front no_op queue msg' ∙ ap (λ m. front ++ m ∷ queue) (back msg msg' e))
        ∙ ih
        ∙ shift front msg queue (select queue)

    pop_from-eq :
        (front queue : List Message)
        → pop_from f (length queue) (length front) (front ++ queue)
          ≡ selected_after front queue (select queue)
    unfolding pop_from select
    pop_from-eq front [] = refl
    pop_from-eq front (msg ∷ queue) =
        rw (get_or-middle front msg queue no_op, set-middle front msg queue no_op)
          (popped-eq front msg queue (pop_from f (length queue) (suc (length front))) (f msg) refl (
            sym (
              ap₂ (pop_from f (length queue)) (omega (arith, length-append front (msg ∷ [])))
                (append-cons front msg queue))
            ∙ pop_from-eq (front ++ msg ∷ []) queue))

    -- Where a conversion gives a message that it refuses back unchanged, pop gives the first
    -- message of the queue that converts and leaves the others in order, and leaves the queue as it
    -- was where there is none.
    pub pop-eq-selected : (queue : List Message) → pop f queue ≡ selected queue (select queue)
    unfolding pop
    pop-eq-selected queue = pop_from-eq [] queue ∙ after_nothing queue (select queue)
