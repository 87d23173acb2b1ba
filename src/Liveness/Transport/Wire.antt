-- ===== src/Liveness/Transport/Wire.antt =====
-- The two halves of liveness/protocol/src/io.rs: what a poll of a send puts out, and what is received
-- of the lines.
use minimal_vm_tool.Prelude.{
  ◌≡◌, ◌≢◌, refl, ap, ◌∙◌, sym, subst, Option, none, some, List, [], ◌∷◌, ◌++◌, append-nil,
  append_assoc, Bytes, newline, ◌⊎◌, inl, inr,
}
use minimal_vm_tool.Outcome.{Error, Result, ok, err, Poll, pending, ready}
use minimal_vm_tool.Io.Rx.{position}
use minimal_vm_tool.Liveness.CpuStat.{Float}
use minimal_vm_tool.Liveness.Transport.{
  Status, StatusMessage, status_message, Link, SendState, at_line, at_newline, at_flush, flushed,
  wrote_newline, wrote_line, poll_send, line_received, next_received, poll_recv,
}

-- A line as it is sent.
abbrev pub with_newline : Bytes → Bytes
with_newline line = line ++ newline ∷ []

-- The lines of a stream.
abbrev pub stream_of : List Bytes → Bytes
stream_of [] = []
stream_of (line ∷ lines) = with_newline line ++ stream_of lines

pub stream_of-append : (xs ys : List Bytes) → stream_of (xs ++ ys) ≡ stream_of xs ++ stream_of ys
stream_of-append [] ys = refl
stream_of-append (x ∷ xs) ys =
    ap (λ b. with_newline x ++ b) (stream_of-append xs ys)
    ∙ sym (append_assoc (with_newline x) (stream_of xs) (stream_of ys))

module _ {F : Float} (K : Link F) where
  -- What is relied on of a `BufWriter`: it takes the bytes in order, all of them where `write_all`
  -- succeeds; the flush takes none, and delivers all that were taken where it succeeds.
  pub record Buffers : Type 0 where
    pub taken : K.Conn → Bytes
    pub delivered : K.Conn → Bytes
    pub taken-write_all :
        (c : K.Conn) (b : Bytes)
        → let (r, (c', left)) = K.write_all c b in taken c' ++ left ≡ taken c ++ b
    pub left-write_all :
        (c : K.Conn) (b : Bytes)
        → let (r, (c', left)) = K.write_all c b in r ≡ ready (ok tt) → left ≡ []
    pub taken-flush : (c : K.Conn) → taken (K.flush c).1 ≡ taken c
    pub delivered-flush :
        (c : K.Conn) → (K.flush c).0 ≡ ready (ok tt) → delivered (K.flush c).1 ≡ taken c

  -- The end of a line: what a send has still to give to the writer.
  abbrev pub unsent : SendState → Bytes
  unsent (at_line left) = with_newline left
  unsent (at_newline left) = left
  unsent at_flush = []

  module _ (B : Buffers) where
    -- What is taken or unsent stays so, and all of it is delivered where the send succeeds.
    abbrev pub Puts : Bytes → Poll (Result (Unit {0})) × (SendState × K.Conn) → Type 0
    Puts all (r, (st, c)) =
        (B.taken c ++ unsent st ≡ all)
        × (r ≡ ready (ok tt) → (B.delivered c ≡ all) × (B.taken c ≡ all))

    flushed-Puts :
        (all : Bytes) (p : Poll (Result (Unit {0})) × K.Conn)
        → B.taken p.1 ≡ all
        → (p.0 ≡ ready (ok tt) → (B.delivered p.1 ≡ all) × (B.taken p.1 ≡ all))
        → Puts all (flushed K p)
    unfolding flushed
    flushed-Puts all (pending, c) h d = (append-nil (B.taken c) ∙ h, λ e. absurd (cc e))
    flushed-Puts all (ready (ok _), c) h d = (append-nil (B.taken c) ∙ h, λ e. d refl)
    flushed-Puts all (ready (err x), c) h d = (append-nil (B.taken c) ∙ h, λ e. absurd (cc e))

    flush-Puts : (all : Bytes) (c : K.Conn) → B.taken c ≡ all → Puts all (flushed K (K.flush c))
    flush-Puts all c h =
        flushed-Puts all (K.flush c) (B.taken-flush c ∙ h)
          (λ e. (B.delivered-flush c e ∙ h, B.taken-flush c ∙ h))

    wrote_newline-Puts :
        (all : Bytes) (p : Poll (Result (Unit {0})) × (K.Conn × Bytes))
        → B.taken p.1.0 ++ p.1.1 ≡ all
        → (p.0 ≡ ready (ok tt) → p.1.1 ≡ [])
        → Puts all (wrote_newline K p)
    unfolding wrote_newline
    wrote_newline-Puts all (pending, (c, left)) h n = (h, λ e. absurd (cc e))
    wrote_newline-Puts all (ready (err x), (c, left)) h n = (h, λ e. absurd (cc e))
    wrote_newline-Puts all (ready (ok _), (c, left)) h n =
        flush-Puts all c
          (sym (append-nil (B.taken c)) ∙ ap (λ l. B.taken c ++ l) (sym (n refl)) ∙ h)

    newline-Puts :
        (all : Bytes) (c : K.Conn) (left : Bytes)
        → B.taken c ++ left ≡ all
        → Puts all (wrote_newline K (K.write_all c left))
    newline-Puts all c left h =
        wrote_newline-Puts all (K.write_all c left) (B.taken-write_all c left ∙ h)
          (B.left-write_all c left)

    wrote_line-Puts :
        (all : Bytes) (p : Poll (Result (Unit {0})) × (K.Conn × Bytes))
        → B.taken p.1.0 ++ with_newline p.1.1 ≡ all
        → (p.0 ≡ ready (ok tt) → p.1.1 ≡ [])
        → Puts all (wrote_line K p)
    unfolding wrote_line
    wrote_line-Puts all (pending, (c, left)) h n = (h, λ e. absurd (cc e))
    wrote_line-Puts all (ready (err x), (c, left)) h n = (h, λ e. absurd (cc e))
    wrote_line-Puts all (ready (ok _), (c, left)) h n =
        newline-Puts all c (newline ∷ []) (ap (λ l. B.taken c ++ with_newline l) (sym (n refl)) ∙ h)

    pub poll_send-Puts :
        (all : Bytes) (st : SendState) (c : K.Conn)
        → B.taken c ++ unsent st ≡ all
        → Puts all (poll_send K st c)
    unfolding poll_send
    poll_send-Puts all (at_line left) c h =
        wrote_line-Puts all (K.write_all c left)
          (sym (
              append_assoc (B.taken (K.write_all c left).1.0) (K.write_all c left).1.1
                (newline ∷ []))
            ∙ ap with_newline (B.taken-write_all c left)
            ∙ append_assoc (B.taken c) left (newline ∷ [])
            ∙ h)
          (B.left-write_all c left)
    poll_send-Puts all (at_newline left) c h = newline-Puts all c left h
    poll_send-Puts all at_flush c h = flush-Puts all c (sym (append-nil (B.taken c)) ∙ h)

  -- What is relied on of `Lines`: a line that has no newline, and no carriage return at its end, is
  -- given without its newline; at the end of the stream there is none.
  abbrev pub IsLine : Bytes → Type 0
  IsLine line = (position newline line ≡ none) × ((init : Bytes) → line ≢ init ++ 13 ∷ [])

  pub record Splits : Type 0 where
    pub rest : K.Reader → Bytes
    pub rest-wait : (r : K.Reader) → (K.next_line r).0 ≡ pending → rest (K.next_line r).1 ≡ rest r
    pub next_line-line :
        (r : K.Reader) (line more : Bytes) (got : Result (Option Bytes))
        → IsLine line
        → rest r ≡ with_newline line ++ more
        → (K.next_line r).0 ≡ ready got
        → ((e : Error) × (got ≡ err e)) ⊎ ((got ≡ ok (some line)) × (rest (K.next_line r).1 ≡ more))
    pub next_line-end :
        (r : K.Reader) (got : Result (Option Bytes))
        → rest r ≡ []
        → (K.next_line r).0 ≡ ready got
        → ((e : Error) × (got ≡ err e)) ⊎ (got ≡ ok none)

  -- What is relied on of serde_json.
  pub record IsJson : Type 0 where
    pub reads_back :
        (m : StatusMessage F) (line : Bytes) → K.to_string m ≡ ok line → K.from_str line ≡ ok m
    pub one_line : (m : StatusMessage F) (line : Bytes) → K.to_string m ≡ ok line → IsLine line

  -- The statuses have these lines.
  abbrev pub Written : List (Status F) → List Bytes → Type 0
  Written [] lines = lines ≡ []
  Written (s ∷ ss) lines =
      (line : Bytes) × (rest : List Bytes) × (lines ≡ line ∷ rest)
      × (K.to_string (status_message s) ≡ ok line)
      × Written ss rest

  module _ (S : Splits) (J : IsJson) where
    -- The reader has the lines of the statuses before it.
    abbrev pub Holds : K.Reader → List (Status F) → Type 0
    Holds r ss = (lines : List Bytes) × Written ss lines × (S.rest r ≡ stream_of lines)

    -- What a poll of recv should give.
    abbrev pub Gives : List (Status F) → Poll (Result (Option (Status F))) × K.Reader → Type 0
    Gives ss (pending, r) = Holds r ss
    Gives ss (ready (err e), r) = Unit
    Gives [] (ready (ok got), r) = got ≡ none
    Gives (s ∷ ss) (ready (ok got), r) = (got ≡ some s) × Holds r ss

    line_Gives :
        (s : Status F) (ss : List (Status F)) (line : Bytes) (rest : List Bytes)
        (got : Result (Option Bytes)) (r : K.Reader)
        → K.from_str line ≡ ok (status_message s)
        → Written ss rest
        → (((e : Error) × (got ≡ err e)) ⊎ ((got ≡ ok (some line)) × (S.rest r ≡ stream_of rest)))
        → Gives (s ∷ ss) (next_received K (ready got, r))
    unfolding next_received line_received
    line_Gives s ss line rest got r b w (inl (e, h)) = rw h tt
    line_Gives s ss line rest got r b w (inr (h, m)) = rw (h, b) (refl, (rest, w, m))

    end_Gives :
        (got : Result (Option Bytes)) (r : K.Reader)
        → (((e : Error) × (got ≡ err e)) ⊎ (got ≡ ok none))
        → Gives [] (next_received K (ready got, r))
    unfolding next_received line_received
    end_Gives got r (inl (e, h)) = rw h tt
    end_Gives got r (inr h) = rw h refl

    next_Gives :
        (ss : List (Status F)) (r : K.Reader) (p : Poll (Result (Option Bytes))) (r' : K.Reader)
        → K.next_line r ≡ (p, r')
        → Holds r ss
        → Gives ss (next_received K (p, r'))
    unfolding next_received
    next_Gives ss r pending r' e (lines, w, h) =
        (lines, w, sym (ap (λ q. S.rest q.1) e) ∙ S.rest-wait r (ap (λ q. q.0) e) ∙ h)
    next_Gives [] r (ready got) r' e (lines, w, h) =
        end_Gives got r' (S.next_line-end r got (h ∙ ap stream_of w) (ap (λ q. q.0) e))
    next_Gives (s ∷ ss) r (ready got) r' e (lines, (line, rest, split, to, w), h) =
        line_Gives s ss line rest got r' (J.reads_back (status_message s) line to) w (
          subst
            (λ x.
              ((y : Error) × (got ≡ err y))
              ⊎ ((got ≡ ok (some line)) × (S.rest x ≡ stream_of rest)))
            (ap (λ q. q.1) e)
            (S.next_line-line r line (stream_of rest) got (J.one_line (status_message s) line to)
              (h ∙ ap stream_of split) (ap (λ q. q.0) e)))

    -- Where the reader has the lines of statuses before it, a poll of recv gives the first of them and
    -- leaves the others, or the end where there is none; or it waits with the lines as they were; or it
    -- fails.
    pub poll_recv-Gives :
        (ss : List (Status F)) (r : K.Reader) → Holds r ss → Gives ss (poll_recv K r)
    unfolding poll_recv
    poll_recv-Gives ss r h = next_Gives ss r (K.next_line r).0 (K.next_line r).1 refl h
