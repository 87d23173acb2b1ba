-- ===== src/Io/Rx/Lines.antt =====
-- The lines of a byte stream: what a receiver should see of it.
use minimal_vm_tool.Prelude.{
  ℕ, zero, suc, ◌≡◌, ◌<◌, ◌≢◌, refl, ap, ap₂, ◌∙◌, sym, none, some, List, [], ◌∷◌, ◌++◌, append-nil,
  drop, take, ◌==◌, if◌then◌else◌, arith, Bytes, newline, length,
}
use minimal_vm_tool.Io.Rx.{position}

-- A line, unless it is empty, in front of others.
abbrev pub keep : Bytes → List Bytes → List Bytes
keep [] rest = rest
keep (b ∷ bs) rest = (b ∷ bs) ∷ rest

-- The bytes up to the first newline, and the non-empty lines after it.
pub split : Bytes → Bytes × List Bytes
split [] = ([], [])
split (c ∷ cs) =
    let (line, rest) = split cs in if c == newline then ([], keep line rest) else (c ∷ line, rest)

-- The non-empty lines; the last one need not end in a newline.
unfoldable pub lines : Bytes → List Bytes
unfolding split
lines bs = let (line, rest) = split bs in keep line rest

split_at :
    (bs d : Bytes) (ix : ℕ)
    → position newline bs ≡ some ix
    → split (bs ++ d) ≡ (take ix bs, lines (drop (suc ix) bs ++ d))
unfolding lines position
split_at [] d ix e = cc
split_at (c ∷ cs) d zero e = ground arith
split_at (c ∷ cs) d (suc ix) e = ground (arith, split_at cs d ix)

-- A newline ends the first line.
pub lines_at :
    (bs d : Bytes) (ix : ℕ)
    → position newline bs ≡ some ix
    → lines (bs ++ d) ≡ keep (take ix bs) (lines (drop (suc ix) bs ++ d))
unfolding lines
lines_at bs d ix e = ap (λ (p : Bytes × List Bytes). keep p.0 p.1) (split_at bs d ix e)

split-none : (bs : Bytes) → position newline bs ≡ none → split bs ≡ (bs, [])
unfolding split position
split-none [] e = refl
split-none (c ∷ cs) e = ground (arith, split-none cs)

-- Without a newline there is one line.
pub lines-none : (bs : Bytes) → position newline bs ≡ none → lines bs ≡ keep bs []
unfolding lines
lines-none bs e = ap (λ (p : Bytes × List Bytes). keep p.0 p.1) (split-none bs e)

-- A newline that is put behind a last line
pub position-append_newline :
    (bs : Bytes)
    → position newline bs ≡ none
    → position newline (bs ++ newline ∷ []) ≡ some (length bs)
unfolding position
position-append_newline [] e = refl
position-append_newline (c ∷ cs) e = ground (arith, position-append_newline cs)

pub take-length-append : (bs d : Bytes) → take (length bs) (bs ++ d) ≡ bs
take-length-append [] d = refl
take-length-append (c ∷ cs) d = ap (◌∷◌ c) (take-length-append cs d)

pub position-lt : (bs : Bytes) (ix : ℕ) → position newline bs ≡ some ix → ix < length bs
unfolding position
position-lt [] ix e = cc
position-lt (c ∷ cs) zero e = omega arith
position-lt (c ∷ cs) (suc ix) e = ground (arith, position-lt cs ix)

pub keep-take :
    (bs : Bytes) (ix : ℕ) (rest : List Bytes)
    → suc ix < length bs
    → keep (take (suc ix) bs) rest ≡ take (suc ix) bs ∷ rest
keep-take [] ix rest h = absurd (omega arith)
keep-take (c ∷ cs) ix rest h = refl

drop-suc-length : (bs : Bytes) (x : ℕ) → drop (suc (length bs)) (bs ++ x ∷ []) ≡ []
drop-suc-length [] x = refl
drop-suc-length (c ∷ cs) x = drop-suc-length cs x

-- A newline after the last line changes no line.
pub lines-append_newline :
    (bs : Bytes) → position newline bs ≡ none → lines (bs ++ newline ∷ []) ≡ lines bs
unfolding lines split
lines-append_newline bs e =
    ap lines (sym (append-nil (bs ++ newline ∷ [])))
    ∙ lines_at (bs ++ newline ∷ []) [] (length bs) (position-append_newline bs e)
    ∙ ap₂ (λ a b. keep a (lines (b ++ []))) (take-length-append bs (newline ∷ []))
        (drop-suc-length bs newline)
    ∙ sym (lines-none bs e)

pub lines-nil : lines [] ≡ []
unfolding lines split
lines-nil = refl

keep_ne_nil : (bs : Bytes) (rest : List Bytes) → bs ≢ [] → keep bs rest ≡ bs ∷ rest
keep_ne_nil [] rest h = absurd (h refl)
keep_ne_nil (c ∷ cs) rest h = refl

-- A line with its newline is the first line of what it stands in front of.
pub lines-line :
    (bs d : Bytes)
    → position newline bs ≡ none
    → bs ≢ []
    → lines ((bs ++ newline ∷ []) ++ d) ≡ bs ∷ lines d
lines-line bs d e h =
    lines_at (bs ++ newline ∷ []) d (length bs) (position-append_newline bs e)
    ∙ ap₂ (λ a b. keep a (lines (b ++ d))) (take-length-append bs (newline ∷ []))
        (drop-suc-length bs newline)
    ∙ keep_ne_nil bs (lines d) h
