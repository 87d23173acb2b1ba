-- ===== src/Liveness/Text.antt =====
-- The operations of `str` that the liveness agent uses. A text is the list of its characters.
use Prim.Native.Char.{code}
use minimal_vm_tool.Prelude.{
  ℕ, ◌+◌, ◌-◌, ◌*◌, ◌^◌, Bool, true, false, ◌&&◌, ◌||◌, Option, none, some, List, [], ◌∷◌, String,
  ltb, leb, ◌==◌, if◌then◌else◌, is_empty,
}

abbrev pub Text : Type 0
Text = List ℕ

-- The characters of a literal.
abbrev pub codes : String → Text
codes String.[] = []
codes (String.◌∷◌ c s) = code c ∷ codes s

-- Equality of texts.
unfoldable pub same : Text → Text → Bool
same [] [] = true
same [] (d ∷ ds) = false
same (c ∷ cs) [] = false
same (c ∷ cs) (d ∷ ds) = c == d && same cs ds

unfoldable pub strip_prefix : Text → Text → Option Text
strip_prefix [] text = some text
strip_prefix (p ∷ ps) [] = none
strip_prefix (p ∷ ps) (c ∷ cs) = if c == p then strip_prefix ps cs else none

-- `char::is_whitespace`.
unfoldable pub is_whitespace : ℕ → Bool
is_whitespace c =
    (leb 9 c && leb c 13)
    || c == 32
    || c == 0x85
    || c == 0xa0
    || c == 0x1680
    || (leb 0x2000 c && leb c 0x200a)
    || c == 0x2028
    || c == 0x2029
    || c == 0x202f
    || c == 0x205f
    || c == 0x3000

-- A piece, unless it is empty, in front of others.
abbrev pub piece : Text → List Text → List Text
piece [] rest = rest
piece (c ∷ cs) rest = (c ∷ cs) ∷ rest

-- The text up to the first character that `cut` is true of, and the non-empty pieces after it.
unfoldable pub pieces : (ℕ → Bool) → Text → Text × List Text
pieces cut [] = ([], [])
pieces cut (c ∷ cs) =
    let (first, rest) = pieces cut cs in if cut c then ([], piece first rest) else (c ∷ first, rest)

unfoldable pub split_whitespace : Text → List Text
unfolding pieces is_whitespace
split_whitespace text = let (first, rest) = pieces is_whitespace text in piece first rest

-- `split(c)`: empty pieces count.
pub split_at : ℕ → Text → Text × List Text
split_at sep [] = ([], [])
split_at sep (c ∷ cs) =
    let (first, rest) = split_at sep cs in
    if c == sep then ([], first ∷ rest) else (c ∷ first, rest)

unfoldable pub split : ℕ → Text → List Text
unfolding split_at
split sep text = let (first, rest) = split_at sep text in first ∷ rest

-- A digit of a radix of at most 10.
unfoldable pub digit : ℕ → ℕ → Option ℕ
digit radix c = if leb b'0' c && ltb (c - b'0') radix then some (c - b'0') else none

unfoldable pub digits_from : ℕ → ℕ → ℕ → Text → Option ℕ
digits_from radix limit n [] = some n
digits_from radix limit n (c ∷ cs) = elim (digit radix c) [
  | none ↦ none
  | some d ↦ if ltb (n * radix + d) limit then digits_from radix limit (n * radix + d) cs else none
]

-- `from_str_radix` of an unsigned type whose values are below `limit`: one `+` may stand in front.
unfoldable pub from_str_radix : ℕ → ℕ → Text → Option ℕ
unfolding digits_from digit
from_str_radix radix limit [] = none
from_str_radix radix limit (c ∷ cs) =
    if c == b'+'
    then if is_empty cs then none else digits_from radix limit 0 cs
    else digits_from radix limit 0 (c ∷ cs)

abbrev pub u64_limit : ℕ
u64_limit = 2 ^ 64

-- `parse::<u64>().ok()`.
abbrev pub parse_u64 : Text → Option ℕ
parse_u64 text = from_str_radix 10 u64_limit text

-- `Option::or`.
abbrev pub or_else : {A : Type 0} → Option A → Option A → Option A
or_else (some a) other = some a
or_else none other = other

-- `find_map` over lines.
unfoldable pub find_map : {A : Type 0} → (Text → Option A) → List Text → Option A
find_map f [] = none
find_map f (line ∷ lines) = or_else (f line) (find_map f lines)
