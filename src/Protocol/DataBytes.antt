-- ===== src/Protocol/DataBytes.antt =====
-- protocol/src/data_bytes.rs: stream data on the wire, a string where it is ASCII and a byte
-- sequence where it is not. The serialization format is a parameter.
use minimal_vm_tool.Prelude.{
  ℕ, ◌<◌, ◌≡◌, refl, ap, ◌∙◌, sym, Bool, true, ◌&&◌, List, [], ◌∷◌, ◌++◌, map, append-nil,
  append_assoc, Bytes, ltb, if◌then◌else◌, ◌⊎◌, inl, inr, Bool-cases,
}
use minimal_vm_tool.Outcome.{plain, Result, ok, err}

-- The call that a deserializer makes on the visitor. `visit_seq` is given what each `next_element`
-- returns.
pub data Visit : Type 0 where
  visit_bytes visit_borrowed_bytes visit_byte_buf visit_str visit_borrowed_str : Bytes → Visit
  visit_seq : List (Result ℕ) → Visit
  visit_other : Visit

-- A format: `Serializer::serialize_str`, `Serializer::serialize_bytes` and
-- `Deserializer::deserialize_any`. Strings are their UTF-8 octets.
pub record Format : Type 1 where
  pub Wire : Type 0
  pub serialize_str : Bytes → Wire
  pub serialize_bytes : Bytes → Wire
  pub deserialize_any : Wire → Visit

abbrev pub All {ℓ} : {A : Type ℓ} → (A → Type 0) → List A → Type 0
All P [] = Unit
All P (x ∷ xs) = P x × All P xs

abbrev pub IsOctet : ℕ → Type 0
IsOctet b = b < 256

-- What serde documents of a self-describing format: it reads a string as a string, and the bytes
-- as bytes or, as serde_json does, as a sequence of numbers.
pub record IsSelfDescribing (F : Format) : Type 0 where
  pub str_visit :
      (s : Bytes)
      → (F.deserialize_any (F.serialize_str s) ≡ visit_str s)
        ⊎ (F.deserialize_any (F.serialize_str s) ≡ visit_borrowed_str s)
  pub bytes_visit :
      (b : Bytes)
      → All IsOctet b
      → (F.deserialize_any (F.serialize_bytes b) ≡ visit_seq (map ok b))
        ⊎ (F.deserialize_any (F.serialize_bytes b) ≡ visit_byte_buf b)

pub is_ascii : Bytes → Bool
is_ascii [] = true
is_ascii (b ∷ bs) = ltb b 128 && is_ascii bs

-- `while let Some(byte) = seq.next_element()? { buf.extend_from_slice(&[byte]) }`.
pub read_seq : Bytes → List (Result ℕ) → Result Bytes
read_seq buf [] = ok buf
read_seq buf (ok byte ∷ rest) = read_seq (buf ++ byte ∷ []) rest
read_seq buf (err e ∷ rest) = err e

-- `Visitor`. Its `expecting` words the error of a call that it does not implement.
pub visit : Visit → Result Bytes
unfolding read_seq
visit (visit_bytes v) = ok v
visit (visit_borrowed_bytes v) = ok v
visit (visit_byte_buf v) = ok v
visit (visit_str v) = ok v
visit (visit_borrowed_str v) = ok v
visit (visit_seq seq) = read_seq [] seq
visit visit_other = err (plain "a byte array or a UTF-8 string")

module _ (F : Format) where
  -- `from_utf8` succeeds on ASCII, and changes nothing.
  pub serialize : Bytes → F.Wire
  unfolding is_ascii
  serialize b = if is_ascii b then F.serialize_str b else F.serialize_bytes b

  pub deserialize : F.Wire → Result Bytes
  unfolding visit
  deserialize w = visit (F.deserialize_any w)

read_seq-map : (buf b : Bytes) → read_seq buf (map ok b) ≡ ok (buf ++ b)
unfolding read_seq
read_seq-map buf [] = ap ok (sym (append-nil buf))
read_seq-map buf (x ∷ b) = read_seq-map (buf ++ x ∷ []) b ∙ ap ok (append_assoc buf (x ∷ []) b)

-- Stream data comes back from a self-describing format as it was, whether it is ASCII or not, where
-- it is octets.
pub deserialize-serialize :
    (F : Format)
    → IsSelfDescribing F
    → (b : Bytes) → All IsOctet b
    → deserialize F (serialize F b) ≡ ok b
unfolding deserialize serialize
deserialize-serialize F D b h = elim (Bool-cases (is_ascii b)) [
  | inl a ↦ rw a (elim (D.str_visit b) [ inl e ↦ rw e refl | inr e ↦ rw e refl ])
  | inr a ↦ rw a (elim (D.bytes_visit b h) [ inl e ↦ rw e (read_seq-map [] b) | inr e ↦ rw e refl ])
]
