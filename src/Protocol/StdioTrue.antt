-- ===== src/Protocol/StdioTrue.antt =====
-- `StdioTrue` of protocol/src/lib.rs, which stands behind `closed` on the wire: the Boolean that is
-- true. The serialization format is a parameter.
use minimal_vm_tool.Prelude.{◌≡◌, refl, Bool, true, false}
use minimal_vm_tool.Outcome.{plain, Result, ok, err, ◌>>=◌}

pub data StdioTrue : Type 0 where
  stdio_true : StdioTrue

-- `Serializer::serialize_bool`, and the `Deserialize` of `bool`.
pub record BoolFormat : Type 1 where
  pub Wire : Type 0
  pub serialize_bool : Bool → Wire
  pub deserialize_bool : Wire → Result Bool

module _ (F : BoolFormat) where
  unfoldable pub serialize : StdioTrue → F.Wire
  serialize stdio_true = F.serialize_bool true

  unfoldable pub expect_true : Bool → Result StdioTrue
  expect_true true = ok stdio_true
  expect_true false = err (plain "Expected true")

  unfoldable pub deserialize : F.Wire → Result StdioTrue
  unfolding expect_true
  deserialize w = F.deserialize_bool w >>= expect_true

  -- Of the Booleans that a format reads back, the one that is written is accepted, and only that one.
  pub deserialize_lem :
      ((b : Bool) → F.deserialize_bool (F.serialize_bool b) ≡ ok b)
      → ((t : StdioTrue) → deserialize (serialize t) ≡ ok t)
        × (deserialize (F.serialize_bool false) ≡ err (plain "Expected true"))
  unfolding deserialize serialize expect_true
  deserialize_lem back = (
    (λ t. elim t as (λ k. deserialize (serialize k) ≡ ok k) [ stdio_true ↦ rw (back true) refl ]),
    rw (back false) refl,
  )
