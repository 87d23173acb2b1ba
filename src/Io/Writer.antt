-- ===== src/Io/Writer.antt =====
-- `tokio::io::AsyncWrite`, which the connection implements: a parameter of the model.
use minimal_vm_tool.Prelude.{ℕ, ◌≤◌, ◌≡◌, Bytes, ◌++◌, length, take}
use minimal_vm_tool.Outcome.{Result, ok, err, Poll, pending, ready}

-- The operations. A poll returns the state that the writer is left in.
pub record Writer : Type 1 where
  pub Conn : Type 0
  pub poll_write : Conn → Bytes → Poll (Result ℕ) × Conn
  pub poll_flush : Conn → Poll (Result (Unit {0})) × Conn
  pub poll_shutdown : Conn → Poll (Result (Unit {0})) × Conn

-- How many bytes a `poll_write` took.
abbrev pub accepted : Poll (Result ℕ) → ℕ
accepted pending = 0
accepted (ready (err e)) = 0
accepted (ready (ok n)) = n

-- What tokio documents: a write takes a prefix of the buffer, whose length it returns, and takes
-- nothing where it fails or is not ready; flushing and shutting down take nothing.
pub record Delivers (V : Writer) : Type 0 where
  pub delivered : V.Conn → Bytes
  pub accepted-le : (w : V.Conn) (buf : Bytes) → accepted (V.poll_write w buf).0 ≤ length buf
  pub delivered-write :
      (w : V.Conn) (buf : Bytes)
      → delivered (V.poll_write w buf).1 ≡ delivered w ++ take (accepted (V.poll_write w buf).0) buf
  pub delivered-flush : (w : V.Conn) → delivered (V.poll_flush w).1 ≡ delivered w
  pub delivered-shutdown : (w : V.Conn) → delivered (V.poll_shutdown w).1 ≡ delivered w
