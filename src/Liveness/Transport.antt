-- ===== src/Liveness/Transport.antt =====
-- `Tx` and `Rx` of liveness/protocol/src/io.rs, and the messages of liveness/protocol/src/lib.rs: a
-- status is one line of JSON.
pub mod Wire
use minimal_vm_tool.Prelude.{ℕ, Option, none, some, List, [], ◌∷◌, Bytes, newline}
use minimal_vm_tool.Outcome.{Result, ok, err, Poll, pending, ready, with_context, context, ◌>>=◌}
use minimal_vm_tool.Liveness.CpuStat.{Float}
use minimal_vm_tool.Liveness.MemInfo.{Usage}
use minimal_vm_tool.Liveness.Mounts.{FileSystemUsage}
use minimal_vm_tool.Liveness.Systemd.{SystemdState}

pub record Status (F : Float) : Type 0 where
  pub systemd : SystemdState
  pub cpu_percent : F.F64
  pub memory : Usage
  pub swap : Usage
  pub disks : List FileSystemUsage

-- `Message`, with one kind.
pub data StatusMessage (F : Float) : Type 0 where
  status_message : Status F → StatusMessage F

-- tokio's `BufWriter` and `Lines`, and serde_json. A poll of `write_all` gives the bytes that it has
-- not written.
pub record Link (F : Float) : Type 1 where
  pub Conn : Type 0
  pub Reader : Type 0
  pub write_all : Conn → Bytes → Poll (Result (Unit {0})) × (Conn × Bytes)
  pub flush : Conn → Poll (Result (Unit {0})) × Conn
  pub next_line : Reader → Poll (Result (Option Bytes)) × Reader
  pub to_string : StatusMessage F → Result Bytes
  pub from_str : Bytes → Result (StatusMessage F)

-- Where `Tx::send` is: at its first `write_all`, at that of the newline, or at the flush.
pub data SendState : Type 0 where
  at_line at_newline : Bytes → SendState
  at_flush : SendState

module _ {F : Float} (K : Link F) where
  -- `Tx::send` up to its first await.
  unfoldable pub send : Status F → Result SendState
  send s = with_context "serializing status" (K.to_string (status_message s)) >>= λ line.
      ok (at_line line)

  -- What each await of `send` does with its poll.
  pub flushed : Poll (Result (Unit {0})) × K.Conn → Poll (Result (Unit {0})) × (SendState × K.Conn)
  flushed (pending, c) = (pending, (at_flush, c))
  flushed (ready r, c) = (ready (with_context "flushing status" r), (at_flush, c))

  pub wrote_newline :
      Poll (Result (Unit {0})) × (K.Conn × Bytes) → Poll (Result (Unit {0})) × (SendState × K.Conn)
  unfolding flushed
  wrote_newline (pending, (c, left)) = (pending, (at_newline left, c))
  wrote_newline (ready (err e), (c, left)) =
      (ready (err (context "writing status newline" e)), (at_newline left, c))
  wrote_newline (ready (ok _), (c, left)) = flushed (K.flush c)

  pub wrote_line :
      Poll (Result (Unit {0})) × (K.Conn × Bytes) → Poll (Result (Unit {0})) × (SendState × K.Conn)
  unfolding wrote_newline
  wrote_line (pending, (c, left)) = (pending, (at_line left, c))
  wrote_line (ready (err e), (c, left)) =
      (ready (err (context "writing status" e)), (at_line left, c))
  wrote_line (ready (ok _), (c, left)) = wrote_newline (K.write_all c (newline ∷ []))

  -- A poll of `Tx::send`.
  unfoldable pub poll_send : SendState → K.Conn → Poll (Result (Unit {0})) × (SendState × K.Conn)
  unfolding wrote_line wrote_newline flushed
  poll_send (at_line left) c = wrote_line (K.write_all c left)
  poll_send (at_newline left) c = wrote_newline (K.write_all c left)
  poll_send at_flush c = flushed (K.flush c)

  pub status_of : StatusMessage F → Option (Status F)
  status_of (status_message s) = some s

  pub line_received : Result (Option Bytes) → Result (Option (Status F))
  unfolding status_of
  line_received (ok (some line)) =
      with_context "deserializing liveness message" (K.from_str line) >>= λ message.
      ok (status_of message)
  line_received (ok none) = ok none
  line_received (err e) = err (context "reading liveness line" e)

  -- A poll of `Rx::recv`.
  pub next_received :
      Poll (Result (Option Bytes)) × K.Reader → Poll (Result (Option (Status F))) × K.Reader
  unfolding line_received
  next_received (pending, r) = (pending, r)
  next_received (ready line, r) = (ready (line_received line), r)

  pub poll_recv : K.Reader → Poll (Result (Option (Status F))) × K.Reader
  unfolding next_received
  poll_recv r = next_received (K.next_line r)
