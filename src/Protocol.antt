-- ===== src/Protocol.antt =====
-- protocol/src/lib.rs: the messages of the exec protocol, and `FromMessage`.
pub mod Kinds
pub mod DataBytes
pub mod StdioTrue
use minimal_vm_tool.Prelude.{ℕ, String, Bool, Option, none, some, List, Bytes, ◌+◌, ◌*◌}
use minimal_vm_tool.Prelude.Int.{ℤ}

-- `u32::from_be_bytes`.
unfoldable pub from_be_bytes : ℕ → ℕ → ℕ → ℕ → ℕ
from_be_bytes a b c d = ((a * 256 + b) * 256 + c) * 256 + d

unfoldable pub port : ℕ
unfolding from_be_bytes
port = from_be_bytes b'e' b'x' b'e' b'c'

pub record Exec : Type 0 where
  pub prog : String
  pub args : List String
  pub pwd : Option String
  pub user : Option String
  pub line_buffered_io : Option Bool

pub record Started : Type 0 where
  pub pid : ℕ

-- `Stdio`: `Data(bytes)`, and `Closed` (`Priv__Closed(StdioTrue::True)`).
pub data Stdio : Type 0 where
  data_of : Bytes → Stdio
  closed : Stdio

pub record Exited : Type 0 where
  pub status : ℤ

pub record Kill : Type 0 where
  pub signal : ℤ

pub record Failure : Type 0 where
  pub message : String

-- `no_op` is `Priv__NoOp`.
pub data Message : Type 0 where
  exec : Exec → Message
  started : Started → Message
  stdin stdout stderr : Stdio → Message
  kill : Kill → Message
  exited : Exited → Message
  error : Failure → Message
  no_op : Message

-- `Result<Self, Message>`, the result of `from_message`.
pub data Converted (A : Type 0) : Type 0 where
  is : A → Converted A
  is_not : Message → Converted A

-- The implementations of `FromMessage::from_message`.
unfoldable pub from_exec : Message → Converted Exec
from_exec (exec e) = is e
from_exec msg = is_not msg

unfoldable pub from_started : Message → Converted Started
from_started (started s) = is s
from_started msg = is_not msg

unfoldable pub from_exited : Message → Converted Exited
from_exited (exited e) = is e
from_exited msg = is_not msg

unfoldable pub from_kill : Message → Converted Kill
from_kill (kill k) = is k
from_kill msg = is_not msg

unfoldable pub from_error : Message → Converted Failure
from_error (error e) = is e
from_error msg = is_not msg

-- The `$NAME` of the macro `fromStdioMessage`.
pub data Stream : Type 0 where
  in_stream out_stream err_stream : Stream

-- The pattern `Message::$NAME(stdio)`.
unfoldable pub named : Stream → Message → Option Stdio
named in_stream (stdin s) = some s
named out_stream (stdout s) = some s
named err_stream (stderr s) = some s
named _ _ = none

-- `FromMessage for $NAME<Stdio>`.
unfoldable pub from_stdio : Stream → Message → Converted Stdio
unfolding named
from_stdio name msg = elim (named name msg) [ some s ↦ is s | none ↦ is_not msg ]

-- `FromMessage for $NAME<Closed>`.
unfoldable pub from_closed : Stream → Message → Converted (Unit {0})
unfolding named
from_closed name msg = elim (named name msg) [ some closed ↦ is tt | _ ↦ is_not msg ]

-- `FromMessage for $NAME<Bytes>`.
unfoldable pub from_bytes : Stream → Message → Converted Bytes
unfolding named
from_bytes name msg = elim (named name msg) [ some (data_of b) ↦ is b | _ ↦ is_not msg ]

-- `FromMessage for $NAME<Option<Bytes>>`.
unfoldable pub from_bytes_or_closed : Stream → Message → Converted (Option Bytes)
unfolding named
from_bytes_or_closed name msg = elim (named name msg) [
  | some (data_of b) ↦ is (some b)
  | some closed ↦ is none
  | none ↦ is_not msg
]

-- `FromMessage for AnyMessage`, of the tests.
unfoldable pub from_any : Message → Converted Message
from_any msg = is msg
