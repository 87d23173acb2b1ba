-- ===== src/Protocol/Kinds.antt =====
-- Who receives which message: the implementations of `FromMessage` against one another.
use minimal_vm_tool.Prelude.{◌≡◌, refl, Bool, true, false, Option, none, some, arith, ◌⊎◌, inl, inr}
use minimal_vm_tool.Protocol.{
  Message, exec, started, stdin, stdout, stderr, kill, exited, error, no_op, Converted, is, is_not,
  from_exec, from_started, from_exited, from_kill, from_error, Stream, in_stream, out_stream,
  err_stream, from_stdio, from_closed, from_bytes, from_bytes_or_closed,
}

-- A conversion that gives a message back gives back the message that it was given.
abbrev pub GivesBack : {A : Type 0} → (Message → Converted A) → Type 0
GivesBack f = (msg msg' : Message) → f msg ≡ is_not msg' → msg' ≡ msg

-- The types that the agent and its hosts receive.
pub data Kind : Type 0 where
  an_exec a_started an_exited a_kill an_error : Kind
  a_stdio : Stream → Kind

abbrev converts : {A : Type 0} → Converted A → Bool
converts (is a) = true
converts (is_not msg) = false

unfoldable pub accepts : Kind → Message → Bool
accepts an_exec msg = converts (from_exec msg)
accepts a_started msg = converts (from_started msg)
accepts an_exited msg = converts (from_exited msg)
accepts a_kill msg = converts (from_kill msg)
accepts an_error msg = converts (from_error msg)
accepts (a_stdio name) msg = converts (from_stdio name msg)

kind_of : Message → Option Kind
kind_of (exec _) = some an_exec
kind_of (started _) = some a_started
kind_of (stdin _) = some (a_stdio in_stream)
kind_of (stdout _) = some (a_stdio out_stream)
kind_of (stderr _) = some (a_stdio err_stream)
kind_of (kill _) = some a_kill
kind_of (exited _) = some an_exited
kind_of (error _) = some an_error
kind_of no_op = none

accepts-kind_of : (k : Kind) (msg : Message) → accepts k msg ≡ true → kind_of msg ≡ some k
unfolding accepts kind_of from_exec from_started from_exited from_kill from_error from_stdio
accepts-kind_of an_exec msg e = ground arith
accepts-kind_of a_started msg e = ground arith
accepts-kind_of an_exited msg e = ground arith
accepts-kind_of a_kill msg e = ground arith
accepts-kind_of an_error msg e = ground arith
accepts-kind_of (a_stdio in_stream) msg e = ground arith
accepts-kind_of (a_stdio out_stream) msg e = ground arith
accepts-kind_of (a_stdio err_stream) msg e = ground arith

-- No message is accepted as two of the types that can be received.
pub accepts_unique :
    (j k : Kind) (msg : Message) → accepts j msg ≡ true → accepts k msg ≡ true → j ≡ k
accepts_unique j k msg p q = cc (accepts-kind_of j msg p, accepts-kind_of k msg q)

-- Every message but the private no-op is received as some type.
pub accepts_some : (msg : Message) → (msg ≡ no_op) ⊎ ((k : Kind) × (accepts k msg ≡ true))
unfolding accepts from_exec from_started from_exited from_kill from_error from_stdio
accepts_some (exec _) = inr (an_exec, refl)
accepts_some (started _) = inr (a_started, refl)
accepts_some (stdin _) = inr (a_stdio in_stream, refl)
accepts_some (stdout _) = inr (a_stdio out_stream, refl)
accepts_some (stderr _) = inr (a_stdio err_stream, refl)
accepts_some (kill _) = inr (a_kill, refl)
accepts_some (exited _) = inr (an_exited, refl)
accepts_some (error _) = inr (an_error, refl)
accepts_some no_op = inl refl

-- Every implementation gives back what it does not take.
pub record AllGiveBack : Type 0 where
  pub exec_back : GivesBack from_exec
  pub started_back : GivesBack from_started
  pub exited_back : GivesBack from_exited
  pub kill_back : GivesBack from_kill
  pub error_back : GivesBack from_error
  pub stdio_back : (name : Stream) → GivesBack (from_stdio name)
  pub closed_back : (name : Stream) → GivesBack (from_closed name)
  pub bytes_back : (name : Stream) → GivesBack (from_bytes name)
  pub bytes_or_closed_back : (name : Stream) → GivesBack (from_bytes_or_closed name)

pub all_give_back : AllGiveBack
unfolding from_exec from_started from_exited from_kill from_error from_stdio from_closed from_bytes
    from_bytes_or_closed
all_give_back = record {
  exec_back = λ m m' e. ground arith;
  started_back = λ m m' e. ground arith;
  exited_back = λ m m' e. ground arith;
  kill_back = λ m m' e. ground arith;
  error_back = λ m m' e. ground arith;
  stdio_back = λ n m m' e. ground arith;
  closed_back = λ n m m' e. ground arith;
  bytes_back = λ n m m' e. ground arith;
  bytes_or_closed_back = λ n m m' e. ground arith;
}
