-- ===== src/Agent/Spawn.antt =====
-- `spawn` of agent/src/process.rs: the user that a process runs as, and its command.
pub mod Credentials
use Prim.Native.String
use minimal_vm_tool.Prelude.{
  ℕ, String, Bool, true, false, Option, none, some, List, [], ◌∷◌, ◌++◌, ◌==◌, if◌then◌else◌,
}
use minimal_vm_tool.Outcome.{Error, plain, context, Result, ok, err, ◌>>=◌, with_context}
use minimal_vm_tool.Protocol.{Exec}

-- `nix::unistd::User`, the fields that are used.
pub record User : Type 0 where
  pub name : String
  pub dir : String
  pub uid : ℕ
  pub gid : ℕ

pub record Creds : Type 0 where
  pub uid : ℕ
  pub gid : ℕ
  pub groups : List ℕ

-- The system calls, and `{:?}` of a text.
pub record Kernel : Type 0 where
  pub from_name : String → Result (Option User)
  pub current_dir : Result String
  pub debug : String → String
  pub setgroups : List ℕ → Creds → Result (Unit {0}) × Creds
  pub setgid : ℕ → Creds → Result (Unit {0}) × Creds
  pub setuid : ℕ → Creds → Result (Unit {0}) × Creds

-- `tokio::process::Command`: what is set. Its three streams are always pipes.
pub record Command : Type 0 where
  pub program : String
  pub args : List String
  pub env : List (String × String)
  pub dir : String
  pub pre_exec : Option User

abbrev pub ok_or : {A : Type 0} → Option A → Error → Result A
ok_or (some a) e = ok a
ok_or none e = err e

abbrev pub user_name : Option String → String
user_name (some user) = user
user_name none = "user"

-- `filter(|u| u.uid != getuid())`.
pub other_user : ℕ → Option User → Option User
other_user uid none = none
other_user uid (some u) = if u.uid == uid then none else some u

-- The `if let` that makes the command.
unfoldable pub command_for : Exec → String → Option User → Command
command_for exec pwd none = record {
  program = exec.prog;
  args = exec.args;
  env = [];
  dir = pwd;
  pre_exec = none;
}
command_for exec pwd (some u) = record {
  program = "bash";
  args = "-l" ∷ "-c" ∷ "exec -- \"$@\"" ∷ "bash" ∷ exec.prog ∷ exec.args;
  env = ("HOME", u.dir) ∷ ("USER", u.name) ∷ [];
  dir = pwd;
  pre_exec = some u;
}

-- A call that ends the closure where it fails.
abbrev pub try_call :
    String
    → Result (Unit {0}) × Creds
    → (Creds → Result (Unit {0}) × Creds)
    → Result (Unit {0}) × Creds
try_call message (ok u, c) rest = rest c
try_call message (err e, c) rest = (err (context message e), c)

module _ (K : Kernel) where
  unfoldable pub pwd_of : Option String → Result String
  pwd_of (some p) = ok p
  pwd_of none = with_context "Failed to get current directory" K.current_dir

  pub select_user : ℕ → Option String → Result (Option User)
  select_user uid user =
      if uid == 0
      then (do
        found ← K.from_name (user_name user)
        u ← ok_or found (plain (String.◌++◌ "unknown user: " (K.debug (user_name user))))
        ok (some u))
      else ok none

  -- The closure of `pre_exec`, on Linux.
  unfoldable pub pre_exec : User → Creds → Result (Unit {0}) × Creds
  pre_exec u c0 = try_call "setgroups failed" (K.setgroups [] c0) λ c1.
      try_call "setgid failed" (K.setgid u.gid c1)
        λ c2. try_call "setuid failed" (K.setuid u.uid c2) λ c3. (ok tt, c3)

  -- `spawn` up to `command.spawn()`, with the user id of the agent.
  unfoldable pub command_of : ℕ → Exec → Result Command
  unfolding select_user pwd_of other_user command_for
  command_of uid exec = do
    pwd ← pwd_of exec.pwd
    selected ← select_user uid exec.user
    ok (command_for exec pwd (other_user uid selected))

  -- What runs in the child before exec: the credentials that its program gets.
  pub child_creds : Option User → Creds → Result Creds
  unfolding pre_exec
  child_creds none c = ok c
  child_creds (some u) c = let (r, c') = pre_exec u c in r >>= λ x. ok c'
