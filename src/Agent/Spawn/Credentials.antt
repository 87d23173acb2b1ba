-- ===== src/Agent/Spawn/Credentials.antt =====
-- The credentials that a process gets, over a kernel that lets root change them.
use Prim.Native.String
use minimal_vm_tool.Prelude.{
  ℕ, ◌≡◌, refl, ap, ◌∙◌, String, Option, none, some, List, [], ◌==◌, if◌then◌else◌, Bool-cases, inl,
  inr,
}
use minimal_vm_tool.Outcome.{plain, Result, ok, err, ◌>>=◌, bind_assoc}
use minimal_vm_tool.Protocol.{Exec}
use minimal_vm_tool.Agent.Spawn.{
  User, Creds, Kernel, user_name, pwd_of, select_user, other_user, command_for, pre_exec,
  command_of, child_creds, ok_or,
}

-- setgroups(2), setgid(2) and setuid(2), called by root.
pub record IsPosix (K : Kernel) : Type 0 where
  pub sets_groups :
      (gs : List ℕ) (c : Creds) → c.uid ≡ 0 → K.setgroups gs c ≡ (ok tt, record c { groups = gs })
  pub sets_gid : (g : ℕ) (c : Creds) → c.uid ≡ 0 → K.setgid g c ≡ (ok tt, record c { gid = g })
  pub sets_uid : (u : ℕ) (c : Creds) → c.uid ≡ 0 → K.setuid u c ≡ (ok tt, record c { uid = u })

-- The credentials of a user, with no supplementary groups.
abbrev pub creds_of : User → Creds
creds_of u = record { uid = u.uid; gid = u.gid; groups = [] }

pre_exec-creds_of :
    (K : Kernel)
    → IsPosix K
    → (u : User) (c : Creds) → c.uid ≡ 0
    → pre_exec K u c ≡ (ok tt, creds_of u)
unfolding pre_exec
pre_exec-creds_of K v u c h =
    rw
      (
        v.sets_groups [] c h,
        v.sets_gid u.gid (record c { groups = [] }) h,
        v.sets_uid u.uid (record c { groups = []; gid = u.gid }) h,
      )
      refl

-- The credentials that a command is run with, where the agent has those of `c`.
abbrev pub run_creds : Kernel → Exec → Creds → Result Creds
run_creds K exec c = do command ← command_of K c.uid exec; child_creds K command.pre_exec c

-- What they should be for an agent that runs as root, at what the user database says of a user, by
-- the `{:?}` of their name.
abbrev pub as_user : Creds → String → Result (Option User) → Result Creds
as_user c name (ok (some u)) = ok (if u.uid == 0 then c else creds_of u)
as_user c name (ok none) = err (plain (String.◌++◌ "unknown user: " name))
as_user c name (err e) = err e

selected_at :
    (K : Kernel)
    → IsPosix K
    → (exec : Exec) (pwd name : String) (c : Creds) (found : Result (Option User)) → c.uid ≡ 0
    → (do
      selected ← (do
        f ← found
        u ← ok_or f (plain (String.◌++◌ "unknown user: " name))
        ok (some u))
      command ← ok (command_for exec pwd (other_user c.uid selected))
      child_creds K command.pre_exec c)
      ≡ as_user c name found
unfolding child_creds other_user command_for
selected_at K v exec pwd name c (err e) h = refl
selected_at K v exec pwd name c (ok none) h = refl
selected_at K v exec pwd name c (ok (some u)) h = elim (Bool-cases (u.uid == 0)) [
  | inl a ↦ rw (a, ap (λ x. u.uid == x) h ∙ a) refl
  | inr a ↦ rw (a, ap (λ x. u.uid == x) h ∙ a, pre_exec-creds_of K v u c h) refl
]

-- Where the kernel lets root change its groups, group id and user id, and the working directory is
-- known, a process that an agent with user id 0 spawns runs with the user id and group id of the
-- user asked for, or of the user named user, and no supplementary groups; with the credentials of
-- the agent where that user has user id 0; and is not run where the user is unknown or the user
-- database fails.
pub run_creds-as_user :
    (K : Kernel)
    → IsPosix K
    → (exec : Exec) (pwd : String) (c : Creds) → c.uid ≡ 0
    → pwd_of K exec.pwd ≡ ok pwd
    → run_creds K exec c
      ≡ as_user c (K.debug (user_name exec.user)) (K.from_name (user_name exec.user))
unfolding command_of select_user
run_creds-as_user K v exec pwd c h e =
    rw (e, ap (λ x. x == 0) h)
      (bind_assoc
          (do
            f ← K.from_name (user_name exec.user)
            u ← ok_or f (plain (String.◌++◌ "unknown user: " (K.debug (user_name exec.user))))
            ok (some u))
          (λ selected. ok (command_for exec pwd (other_user c.uid selected)))
          (λ command. child_creds K command.pre_exec c)
        ∙ selected_at K v exec pwd (K.debug (user_name exec.user)) c
            (K.from_name (user_name exec.user)) h)
