-- ===== src/Agent/Prompt/Manners.antt =====
-- What protocol/SPECIFICATION.md has a host send behind its `Exec`.
use minimal_vm_tool.Prelude.{◌≡◌, sym, subst, List, [], ◌∷◌}
use minimal_vm_tool.Protocol.{
  Message, exec, started, exited, kill, error, no_op, stdin, stdout, stderr, data_of, closed,
  from_stdio,
}
use minimal_vm_tool.Io.Rx.Recv.Held.{Each}
use minimal_vm_tool.Agent.Prompt.Mail.{Allowed}

-- After the close of the input: a signal at most.
abbrev pub AfterInput : List Message → Type 0
AfterInput [] = Unit
AfterInput (kill k ∷ ms) = ms ≡ []
AfterInput _ = ⊥

-- Input, and its close; or a signal, behind which there is nothing.
abbrev pub Follows : List Message → Type 0
Follows [] = Unit
Follows (stdin (data_of d) ∷ ms) = Follows ms
Follows (stdin closed ∷ ms) = AfterInput ms
Follows (kill k ∷ ms) = ms ≡ []
Follows _ = ⊥

none_behind : (ms : List Message) → ms ≡ [] → Each Allowed ms
none_behind ms e = subst (Each Allowed) (sym e) tt

AfterInput-Allowed : (ms : List Message) → AfterInput ms → Each Allowed ms
unfolding from_stdio
AfterInput-Allowed [] h = tt
AfterInput-Allowed (kill k ∷ ms) h = ((λ e. cc e, λ e. cc e), none_behind ms h)
AfterInput-Allowed (exec x ∷ ms) h = absurd h
AfterInput-Allowed (started x ∷ ms) h = absurd h
AfterInput-Allowed (exited x ∷ ms) h = absurd h
AfterInput-Allowed (error x ∷ ms) h = absurd h
AfterInput-Allowed (no_op ∷ ms) h = absurd h
AfterInput-Allowed (stdin s ∷ ms) h = absurd h
AfterInput-Allowed (stdout s ∷ ms) h = absurd h
AfterInput-Allowed (stderr s ∷ ms) h = absurd h

pub Follows-Allowed : (ms : List Message) → Follows ms → Each Allowed ms
unfolding from_stdio
Follows-Allowed [] h = tt
Follows-Allowed (stdin (data_of d) ∷ ms) h = ((λ e. cc e, λ e. cc e), Follows-Allowed ms h)
Follows-Allowed (stdin closed ∷ ms) h = ((λ e. cc e, λ e. cc e), AfterInput-Allowed ms h)
Follows-Allowed (kill k ∷ ms) h = ((λ e. cc e, λ e. cc e), none_behind ms h)
Follows-Allowed (exec x ∷ ms) h = absurd h
Follows-Allowed (started x ∷ ms) h = absurd h
Follows-Allowed (exited x ∷ ms) h = absurd h
Follows-Allowed (error x ∷ ms) h = absurd h
Follows-Allowed (no_op ∷ ms) h = absurd h
Follows-Allowed (stdout s ∷ ms) h = absurd h
Follows-Allowed (stderr s ∷ ms) h = absurd h

pub exec-Allowed : (x : _) (ms : List Message) → Follows ms → Each Allowed (exec x ∷ ms)
unfolding from_stdio
exec-Allowed x ms h = ((λ e. cc e, λ e. cc e), Follows-Allowed ms h)
