-- ===== src/Agent/Process/WaitError.antt =====
-- The `ArcErr` of agent/src/process.rs, in which the handle of a process keeps the error of its wait.
use minimal_vm_tool.Prelude.{◌≡◌, ◌∙◌, ap₂, none, String}
use minimal_vm_tool.Io.ArcErr.{StdError, Anyhow, IsAnyhow}

module _ {D : Type 0} (A : Anyhow D) where
  pub record ArcErr : Type 0 where
    pub held : A.Error

  unfoldable pub new : A.Error → ArcErr
  new e = record { held = e }

  unfoldable pub display : ArcErr → String
  display t = A.shown.display t.held

  unfoldable pub debug : ArcErr → String
  debug t = A.shown.debug t.held

  -- Its `std::error::Error`: the default `source`.
  unfoldable pub shown : StdError D ArcErr
  unfolding display debug
  shown = record { display = display; debug = debug; source = λ t. none }

  -- What `wait` returns of an error that it keeps: a clone of it, through `?`.
  unfoldable pub wait_error : ArcErr → A.Error
  wait_error t = A.new shown (record { held = t.held })

module _ {D : Type 0} (A : Anyhow D) (L : IsAnyhow A) where
  -- Every wait shows the text of the error that the first one met, and no source.
  pub wait_error-new :
      (e : A.Error)
      → (A.shown.display (wait_error A (new A e)) ≡ A.shown.display e)
        × (A.shown.debug (wait_error A (new A e)) ≡ L.report (A.shown.display e) none)
        × (A.shown.source (wait_error A (new A e)) ≡ none)
  unfolding wait_error new shown display debug
  wait_error-new e =
      let t : ArcErr A = record { held = e } in
      let d = L.display-new (shown A) t in
      let s = L.source-new (shown A) t in
      (d, L.debug-report (A.new (shown A) t) ∙ ap₂ L.report d s, s)
