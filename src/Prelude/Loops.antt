-- ===== src/Prelude/Loops.antt =====
-- Loops with a fuel that is never used up.
use Prim.Native.Nat.{ℕ, zero, suc, ◌<◌}
use mathlib.Core.Path.{◌≡◌, refl}
use native.Mathlib.Omega.{arith}

-- What one round of a loop does: `continue` with a new state, or `return` with a result.
pub data Flow {ℓ κ} (S : Type ℓ) (A : Type κ) : Type (ℓ ⊔ κ) where
  again : S → Flow S A
  done : A → Flow S A

module _ {ℓ κ} {S : Type ℓ} {A : Type κ} where
  abbrev pub follow : Flow S A → (S → A) → A
  follow (again s) rest = rest s
  follow (done a) rest = a

  -- A step can use that the round was not the last.
  pub follow_congr :
      (f : Flow S A) (g h : S → A)
      → ((s' : S) → f ≡ again s' → g s' ≡ h s')
      → follow f g ≡ follow f h
  follow_congr (again s') g h e = e s' refl
  follow_congr (done a) g h e = refl

  -- `out` is returned when the fuel is used up, which `loop_lem` excludes.
  pub loop_from : (S → A) → (S → Flow S A) → ℕ → S → A
  loop_from out step zero s = out s
  loop_from out step (suc fuel) s = follow (step s) (loop_from out step fuel)

  -- `loop { step }`, with fuel for as many rounds as `measure` says.
  unfoldable pub loop : (S → A) → (S → Flow S A) → (S → ℕ) → S → A
  unfolding loop_from
  loop out step measure s = loop_from out step (suc (measure s)) s

module _ {ℓ κ} {S : Type ℓ} {A : Type κ} (out : S → A) (step : S → Flow S A) (measure : S → ℕ)
    (falls : (s s' : S) → step s ≡ again s' → measure s' < measure s) where
  loop_from_fuel :
      (n m : ℕ) (s : S)
      → measure s < n
      → measure s < m
      → loop_from out step n s ≡ loop_from out step m s
  unfolding loop_from
  loop_from_fuel zero m s h k = absurd (omega arith)
  loop_from_fuel (suc n) zero s h k = absurd (omega arith)
  loop_from_fuel (suc n) (suc m) s h k =
      follow_congr (step s) (loop_from out step n) (loop_from out step m)
        λ s' e. let lower = falls s s' e in loop_from_fuel n m s' (omega arith) (omega arith)

  -- Where a measure falls in each round, the loop is its own unrolling: the fuel is enough.
  pub loop_lem : (s : S) → loop out step measure s ≡ follow (step s) (loop out step measure)
  unfolding loop loop_from
  loop_lem s =
      follow_congr (step s) (loop_from out step (measure s)) (loop out step measure) λ s' e.
        let lower = falls s s' e in
        loop_from_fuel (measure s) (suc (measure s')) s' (omega arith) (omega arith)

module _ {ℓ κ ν} {S : Type ℓ} {A : Type κ} (P : S → A → Type ν) where
  module _ (out : S → A) (step : S → Flow S A) (measure : S → ℕ)
      (falls : (s s' : S) → step s ≡ again s' → measure s' < measure s)
      (returns : (s : S) (a : A) → step s ≡ done a → P s a)
      (continues : (s s' : S) (a : A) → step s ≡ again s' → P s' a → P s a) where
    after_round :
        (s : S) (f : Flow S A) (run : S → A)
        → step s ≡ f
        → ((s' : S) → step s ≡ again s' → P s' (run s'))
        → P s (follow f run)
    after_round s (again s') run e ih = continues s s' (run s') e (ih s' e)
    after_round s (done a) run e ih = returns s a e

    loop_from_induction : (n : ℕ) (s : S) → measure s < n → P s (loop_from out step n s)
    unfolding loop_from
    loop_from_induction zero s h = absurd (omega arith)
    loop_from_induction (suc n) s h =
        after_round s (step s) (loop_from out step n) refl
          λ s' e. let lower = falls s s' e in loop_from_induction n s' (omega arith)

    -- What holds where the loop returns, and is carried back over each round, holds of the loop.
    pub loop_induction : (s : S) → P s (loop out step measure s)
    unfolding loop
    loop_induction s = loop_from_induction (suc (measure s)) s (omega arith)
