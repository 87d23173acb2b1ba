-- ===== src/Outcome.antt =====
-- `anyhow::Error`, `Result` and `std::task::Poll`, which every component returns.
use minimal_vm_tool.Prelude.{ℕ, ◌≡◌, refl, String, Bytes}

-- `anyhow!(message)`, an error of the operating system by its number, an error of another crate
-- (serde_json and the like), and `.context(message)` around one.
pub data Error : Type 0 where
  plain : String → Error
  os : ℕ → Error
  foreign : Bytes → Error
  context : String → Error → Error

pub data Result {ℓ} (A : Type ℓ) : Type ℓ where
  ok : A → Result A
  err : Error → Result A

pub data Poll {ℓ} (A : Type ℓ) : Type ℓ where
  pending : Poll A
  ready : A → Poll A

infixl 5 ◌>>=◌
abbrev pub ◌>>=◌ {ℓ κ} : {A : Type ℓ} {B : Type κ} → Result A → (A → Result B) → Result B
ok a >>= f = f a
err e >>= f = err e

pub bind_assoc :
    {A B C : Type 0} (r : Result A) (f : A → Result B) (g : B → Result C)
    → ((r >>= f) >>= g) ≡ (r >>= λ a. f a >>= g)
bind_assoc (ok a) f g = refl
bind_assoc (err e) f g = refl

-- `.context(message)` on a result.
abbrev pub with_context {ℓ} : {A : Type ℓ} → String → Result A → Result A
with_context message (ok a) = ok a
with_context message (err e) = err (context message e)

-- `ready!(m)?`, then `k`: a poll that is not ready, or is an error, ends the caller.
abbrev pub ready_ok {ℓ κ ν} :
    {A : Type ℓ} {B : Type κ} {S : Type ν}
    → Poll (Result A) × S
    → (A → S → Poll (Result B) × S)
    → Poll (Result B) × S
ready_ok (pending, s) k = (pending, s)
ready_ok (ready (err e), s) k = (ready (err e), s)
ready_ok (ready (ok a), s) k = k a s
