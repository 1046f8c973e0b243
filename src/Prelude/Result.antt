-- ===== src/Prelude/Result.antt =====
-- models.py: `OrchestrationError` with its code (the texts of the messages are left out), and code
-- that returns a value or raises it.
use mathlib.Core.Path.{◌≡◌, refl}
use mathlib.Core.Logic.{◌⊎◌, inl, inr}

-- The codes are those the modelled code raises; `connection_lost` stands for the
-- transport's exceptions and `internal_error` for Python's own, such as indexing a missing row.
pub data ErrorCode : Type 0 where
  orchestration_error invalid_protocol invalid_arguments conflict forbidden unauthorized : ErrorCode
  broker_uncertain rejected invalid_task_intent connection_lost internal_error : ErrorCode

pub data Result {ℓ} (A : Type ℓ) : Type ℓ where
  err : ErrorCode → Result A
  ok : A → Result A

-- What a computation does next, unless it has raised.
abbrev pub continue {ℓ κ} : {B : Type ℓ} {A : Type κ} → (A → Result B) → Result A → Result B
continue next (err code) = err code
continue next (ok value) = next value

infixl 5 ◌>>=◌
abbrev pub ◌>>=◌ {ℓ κ} : {B : Type ℓ} {A : Type κ} → Result A → (A → Result B) → Result B
outcome >>= next = continue next outcome

pub Result-cases {ℓ} :
    {A : Type ℓ} (m : Result A) → ((a : A) × (m ≡ ok a)) ⊎ ((c : ErrorCode) × (m ≡ err c))
Result-cases (err c) = inr (c, refl)
Result-cases (ok a) = inl (a, refl)

-- A chain that returns, taken apart at its first step.
pub continue-eq-ok {ℓ κ} :
    {A : Type ℓ} {B : Type κ} (m : Result A) (f : A → Result B) {b : B}
    → continue f m ≡ ok b
    → (a : A) × (m ≡ ok a) × (f a ≡ ok b)
continue-eq-ok (ok a) f h = (a, refl, h)
continue-eq-ok (err c) f h = cc
