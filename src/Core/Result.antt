-- ===== src/Core/Result.antt =====
-- src/core/result.hpp: Result<T, E>, whose variant holds a value or an error. Result<void, E> is the
-- case of the unit type. An accessor that throws gives `none`.
use edge_orchestrator_ai.Prelude.{Bool, true, false, Option, none, some, String}

pub record Error : Type 0 where
  pub message : String

pub data Result {ℓ κ} (A : Type ℓ) (E : Type κ) : Type (ℓ ⊔ κ) where
  ok : A → Result A E
  err : E → Result A E

abbrev pub error_of : String → Error
error_of message = record { message = message }

abbrev pub make_error {ℓ} : {A : Type ℓ} → String → Result A Error
make_error message = err (error_of message)

abbrev pub has_value {ℓ κ} : {A : Type ℓ} {E : Type κ} → Result A E → Bool
has_value (ok a) = true
has_value (err e) = false

abbrev pub value {ℓ κ} : {A : Type ℓ} {E : Type κ} → Result A E → Option A
value (ok a) = some a
value (err e) = none

abbrev pub error {ℓ κ} : {A : Type ℓ} {E : Type κ} → Result A E → Option E
error (ok a) = none
error (err e) = some e

abbrev pub map {ℓ κ ι} : {A : Type ℓ} {B : Type κ} {E : Type ι} → (A → B) → Result A E → Result B E
map f (ok a) = ok (f a)
map f (err e) = err e

abbrev pub and_then {ℓ κ ι} :
    {A : Type ℓ} {B : Type κ} {E : Type ι} → (A → Result B E) → Result A E → Result B E
and_then f (ok a) = f a
and_then f (err e) = err e

abbrev pub value_or {ℓ κ} : {A : Type ℓ} {E : Type κ} → A → Result A E → A
value_or default_value (ok a) = a
value_or default_value (err e) = default_value
