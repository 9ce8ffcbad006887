-- ===== src/Prelude/Errors.antt =====
-- What a call that may raise returns. An exception is its class with its code; the messages are
-- left out.
use Prim.Native.String.{String}
use mathlib.Core.Path.{◌≡◌, refl}
use mathlib.Core.Logic.{◌⊎◌, inl, inr}
use mathlib.Core.List.{List}
use mathlib.Core.Bool.{Bool, true, false}

-- The exception classes that the modelled code raises or catches by name; `other_exception` is any
-- other subclass of `Exception`, `validation_error` is pydantic's, and `cancelled` is `asyncio.CancelledError`.
pub data Error : Type 0 where
  risk_input : String → Error
  backtest_input : String → Error
  backtest_accounting : String → Error
  split_spec : List String → Error
  empty_split : String → Error
  dataset_split : String → Error
  execution_input : String → Error
  execution_configuration : String → Error
  execution_permission : String → Error
  execution_approval : String → Error
  execution_risk : String → Error
  execution_duplicate : String → Error
  execution_stale_signal : String → Error
  execution_kill_switch : String → Error
  execution_broker_state : String → Error
  execution_broker_transport : String → Error
  execution_broker_request : String → Error
  execution_broker_rejection : String → Error
  execution_submission_unknown : String → Error
  execution_integrity : String → Error
  execution_not_found : String → Error
  persistence_error : String → Error
  walk_forward_split : String → Error
  leakage_validation : String → Error
  strategy_input : String → Error
  validation_error : Error
  sqlite_error : Error
  runtime_error : Error
  division_error : Error
  cancelled : Error
  other_exception : Error

pub data Result {ℓ} (A : Type ℓ) : Type ℓ where
  ok : A → Result A
  err : Error → Result A

-- the rest of a body, after a call that may have raised
infixl 5 ◌>>=◌ ◌>>◌
abbrev pub ◌>>=◌ {ℓ κ} : {A : Type ℓ} {B : Type κ} → Result A → (A → Result B) → Result B
call >>= rest = elim call [ err raised ↦ err raised | ok value ↦ rest value ]

abbrev pub ◌>>◌ {ℓ κ} : {A : Type ℓ} {B : Type κ} → Result A → Result B → Result B
call >> rest = call >>= λ _. rest

-- `if condition: raise error`
abbrev pub raise_if : Bool → Error → Result (Unit {0})
raise_if condition error = elim condition [ false ↦ ok tt | true ↦ err error ]

-- whether the call returned or raised, with its value
pub Result-cases {ℓ} :
    {A : Type ℓ} (r : Result A) → ((a : A) × (r ≡ ok a)) ⊎ ((e : Error) × (r ≡ err e))
Result-cases (ok a) = inl (a, refl)
Result-cases (err e) = inr (e, refl)
