-- ===== src/Base/Context.antt =====
-- `context.Context` as a call sees it: why it has ended, if it has.
use mathlib.Core.Option.{Option, none, some}
use kurama.Base.Result.{Result, ok, err}

pub data ContextError : Type 0 where
  canceled deadline_exceeded : ContextError

pub record Context : Type 0 where
  pub error : Option ContextError

-- A context that is still alive, and one that was cancelled.
abbrev pub live_context : Context
live_context = record { error = none }

abbrev pub cancelled_context : Context
cancelled_context = record { error = some canceled }

-- `if err := ctx.Err(); err != nil { return err }`
abbrev pub check_context {ℓ} : {E : Type ℓ} → Context → (ContextError → E) → Result E (Unit {0})
check_context ctx f = elim ctx.error [ none ↦ ok tt | some e ↦ err (f e) ]
