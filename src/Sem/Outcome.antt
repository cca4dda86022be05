-- ===== src/Sem/Outcome.antt =====
-- src/sem/outcome.rs: outcomes, backend errors, analysis bounds, boundary events and step labels.
-- The texts of messages are not modelled; an error keeps its code and its location, which is the
-- pair of a function and a statement index and not its rendering `module::function.sid`.
use conc_ir.Prelude.{ℕ, zero, suc, Option, none, some, List, [], ◌∷◌, get_elem?}
use conc_ir.Prelude.Text.{Str}

abbrev pub FunctionId : Type 0
FunctionId = ℕ

abbrev pub ModuleId : Type 0
ModuleId = ℕ

abbrev pub ResourceId : Type 0
ResourceId = ℕ

abbrev pub ThreadId : Type 0
ThreadId = ℕ

abbrev pub FrameId : Type 0
FrameId = ℕ

abbrev pub ScopeId : Type 0
ScopeId = ℕ

abbrev pub HandleId : Type 0
HandleId = ℕ

abbrev pub SlotId : Type 0
SlotId = ℕ

pub data SlotRef : Type 0 where
  local : SlotId → SlotRef
  shared : ResourceId → SlotRef
  discard : SlotRef

pub data Outcome : Type 0 where
  pass fail unknown invalid unsupported : Outcome

abbrev pub Location : Type 0
Location = FunctionId × Option ℕ

pub record Unsupported : Type 0 where
  pub construct : Str
  pub location : Option Location

-- The codes of the errors that the backend raises.
pub data Code : Type 0 where
  e201 e202 e402 e410 e510 e511 e602 e900 e901 e902 e904 e905 e931 e932 e933 e999 : Code

pub record Invalid : Type 0 where
  pub code : Code
  pub location : Option Location

pub data BackendError : Type 0 where
  unsupported : Unsupported → BackendError
  invalid : Invalid → BackendError

-- The first location that an error is given stays.
abbrev pub or_location : Option Location → Location → Option Location
or_location none at = some at
or_location (some l) at = some l

unfoldable pub error_at : BackendError → Location → BackendError
error_at (BackendError.unsupported u) at =
    BackendError.unsupported (record u { location = or_location u.location at })
error_at (BackendError.invalid i) at =
    BackendError.invalid (record i { location = or_location i.location at })

abbrev pub invalid_error : Code → BackendError
invalid_error c = BackendError.invalid (record { code = c; location = none })

-- `BackendResult`, with the panics of indexing and `unwrap` as a third outcome.
pub data Result {ℓ} (A : Type ℓ) : Type ℓ where
  panic : Result A
  err : BackendError → Result A
  ok : A → Result A

-- The `?` operator.
infixl 5 ◌>>=◌
abbrev pub ◌>>=◌ {κ ℓ} : {S : Type κ} {T : Type ℓ} → Result S → (S → Result T) → Result T
panic >>= rest = panic
err failure >>= rest = err failure
ok value >>= rest = rest value

-- `unwrap`, `expect` and indexing; `ok_or_else`.
abbrev pub unwrap {ℓ} : {A : Type ℓ} → Option A → Result A
unwrap none = panic
unwrap (some a) = ok a

-- `v[i]`, and an update of the entry `v[i]` in place.
abbrev pub read_at {ℓ} : {A : Type ℓ} → List A → ℕ → Result A
read_at xs i = unwrap (get_elem? xs i)

abbrev pub modify_at {ℓ} : {A : Type ℓ} → List A → ℕ → (A → A) → Result (List A)
modify_at [] i f = panic
modify_at (x ∷ xs) zero f = ok (f x ∷ xs)
modify_at (x ∷ xs) (suc i) f = modify_at xs i f >>= λ rest. ok (x ∷ rest)

abbrev pub set_at {ℓ} : {A : Type ℓ} → List A → ℕ → A → Result (List A)
set_at xs i v = modify_at xs i (λ old. v)

abbrev pub ok_or {ℓ} : {A : Type ℓ} → Option A → BackendError → Result A
ok_or none e = err e
ok_or (some a) e = ok a

pub record AnalysisBounds : Type 0 where
  pub max_threads : ℕ
  pub max_frames_per_thread : ℕ
  pub max_states : ℕ
  pub max_depth : ℕ
  pub max_boundary_events : ℕ

abbrev pub default_bounds : AnalysisBounds
default_bounds = record {
  max_threads = 16;
  max_frames_per_thread = 32;
  max_states = 200000;
  max_depth = 400;
  max_boundary_events = 4096;
}

pub data BoundaryKind : Type 0 where
  thread_limit frame_limit state_limit depth_limit event_limit unbounded_data : BoundaryKind

-- The fields `thread`, `frame` and `function` of a boundary event stay empty wherever the program
-- makes one.
pub record BoundaryEvent : Type 0 where
  pub kind : BoundaryKind

pub data Phase : Type 0 where
  statement register rendezvous reacquire wake complete : Phase

pub record TransitionOrigin : Type 0 where
  pub module_id : ModuleId
  pub function : FunctionId
  pub sid : Option ℕ
  pub phase : Phase

pub record StepLabel : Type 0 where
  pub origin : TransitionOrigin
  pub thread : Option ThreadId
  pub frame : Option FrameId
