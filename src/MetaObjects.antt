-- ===== src/MetaObjects.antt =====
-- QMetaObject, as a parameter: what the objects of the application have (signals, slots, the types
-- of the parameters of a signal), and how they react to calls. Objects are numbers. `W` is the state
-- of the application's objects. The name of a method is looked up by Qt after normalisation.
use cute_ipc.Prelude.{ℕ, Bool, List, Option}
use cute_ipc.Prelude.Text.{Text}
use cute_ipc.Message.{Datum, GenericArgument}

pub record MetaObjects (V I W : Type 0) : Type 0 where
  -- normalizedSignature
  pub normalized_signature : Text → Text
  -- indexOfSignal and indexOfSlot of a normalised signature, compared with -1
  pub has_signal : ℕ → Text → Bool
  pub has_slot : ℕ → Text → Bool
  -- parameterTypes of the method of that signature
  pub parameter_types : ℕ → Text → List Text
  pub check_connect_args : Text → Text → Bool
  -- whether invokeMethod finds a method of this name with exactly the types of the given arguments
  pub can_invoke : ℕ → Text → List (GenericArgument V I) → Bool
  -- invokeMethod, without and with a returned value; `none` is its answer false
  pub invoke : W → ℕ → Text → List (GenericArgument V I) → Option W
  pub invoke_returning : W → ℕ → Text → Text → List (GenericArgument V I) → Option (W × Datum V I)
