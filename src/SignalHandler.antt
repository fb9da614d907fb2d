-- ===== src/SignalHandler.antt =====
-- src/CuteIPCSignalHandler.cpp: the object that turns a signal into a message and passes it on to its
-- listeners. deleteLater is taken as deletion.
pub mod MetaTables
pub mod MetaCalls
pub mod Dispatch
use cute_ipc.Prelude.{ℕ, List, [], ◌∷◌, ◌++◌, Option, none, some, is_nil, ◌==◌, if◌then◌else◌}
use cute_ipc.Prelude.Result.{Result, ok, fault, ◌>>=◌}
use cute_ipc.Prelude.Text.{Text, Bytes}
use cute_ipc.Qt.{Qt}
use cute_ipc.MetaObjects.{MetaObjects}
use cute_ipc.Message.{Datum, GenericArgument, message_signal, from_arguments}
use cute_ipc.Marshaller.Write.{marshall_message}

-- `parameters` is m_signalParametersInfo, `none` while m_signalParametersInfoWasSet is false.
-- `wired` are the objects whose slots addListener connected, once for each call of it.
pub record SignalHandler : Type 0 where
  pub signature : Text
  pub parameters : Option (List Text)
  pub listeners : List ℕ
  pub wired : List ℕ

unfoldable pub new_handler : Text → SignalHandler
new_handler signature = record {
  signature = signature;
  parameters = none;
  listeners = [];
  wired = [];
}

unfoldable pub add_listener : ℕ → SignalHandler → SignalHandler
add_listener listener h = record h {
  listeners = h.listeners ++ listener ∷ [];
  wired = h.wired ++ listener ∷ [];
}

-- QList::removeOne, and the loop of listenerDestroyed that removes the first match
unfoldable pub remove_one : ℕ → List ℕ → List ℕ
remove_one x [] = []
remove_one x (y ∷ ys) = if y == x then ys else y ∷ remove_one x ys

-- removeListener and listenerDestroyed: `none` after `emit destroyed(m_signature)` and deleteLater.
-- removeListener may be given a null pointer, which is no listener.
unfoldable pub or_destroyed : SignalHandler → Option SignalHandler
or_destroyed h = if is_nil h.listeners then none else some h

unfoldable pub remove_listener : Option ℕ → SignalHandler → Option SignalHandler
unfolding or_destroyed
remove_listener none h = or_destroyed h
remove_listener (some listener) h =
    or_destroyed (record h { listeners = remove_one listener h.listeners })

unfoldable pub listener_destroyed : ℕ → SignalHandler → Option SignalHandler
unfolding or_destroyed
listener_destroyed listener h =
    or_destroyed (record h { listeners = remove_one listener h.listeners })

module _ {V I W : Type 0} (q : Qt V I) (o : MetaObjects V I W) where
  unfoldable pub set_signal_parameters_info : ℕ → Text → SignalHandler → SignalHandler
  set_signal_parameters_info owner signature h = record h {
    parameters = some (o.parameter_types owner (q.to_latin1 signature));
  }

  -- The loop over the parameter types. The values are those of the array `args` from index 1 on; it
  -- has no fewer values than the signal has parameters, or a read goes out of bounds.
  unfoldable pub relay_arguments :
      List Text → List (Datum V I) → Result (List (GenericArgument V I))
  relay_arguments [] values = ok []
  relay_arguments (t ∷ types) [] = fault
  relay_arguments (t ∷ types) (v ∷ values) = do
    rest ← relay_arguments types values
    ok (record { name = t; value = some v } ∷ rest)

  unfoldable pub parameter_info : ℕ → SignalHandler → List Text
  parameter_info parent h = elim h.parameters [
    | none ↦ o.parameter_types parent (q.to_latin1 h.signature)
    | some types ↦ types
  ]

  -- relaySlot: the handler with its parameters set, and the bytes of `emit signalCaptured`.
  unfoldable pub relay_slot : ℕ → List (Datum V I) → SignalHandler → Result (SignalHandler × Bytes)
  unfolding parameter_info
  relay_slot parent values h = do
    arguments ← relay_arguments (parameter_info parent h) values
    bytes ← marshall_message q (from_arguments message_signal h.signature arguments [])
    ok (record h { parameters = some (parameter_info parent h) }, bytes)
