-- ===== src/SignalHandler/MetaCalls.antt =====
-- The calls through the meta object of CuteIPCSignalHandler (src/CuteIPCSignalHandler.cpp):
-- qt_metacall, qt_metacast and the bodies of the signals.
use cute_ipc.Prelude.{ℕ, ◌-◌, Option, none, some, ltb, ◌==◌, if◌then◌else◌}
use cute_ipc.Prelude.Int.{ℤ, pos, negsuc}
use cute_ipc.Prelude.Text.{Text, same}
use cute_ipc.SignalHandler.MetaTables.{
  Method, method_signal_captured, method_destroyed, method_relay_slot, method_add_listener,
  method_remove_listener, method_listener_destroyed, c_string, stringdata,
}

-- The switch of qt_metacall, which is the same for both.
unfoldable pub invoked : ℕ → Option Method
invoked id =
    if id == 0
    then some method_signal_captured
    else if id == 1
    then some method_destroyed
    else if id == 2
    then some method_relay_slot
    else if id == 3
    then some method_add_listener
    else if id == 4
    then some method_remove_listener
    else if id == 5
    then some method_listener_destroyed
    else none

-- The index that the body of a signal activates.
unfoldable pub activated : Method → Option ℕ
activated method_signal_captured = some 0
activated method_destroyed = some 1
activated _ = none

-- QMetaObject::Call
pub data MetaCall : Type 0 where
  invoke_meta_method : MetaCall
  register_method_argument_meta_type : MetaCall
  other_call : MetaCall

-- The id that is left, the method that was called, and what was written to `_a[0]`.
pub record Metacall : Type 0 where
  pub left : ℤ
  pub called : Option Method
  pub written : Option ℤ

abbrev pub minus : ℕ → ℕ → ℤ
minus n k = if ltb n k then negsuc (k - n - 1) else pos (n - k)

-- qt_metacall; its argument is the id that QObject::qt_metacall left.
unfoldable pub qt_metacall : MetaCall → ℤ → Metacall
unfolding invoked
qt_metacall c (negsuc n) = record { left = negsuc n; called = none; written = none }
qt_metacall invoke_meta_method (pos id) = record {
  left = minus id 6;
  called = invoked id;
  written = none;
}
qt_metacall register_method_argument_meta_type (pos id) = record {
  left = minus id 6;
  called = none;
  written = if ltb id 6 then some (negsuc 0) else none;
}
qt_metacall other_call (pos id) = record { left = pos id; called = none; written = none }

unfoldable pub qt_metacall_4 : MetaCall → ℤ → Metacall
unfolding invoked
qt_metacall_4 c (negsuc n) = record { left = negsuc n; called = none; written = none }
qt_metacall_4 invoke_meta_method (pos id) = record {
  left = minus id 5;
  called = invoked id;
  written = none;
}
qt_metacall_4 _ (pos id) = record { left = pos id; called = none; written = none }

-- qt_metacast: `this` for the class itself; `none` stands for the null pointer.
unfoldable pub qt_metacast : (Text → Option ℕ) → ℕ → Option Text → Option ℕ
qt_metacast inherited this none = none
qt_metacast inherited this (some name) =
    if same name (c_string stringdata) then some this else inherited name
