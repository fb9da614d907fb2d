-- ===== src/Example/MetaObjects.antt =====
-- The meta object of a signal handler, with the type numbers of Qt 5.
use cute_ipc.Prelude.{ℕ, ◌≡◌, refl, none, some, ◌==◌, if◌then◌else◌, arith}
use cute_ipc.Prelude.Int.{pos, negsuc}
use cute_ipc.Prelude.Text.{Text, text}
use cute_ipc.SignalHandler.MetaTables.{
  method_relay_slot, signature_of, BuiltinTypes, index_of_method, index_of_method_4,
}
use cute_ipc.SignalHandler.MetaCalls.{activated, invoke_meta_method, qt_metacall, qt_metacall_4}
use cute_ipc.SignalHandler.Dispatch.{AreBuiltin, or_id, looked_up_called}

abbrev names : ℕ → Text
names n = if n == 12 then text "QByteArray" else if n == 10 then text "QString" else text "QObject*"

abbrev types : BuiltinTypes
types = record { void = 43; byte_array = 12; string = 10; object_star = 39; type_name = names }

types-AreBuiltin : AreBuiltin types
types-AreBuiltin = record {
  byte_array = refl;
  string = refl;
  object_star = refl;
  byte_array-lt = omega arith;
  string-lt = omega arith;
  object_star-lt = omega arith;
}

looked_up_called_example :
    (index_of_method types (text "relaySlot()") ≡ some 2)
    × (index_of_method_4 (text "relaySlot()") ≡ some 2)
    × (qt_metacall invoke_meta_method (pos 2)
        ≡ record { left = negsuc 3; called = some method_relay_slot; written = none })
    × ((qt_metacall_4 invoke_meta_method (pos 2)).called ≡ some method_relay_slot)
    × (or_id (activated method_relay_slot) 2 ≡ 2)
    × ((qt_metacall_4 invoke_meta_method (pos 5)).left ≡ pos 0)
unfolding signature_of
looked_up_called_example = looked_up_called types types-AreBuiltin method_relay_slot
