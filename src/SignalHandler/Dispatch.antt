-- ===== src/SignalHandler/Dispatch.antt =====
-- The methods of CuteIPCSignalHandler as QMetaObject finds and calls them
-- (src/CuteIPCSignalHandler.cpp).
use cute_ipc.Prelude.{ℕ, zero, suc, ◌+◌, ◌∙◌, ◌-◌, ◌<◌, ◌≡◌, refl, Option, none, some, arith}
use cute_ipc.Prelude.Int.{pos, negsuc}
use cute_ipc.Prelude.Text.{Text, text, same}
use cute_ipc.SignalHandler.MetaTables.{
  Method, method_signal_captured, method_destroyed, method_relay_slot, method_add_listener,
  method_remove_listener, method_listener_destroyed, signature_of, BuiltinTypes, entry, c_string,
  literal_in, meta_data, parameter_type, parameter_list, signature, signature_4, index_of,
  index_of_method, index_of_method_4,
}
use cute_ipc.SignalHandler.MetaCalls.{
  invoked, activated, invoke_meta_method, qt_metacall, qt_metacall_4,
}

abbrev pub or_id : Option ℕ → ℕ → ℕ
or_id none id = id
or_id (some n) id = n

-- The types of the tables: each number has the name of its type, and is no flag.
pub record AreBuiltin (t : BuiltinTypes) : Type 0 where
  pub byte_array : t.type_name t.byte_array ≡ text "QByteArray"
  pub string : t.type_name t.string ≡ text "QString"
  pub object_star : t.type_name t.object_star ≡ text "QObject*"
  pub byte_array-lt : t.byte_array < 2147483648
  pub string-lt : t.string < 2147483648
  pub object_star-lt : t.object_star < 2147483648

-- The search reads no more rows than it is told.
index_of_same :
    (f g : ℕ → Text) (wanted : Text) (count id : ℕ)
    → ((n : ℕ) → n < id + count → f n ≡ g n)
    → index_of f wanted count id ≡ index_of g wanted count id
unfolding index_of
index_of_same f g wanted zero id h = refl
index_of_same f g wanted (suc count) id h =
    rw
      (
        h id (omega arith),
        index_of_same f g wanted count (id + 1) (λ n lt. h n (omega (arith, lt))),
      )
      refl

-- The methods in the order of the tables.
abbrev pub id_of : Method → ℕ
id_of method_signal_captured = 0
id_of method_destroyed = 1
id_of method_relay_slot = 2
id_of method_add_listener = 3
id_of method_remove_listener = 4
id_of method_listener_destroyed = 5

found_4 : (m : Method) → index_of_method_4 (signature_of m) ≡ some (id_of m)
unfolding signature_of entry signature_4 c_string index_of same
found_4 method_signal_captured = refl
found_4 method_destroyed = refl
found_4 method_relay_slot = refl
found_4 method_add_listener = refl
found_4 method_remove_listener = refl
found_4 method_listener_destroyed = refl

module _ (t : BuiltinTypes) (b : AreBuiltin t) where
  builtin_type :
      (n : ℕ) (name : Text) → t.type_name n ≡ name → n < 2147483648 → parameter_type t n ≡ name
  unfolding parameter_type
  builtin_type n name e lt = ground arith

  -- Both tables have the same signatures.
  signature-signature_4 : (id : ℕ) → id < 6 → signature t id ≡ signature_4 id
  unfolding entry literal_in meta_data parameter_list signature signature_4 c_string
  signature-signature_4 zero h = rw (builtin_type t.byte_array _ b.byte_array b.byte_array-lt) refl
  signature-signature_4 (suc zero) h = rw (builtin_type t.string _ b.string b.string-lt) refl
  signature-signature_4 (suc (suc zero)) h = refl
  signature-signature_4 (suc (suc (suc zero))) h = refl
  signature-signature_4 (suc (suc (suc (suc zero)))) h = refl
  signature-signature_4 (suc (suc (suc (suc (suc zero))))) h =
      rw (builtin_type t.object_star _ b.object_star b.object_star-lt) refl
  signature-signature_4 (suc (suc (suc (suc (suc (suc n)))))) h = absurd (omega (arith, h))

  found : (m : Method) → index_of_method t (signature_of m) ≡ some (id_of m)
  unfolding meta_data entry
  found m =
      index_of_same (signature t) signature_4 (signature_of m) 6 0 signature-signature_4 ∙ found_4 m

  -- The hand-edited meta object is consistent: by its signature each method is found in both tables
  -- at one local id, signals first, and relaySlot at 2; there qt_metacall calls this method, leaving a
  -- negative id in Qt 5; and the body of a signal activates this id. In Qt 4 qt_metacall leaves 0 for
  -- the last method, as if it had not called it. The condition: the types have the names and numbers
  -- that Qt gives them.
  pub looked_up_called :
      (m : Method)
      → (index_of_method t (signature_of m) ≡ some (id_of m))
        × (index_of_method_4 (signature_of m) ≡ some (id_of m))
        × (qt_metacall invoke_meta_method (pos (id_of m))
            ≡ record { left = negsuc (5 - id_of m); called = some m; written = none })
        × ((qt_metacall_4 invoke_meta_method (pos (id_of m))).called ≡ some m)
        × (or_id (activated m) (id_of m) ≡ id_of m)
        × ((qt_metacall_4 invoke_meta_method (pos (id_of method_listener_destroyed))).left ≡ pos 0)
  unfolding qt_metacall qt_metacall_4 invoked activated
  looked_up_called method_signal_captured =
      (found method_signal_captured, found_4 method_signal_captured, refl, refl, refl, refl)
  looked_up_called method_destroyed =
      (found method_destroyed, found_4 method_destroyed, refl, refl, refl, refl)
  looked_up_called method_relay_slot =
      (found method_relay_slot, found_4 method_relay_slot, refl, refl, refl, refl)
  looked_up_called method_add_listener =
      (found method_add_listener, found_4 method_add_listener, refl, refl, refl, refl)
  looked_up_called method_remove_listener =
      (found method_remove_listener, found_4 method_remove_listener, refl, refl, refl, refl)
  looked_up_called method_listener_destroyed =
      (found method_listener_destroyed, found_4 method_listener_destroyed, refl, refl, refl, refl)
