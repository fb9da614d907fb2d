-- ===== src/Interface/Tables.antt =====
-- How the tables of CuteIPCInterfacePrivate decide which calls and requests a signal leads to
-- (src/CuteIPCInterface.cpp).
use cute_ipc.Prelude.{
  ℕ, ◌≡◌, ◌≢◌, refl, sym, ap, ◌∙◌, inl, inr, true, false, List, [], ◌∷◌, ◌++◌, All, ◌==◌,
  Bool-cases, arith,
}
use cute_ipc.Prelude.Text.{Text, same, same_refl, before_paren}
use cute_ipc.Qt.{Qt}
use cute_ipc.MetaObjects.{MetaObjects}
use cute_ipc.Message.{GenericArgument}
use cute_ipc.SignalHandler.{SignalHandler, new_handler, set_signal_parameters_info}
use cute_ipc.ServiceConnection.{fill_arguments}
use cute_ipc.Interface.State.{
  MethodData, same_data, Invocation, Interface, register_connection, receivers, remove_object,
  has_handler, delete_handlers, remove_remote_connections_of_object, handle_local_signal_request,
  queue_invocations, invoke_remote_signal,
}
use cute_ipc.Interface.Connect.{is_signal_and_slot, disconnect_slot}

pub same_data_refl : (m : MethodData) → same_data m m ≡ true
unfolding same_data
same_data_refl m = ground (arith, same_refl m.method)

others :
    (object : ℕ) (signal : Text) (cs : List (Text × MethodData))
    → All (λ m. m.object ≢ object) (receivers signal (remove_object object cs))
unfolding receivers remove_object
others object signal [] = tt
others object signal ((s, m) ∷ cs) = elim (Bool-cases (m.object == object)) [
  | inl e ↦ rw e (others object signal cs)
  | inr e ↦ elim (Bool-cases (same s signal)) [
    | inl k ↦ rw (e, k) (ground (arith, e), others object signal cs)
    | inr k ↦ rw (e, k) (others object signal cs)
  ]
]

module _ {V I W : Type 0} (q : Qt V I) (o : MetaObjects V I W) where
  queued :
      (object : ℕ) (arguments : List (GenericArgument V I)) (ms : List MethodData)
      → All (λ m. m.object ≢ object) ms
      → All (λ i. i.receiver ≢ object) (queue_invocations q o ms arguments)
  unfolding queue_invocations
  queued object arguments [] p = tt
  queued object arguments (m ∷ ms) (p, ps) = elim (Bool-cases (m.object == 0)) [
    | inl e ↦ rw e tt
    | inr e ↦
        elim (Bool-cases (
          o.can_invoke m.object (q.to_latin1 (before_paren m.method)) (fill_arguments arguments))) [
            | inl f ↦ rw (e, f) (p, queued object arguments ms ps)
            | inr f ↦ rw (e, f) (queued object arguments ms ps)
          ]
  ]

  -- A local object is destroyed. A remote signal that arrives after it leads to no call of a method of
  -- the object, and the calls that wait are as they were.
  pub destroyed_not_invoked :
      (object : ℕ) (signal : Text) (arguments : List (GenericArgument V I)) (d : Interface V I)
      → (new : List (Invocation V I)) × ((invoke_remote_signal q o signal arguments
            (remove_remote_connections_of_object object d)).invocations
          ≡ d.invocations ++ new)
        × All (λ i. i.receiver ≢ object) new
  unfolding invoke_remote_signal remove_remote_connections_of_object
  destroyed_not_invoked object signal arguments d = (
    queue_invocations q o (receivers signal (remove_object object d.connections)) arguments,
    refl,
    queued object arguments (receivers signal (remove_object object d.connections))
        (others object signal d.connections),
  )

  -- A receiver that is not null is registered for a remote signal, with a method that takes arguments
  -- of these types. When the signal arrives, the
  -- receiver's method is called first, by its name and with the signal's arguments, and then the
  -- methods that were registered before; a different signal calls what it called before.
  pub registered_invoked :
      (signal other : Text) (object : ℕ) (method : Text) (arguments : List (GenericArgument V I))
      (d : Interface V I)
      → object ≢ 0
      → o.can_invoke object (q.to_latin1 (before_paren method)) (fill_arguments arguments) ≡ true
      → same signal other ≡ false
      → ((invoke_remote_signal q o signal arguments
            (register_connection signal object method d)).invocations
          ≡ d.invocations
            ++ record {
              receiver = object;
              method = q.to_latin1 (before_paren method);
              arguments = fill_arguments arguments;
            }
              ∷ queue_invocations q o (receivers signal d.connections) arguments)
        × ((invoke_remote_signal q o other arguments
              (register_connection signal object method d)).invocations
            ≡ (invoke_remote_signal q o other arguments d).invocations)
  unfolding invoke_remote_signal register_connection receivers queue_invocations
  registered_invoked signal other object method arguments d ne found different =
      let e : (object == 0) ≡ false = ground (arith, ne) in
      (rw (same_refl signal, e, found) refl, rw different refl)

delete_handlers_absent :
    (m : MethodData) (signature : Text) (hs : List (MethodData × SignalHandler))
    → has_handler m signature hs ≡ false
    → delete_handlers m signature hs ≡ hs
unfolding has_handler delete_handlers
delete_handlers_absent m signature [] h = refl
delete_handlers_absent m signature ((n, g) ∷ hs) h =
    ground (arith, delete_handlers_absent m signature hs)

module _ {V I W : Type 0} (q : Qt V I) (o : MetaObjects V I W) where
  requested_handler :
      (object : ℕ) (signal slot : Text) (d : Interface V I)
      → has_handler (record { object = object; method = signal }) slot d.local_signal_handlers
        ≡ false
      → handle_local_signal_request q o object signal slot d ≡ record d {
        local_signal_handlers =
            (
              record { object = object; method = signal },
              set_signal_parameters_info q o object signal (new_handler slot),
            )
            ∷ d.local_signal_handlers;
      }
  unfolding handle_local_signal_request
  requested_handler object signal slot d h = rw h refl

  present_handler :
      (object : ℕ) (signal slot : Text) (d : Interface V I)
      → has_handler (record { object = object; method = signal }) slot d.local_signal_handlers
        ≡ true
      → handle_local_signal_request q o object signal slot d ≡ d
  unfolding handle_local_signal_request
  present_handler object signal slot d h = rw h refl

  -- Connecting a local signal to a remote method a second time changes nothing.
  pub connected_once :
      (object : ℕ) (signal slot : Text) (d : Interface V I)
      → handle_local_signal_request q o object signal slot
          (handle_local_signal_request q o object signal slot d)
        ≡ handle_local_signal_request q o object signal slot d
  unfolding has_handler set_signal_parameters_info new_handler
  connected_once object signal slot d =
      let data' : MethodData = record { object = object; method = signal } in
      elim (Bool-cases (has_handler data' slot d.local_signal_handlers)) [
        | inl e ↦
            ap (handle_local_signal_request q o object signal slot)
              (present_handler object signal slot d e)
        | inr e ↦
            let first = requested_handler object signal slot d e in
            let d' : Interface V I = record d {
              local_signal_handlers =
                  (data', set_signal_parameters_info q o object signal (new_handler slot))
                  ∷ d.local_signal_handlers;
            } in
            ap (handle_local_signal_request q o object signal slot) first
            ∙ present_handler object signal slot d' (rw (same_data_refl data', same_refl slot) refl)
            ∙ sym first
      ]

  -- A local signal is connected to a remote slot that it was not connected to, and disconnected from
  -- it. Then the disconnection reports success, and the interface is as it was.
  pub connected_disconnected :
      (object : ℕ) (signal slot : Text) (d : Interface V I)
      → object ≢ 0
      → has_handler (record { object = object; method = signal }) slot d.local_signal_handlers
        ≡ false
      → disconnect_slot object
          (b'2' ∷ signal)
          (b'1' ∷ slot)
          (handle_local_signal_request q o object signal slot d)
        ≡ (d, true)
  unfolding disconnect_slot is_signal_and_slot delete_handlers set_signal_parameters_info
      new_handler
  connected_disconnected object signal slot d ne absent =
      let e : (object == 0) ≡ false = ground (arith, ne) in
      let data' : MethodData = record { object = object; method = signal } in
      ap (disconnect_slot object (b'2' ∷ signal) (b'1' ∷ slot))
        (requested_handler object signal slot d absent)
      ∙ rw (e, same_data_refl data', same_refl slot)
          (λ i. (
            record d {
              local_signal_handlers =
                  delete_handlers_absent data' slot d.local_signal_handlers absent i;
            },
            true,
          ))
