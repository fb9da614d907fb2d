-- ===== src/Interface/Connect.antt =====
-- The public methods of CuteIPCInterface that connect and disconnect signals, in
-- src/CuteIPCInterface.cpp. A C string is the text that fromLatin1 makes of it; `connection_id` is the
-- name that the worker gives its connection.
use cute_ipc.Prelude.{ℕ, Bool, true, false, not, ◌&&◌, ◌||◌, ◌∷◌, ◌++◌, none, ◌==◌, if◌then◌else◌}
use cute_ipc.Prelude.Text.{Text, Bytes, text, mid_one, first_unit}
use cute_ipc.Qt.{Qt}
use cute_ipc.MetaObjects.{MetaObjects}
use cute_ipc.Interface.State.{
  Interface, set_last_error, register_connection, has_connection, remove_connection,
  delete_handlers, handle_local_signal_request,
}
use cute_ipc.Interface.Request.{
  Outcome, returned, ◌>>=◌, Server, Exchange, Reply, check_remote_slot_existance,
  send_remote_connect_request, send_remote_disconnect_request,
}

-- What a method of the interface returns, with the interface after it.
abbrev pub Answer : Type 0 → Type 0 → Type 0
Answer V I = Outcome (Interface V I × Bool)

abbrev pub no_object : Text
no_object = text "Object doesn't exist"

-- The two tests on the first characters of the signatures.
unfoldable pub is_signal_and_method : Text → Text → Bool
is_signal_and_method signal method =
    (first_unit signal == b'2') && ((first_unit method == b'1') || (first_unit method == b'2'))

unfoldable pub is_signal_and_slot : Text → Text → Bool
is_signal_and_slot signal slot = (first_unit signal == b'2') && (first_unit slot == b'1')

module _ {V I W : Type 0} (q : Qt V I) (o : MetaObjects V I W) where
  -- checkConnectCorrection
  unfoldable pub check_connect_correction : Text → Text → Interface V I → Interface V I × Bool
  check_connect_correction signal method d =
      let signal' = mid_one signal in
      let method' = mid_one method in
      if not (is_signal_and_method signal method)
      then (d, false)
      else if not (o.check_connect_args (q.to_latin1 signal') (q.to_latin1 method'))
      then (set_last_error (text "Incompatible signatures: " ++ signal' ++ b',' ∷ method') d, false)
      else (d, true)

  -- The index of the method, compared with -1, by the first character of its signature.
  unfoldable pub has_method : ℕ → Text → Bool
  has_method object method =
      let m = q.to_latin1 (mid_one method) in
      if first_unit method == b'1'
      then o.has_slot object m
      else if first_unit method == b'2'
      then o.has_signal object m
      else false

module _ {V I : Type 0} where
  -- disconnectSlot
  unfoldable pub disconnect_slot : ℕ → Text → Text → Interface V I → Interface V I × Bool
  disconnect_slot local_object signal slot d =
      if local_object == 0
      then (set_last_error no_object d, false)
      else if not (is_signal_and_slot signal slot)
      then (d, false)
      else (
        record d {
          local_signal_handlers =
              delete_handlers (record { object = local_object; method = mid_one signal })
                (mid_one slot) d.local_signal_handlers;
        },
        true,
      )

  -- disconnectRemoteMethod
  unfoldable pub disconnect_remote_method : ℕ → Text → Text → Interface V I → Interface V I × Bool
  disconnect_remote_method local_object signal method d =
      if local_object == 0
      then (set_last_error no_object d, false)
      else if not (is_signal_and_method signal method)
      then (d, false)
      else (
        record d {
          local_signal_handlers =
              delete_handlers (record { object = local_object; method = mid_one signal })
                (mid_one method) d.local_signal_handlers;
        },
        true,
      )

module _ {V I W : Type 0} (q : Qt V I) (o : MetaObjects V I W) (net : Server → Bytes → Exchange)
    (connection_id : Text) where
  -- The request that the connection needs, if the signal is not connected yet.
  unfoldable pub connect_if_new : Text → Interface V I → Outcome (Reply V I)
  connect_if_new signal d =
      if has_connection signal d.connections
      then returned (record { interface = d; success = true; stored = none })
      else send_remote_connect_request q o net connection_id signal d

  -- remoteConnect, of a remote signal to a method of a local object
  unfoldable pub remote_connect : Text → ℕ → Text → Interface V I → Answer V I
  remote_connect signal object method d =
      let checked = check_connect_correction q o signal method d in
      if object == 0
      then returned (set_last_error no_object d, false)
      else if not checked.1
      then returned checked
      else if not (has_method q o object method)
      then returned (
        set_last_error (text "Method (slot or signal) doesn't exist:" ++ mid_one method) d,
        false,
      )
      else (connect_if_new (mid_one signal) checked.0 >>= λ r. returned (
        if r.success
            then register_connection (mid_one signal) object (mid_one method) r.interface
            else r.interface,
        r.success,
      ))

  -- The end of remoteConnect and remoteSlotConnect, on the answer to the request.
  unfoldable pub connect_local : ℕ → Text → Text → Text → Reply V I → Interface V I × Bool
  connect_local local_object signal method error r =
      if r.success
      then (handle_local_signal_request q o local_object signal method r.interface, true)
      else (set_last_error (error ++ method) r.interface, false)

  -- The request about the remote method, by the first character of its signature.
  unfoldable pub ask_about_method : Text → Interface V I → Outcome (Reply V I)
  ask_about_method method d =
      if first_unit method == b'1'
      then check_remote_slot_existance q o net (mid_one method) d
      else send_remote_connect_request q o net connection_id (mid_one method) d

  abbrev pub remote_error : Text → Text
  remote_error method =
      if first_unit method == b'1'
      then text "Remote slot doesn't exist:"
      else text "Remote signal doesn't exist:"

  -- remoteConnect, of a signal of a local object to a remote method
  unfoldable pub remote_connect_method : ℕ → Text → Text → Interface V I → Answer V I
  remote_connect_method local_object signal method d =
      let checked = check_connect_correction q o signal method d in
      if local_object == 0
      then returned (set_last_error no_object d, false)
      else if not checked.1
      then returned checked
      else if not (o.has_signal local_object (q.to_latin1 (mid_one signal)))
      then returned (set_last_error (text "Signal doesn't exist:" ++ mid_one signal) d, false)
      else (ask_about_method method checked.0 >>= λ r.
          returned
            (connect_local local_object (mid_one signal) (mid_one method) (remote_error method) r))

  -- remoteSlotConnect
  unfoldable pub remote_slot_connect : ℕ → Text → Text → Interface V I → Answer V I
  remote_slot_connect local_object signal slot d =
      let checked = check_connect_correction q o signal slot d in
      if local_object == 0
      then returned (set_last_error no_object d, false)
      else if not checked.1
      then returned checked
      else if not (o.has_signal local_object (q.to_latin1 (mid_one signal)))
      then returned (set_last_error (text "Signal doesn't exist:" ++ mid_one signal) d, false)
      else (check_remote_slot_existance q o net (mid_one slot) checked.0 >>= λ r. returned (
          connect_local local_object (mid_one signal) (mid_one slot)
            (text "Remote slot doesn't exist:") r))

  -- The request that a signal without receivers needs.
  unfoldable pub disconnect_if_last : Text → Interface V I → Outcome (Interface V I × Bool)
  disconnect_if_last signal d =
      if has_connection signal d.connections
      then returned (d, true)
      else (send_remote_disconnect_request q o net connection_id signal d >>= λ r.
          returned (r.interface, true))

  -- disconnectSignal
  unfoldable pub disconnect_signal : Text → ℕ → Text → Interface V I → Answer V I
  disconnect_signal signal object method d =
      if object == 0
      then returned (set_last_error no_object d, false)
      else if not (is_signal_and_method signal method)
      then returned (d, false)
      else disconnect_if_last (mid_one signal) (record d {
        connections =
            remove_connection (mid_one signal) (record { object = object; method = mid_one method })
              d.connections;
      })
