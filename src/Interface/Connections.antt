-- ===== src/Interface/Connections.antt =====
-- The connections of remote signals, in remoteConnect and disconnectSignal (src/CuteIPCInterface.cpp).
use cute_ipc.Prelude.{
  ℕ, ◌≡◌, ◌≢◌, refl, ap, ◌∙◌, subst, inl, inr, Bool, true, false, List, [], ◌∷◌, Option, none, some,
  ◌==◌, if◌then◌else◌, Bool-cases, Option-cases, arith,
}
use cute_ipc.Prelude.Result.{Result, ok, fail, fault}
use cute_ipc.Prelude.Text.{Text, Bytes, mid_one, same_refl}
use cute_ipc.Qt.{Qt}
use cute_ipc.MetaObjects.{MetaObjects}
use cute_ipc.InterfaceConnection.{
  InterfaceConnection, Event, error_occured, call_finished, socket_disconnected,
  invoke_remote_signal,
}
use cute_ipc.Interface.State.{
  MethodData, Interface, set_last_error, register_connection, has_connection, remove_connection,
}
use cute_ipc.Interface.Request.{
  Outcome, returned, waiting, undefined, ◌>>=◌, Server, Exchange, Reply, report, after_loop,
  server_of, send_to, send_synchronous_request, with_request, send_remote_connect_request,
  send_remote_disconnect_request,
}
use cute_ipc.Interface.Connect.{
  is_signal_and_method, check_connect_correction, has_method, connect_if_new, remote_connect,
  disconnect_if_last, disconnect_signal,
}
use cute_ipc.Interface.Tables.{same_data_refl}

-- Inversion of a bind that returns.
pub >>=-eq-returned :
    {A B : Type 0} (m : Outcome A) (f : A → Outcome B) {b : B}
    → (m >>= f) ≡ returned b
    → (a : A) × (m ≡ returned a) × (f a ≡ returned b)
>>=-eq-returned (returned a) f h = (a, refl, h)
>>=-eq-returned waiting f h = cc
>>=-eq-returned undefined f h = cc

module _ {V I : Type 0} where
  -- The tables are the same.
  pub record SameTables (d d' : Interface V I) : Type 0 where
    pub connections : d'.connections ≡ d.connections
    pub handlers : d'.local_signal_handlers ≡ d.local_signal_handlers

  report-SameTables : (es : List (Event V I)) (d : Interface V I) → SameTables d (report es d)
  unfolding report set_last_error
  report-SameTables [] d = record { connections = refl; handlers = refl }
  report-SameTables (error_occured t ∷ es) d =
      let r = report-SameTables es (set_last_error t d) in
      record { connections = r.connections; handlers = r.handlers }
  report-SameTables (call_finished ∷ es) d = report-SameTables es d
  report-SameTables (socket_disconnected ∷ es) d = report-SameTables es d
  report-SameTables (invoke_remote_signal t args ∷ es) d = report-SameTables es d

  after_loop-SameTables :
      (d : Interface V I) (c : Result (Option (InterfaceConnection V I))) {r : Reply V I}
      → after_loop d c ≡ returned r
      → SameTables d r.interface
  unfolding after_loop
  after_loop-SameTables d (ok (some c)) {r} h =
      let e : report c.emitted d ≡ r.interface = ground arith in
      subst (SameTables d) e (report-SameTables c.emitted d)
  after_loop-SameTables d (ok none) h = cc
  after_loop-SameTables d fail h = cc
  after_loop-SameTables d fault h = cc

module _ {V I W : Type 0} (q : Qt V I) (o : MetaObjects V I W)
    (net : Server → Bytes → Exchange) where
  send_to-SameTables :
      (server : Server) (request : Bytes) (slot : Option Text) (d : Interface V I) {r : Reply V I}
      → send_to q o net server request slot d ≡ returned r
      → SameTables d r.interface
  unfolding send_to set_last_error
  send_to-SameTables server request slot d {r} h =
      elim (Bool-cases (net server request).connected) [
        | inl e ↦ after_loop-SameTables d _ (rw e at h)
        | inr e ↦
            let h' = rw (e, send_to) at h in
            record { connections = ground arith; handlers = ground arith }
      ]

  pub send_synchronous_request-SameTables :
      (request : Bytes) (slot : Option Text) (d : Interface V I) {r : Reply V I}
      → send_synchronous_request q o net request slot d ≡ returned r
      → SameTables d r.interface
  unfolding send_synchronous_request
  send_synchronous_request-SameTables request slot d {r} h = elim (Option-cases (server_of d)) [
    | inl e ↦
        let h' = rw (e, send_synchronous_request) at h in
        record { connections = ground arith; handlers = ground arith }
    | inr (server, e) ↦
        send_to-SameTables server request slot d (rw (e, send_synchronous_request) at h)
  ]

  with_request-SameTables :
      (m : Result Bytes) (d : Interface V I) {r : Reply V I}
      → with_request q o net m (λ request. send_synchronous_request q o net request none d)
        ≡ returned r
      → SameTables d r.interface
  unfolding with_request
  with_request-SameTables (ok request) d h = send_synchronous_request-SameTables request none d h
  with_request-SameTables fail d h = cc
  with_request-SameTables fault d h = cc

module _ {V I W : Type 0} (q : Qt V I) (o : MetaObjects V I W) where
  check-SameTables :
      (signal method : Text) (d : Interface V I)
      → SameTables d (check_connect_correction q o signal method d).0
  unfolding check_connect_correction set_last_error
  check-SameTables signal method d = record { connections = ground arith; handlers = ground arith }

  check_tests :
      (signal method : Text) (d : Interface V I)
      → (check_connect_correction q o signal method d).1 ≡ true
      → is_signal_and_method signal method ≡ true
  unfolding check_connect_correction
  check_tests signal method d h = ground arith

module _ {V I W : Type 0} (q : Qt V I) (o : MetaObjects V I W) (net : Server → Bytes → Exchange)
    (connection_id : Text) where
  connect_if_new-SameTables :
      (signal : Text) (d : Interface V I) {r : Reply V I}
      → connect_if_new q o net connection_id signal d ≡ returned r
      → SameTables d r.interface
  unfolding connect_if_new send_remote_connect_request
  connect_if_new-SameTables signal d {r} h =
      elim (Bool-cases (has_connection signal d.connections)) [
        | inl e ↦
            let h' = rw (e, connect_if_new) at h in
            record { connections = ground arith; handlers = ground arith }
        | inr e ↦ with_request-SameTables q o net _ d (rw (e, connect_if_new) at h)
      ]

  -- remoteConnect returns. If it reports success, the object is not null and its method is registered
  -- for the signal, above the connections that there were; if it reports failure, the connections are
  -- as they were. A success also means that the first characters of the texts told a signal and a slot
  -- or signal. The handlers of local signals are as they were in both cases.
  pub remote_connect_registers :
      (signal method : Text) (object : ℕ) (d d' : Interface V I) (b : Bool)
      → remote_connect q o net connection_id signal object method d ≡ returned (d', b)
      → (d'.connections ≡ (
          if b
          then (mid_one signal, record { object = object; method = mid_one method }) ∷ d.connections
          else d.connections))
        × (b ≡ true → object ≢ 0)
        × (b ≡ true → is_signal_and_method signal method ≡ true)
        × (d'.local_signal_handlers ≡ d.local_signal_handlers)
  unfolding remote_connect set_last_error register_connection
  remote_connect_registers signal method object d d' b h =
      let checked = check-SameTables q o signal method d in
      elim (Bool-cases (object == 0)) [
        | inl e ↦
            let h' = rw (e, remote_connect) at h in
            (ground arith, ground arith, ground arith, ground arith)
        | inr e ↦ elim (Bool-cases (check_connect_correction q o signal method d).1) [
          | inr f ↦
              let h' = rw (e, remote_connect, f) at h in
              (
                ground (arith, checked.connections),
                ground arith,
                ground arith,
                ground (arith, checked.handlers),
              )
          | inl f ↦ elim (Bool-cases (has_method q o object method)) [
            | inr g ↦
                let h' = rw (e, remote_connect, f, g) at h in
                (
                  ground (arith, checked.connections),
                  ground arith,
                  ground arith,
                  ground (arith, checked.handlers),
                )
            | inl g ↦
                let (r, asked, end) =
                  >>=-eq-returned
                    (connect_if_new q o net connection_id (mid_one signal)
                      (check_connect_correction q o signal method d).0)
                    _ (rw (e, remote_connect, f, g) at h) in
                let k = connect_if_new-SameTables (mid_one signal) _ asked in
                (
                  ground (arith, checked.connections, k.connections),
                  ground arith,
                  λ _. check_tests q o signal method d f,
                  ground (arith, checked.handlers, k.handlers),
                )
          ]
        ]
      ]

  disconnect_if_last-SameTables :
      (signal : Text) (d : Interface V I) {d' : Interface V I} {b : Bool}
      → disconnect_if_last q o net connection_id signal d ≡ returned (d', b)
      → SameTables d d' × (b ≡ true)
  unfolding disconnect_if_last send_remote_disconnect_request
  disconnect_if_last-SameTables signal d {d'} {b} h =
      elim (Bool-cases (has_connection signal d.connections)) [
        | inl e ↦
            let h' = rw (e, disconnect_if_last) at h in
            (record { connections = ground arith; handlers = ground arith }, ground arith)
        | inr e ↦
            let (r, asked, end) =
              >>=-eq-returned (send_remote_disconnect_request q o net connection_id signal d) _
                (rw (e, disconnect_if_last) at h) in
            let k = with_request-SameTables q o net _ d asked in
            (
              record {
                connections = ground (arith, k.connections);
                handlers = ground (arith, k.handlers);
              },
              ground arith,
            )
      ]

  -- A remote signal is connected to a method of a local object, and disconnectSignal is called for the
  -- same signal, object and method. If both calls return and the connection was made, the
  -- disconnection reports success, and the connections are those there were at first without the
  -- entries of that signal, object and method.
  pub connected_disconnected_signal :
      (signal method : Text) (object : ℕ) (d d1 d2 : Interface V I) (b : Bool)
      → remote_connect q o net connection_id signal object method d ≡ returned (d1, true)
      → disconnect_signal q o net connection_id signal object method d1 ≡ returned (d2, b)
      → (b ≡ true)
        × (d2.connections
            ≡ remove_connection
                (mid_one signal)
                (record { object = object; method = mid_one method })
                d.connections)
        × (d2.local_signal_handlers ≡ d.local_signal_handlers)
  unfolding disconnect_signal remove_connection
  connected_disconnected_signal signal method object d d1 d2 b h k =
      let (registered, not_null, tests, handlers) =
        remote_connect_registers signal method object d d1 true h in
      let e : (object == 0) ≡ false = ground (arith, not_null) in
      let m : MethodData = record { object = object; method = mid_one method } in
      let (same_tables, success) =
        disconnect_if_last-SameTables (mid_one signal)
          (record d1 { connections = remove_connection (mid_one signal) m d1.connections })
          (rw (e, disconnect_signal, tests refl) at k) in
      (
        success,
        same_tables.connections
            ∙ ap (remove_connection (mid_one signal) m) registered
            ∙ rw (same_refl (mid_one signal), same_data_refl m) refl,
        same_tables.handlers ∙ handlers,
      )
