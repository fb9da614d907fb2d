-- ===== src/Client/Handshake.antt =====
-- Connecting to a server and disconnecting from it (src/CuteIPCInterface.cpp,
-- src/CuteIPCInterfaceWorker.cpp), with the service at the other end.
use cute_ipc.Prelude.{
  ℕ, ◌≡◌, ◌≢◌, refl, sym, ap, ◌∙◌, Bool, true, false, List, [], ◌∷◌, ◌++◌, none, some, length,
  is_nil, arith,
}
use cute_ipc.Prelude.Result.{ok}
use cute_ipc.Prelude.Text.{Text, Bytes, text, same_refl}
use cute_ipc.Prelude.Hash.{lookup, insert, lookup-insert}
use cute_ipc.Qt.{Qt}
use cute_ipc.MetaObjects.{MetaObjects}
use cute_ipc.Message.{connection_initialize, message_response, from_values}
use cute_ipc.Marshaller.Write.{marshall_message}
use cute_ipc.Marshaller.RoundTrip.{demarshall_message-marshall_message}
use cute_ipc.Service.{send_response, send_response_message, initialize_connection}
use cute_ipc.ServiceConnection.{
  ServiceConnection, State, fill_arguments, connection_id_of, initialize, dispatch, process_call,
  process_message,
}
use cute_ipc.InterfaceConnection.{
  InterfaceConnection, Event, Arrival, block, error_occured, socket_disconnected, call_finished,
  new_connection, send_call_request, emit,
}
use cute_ipc.InterfaceConnection.Answer.{IsLater}
use cute_ipc.InterfaceConnection.Waiting.{wait-acknowledged}
use cute_ipc.Interface.Connections.{>>=-eq-returned}
use cute_ipc.Interface.State.{Interface, set_last_error, invoke_remote_signal}
use cute_ipc.Interface.Request.{
  returned, waiting, Server, local_server, tcp_server, Exchange, server_of, string_argument,
}
use cute_ipc.Worker.{
  Worker, or_replaced, is_disconnected, settle, initialize_request, after_handshake, handshake,
  connect_to_server, disconnect_from_server, connection_id, forward_request,
}
use cute_ipc.Client.{Client, forward_all, pass_on, remember, connect_client, disconnect_client}

module _ {V I W : Type 0} (q : Qt V I) (o : MetaObjects V I W) (number : ℕ → Text) where
  registration_processed :
      (sc : ServiceConnection) (s : State W) (address : ℕ) (request reply : Bytes)
      → initialize_request q number address ≡ ok request
      → request ≢ []
      → marshall_message q
          (from_values message_response (text "connectionInitialize_" ++ number address) [] [])
        ≡ ok reply
      → process_message q o sc request s
        ≡ ok (record s {
          service = send_response q o sc.id reply (record s.service {
            long_lived = insert (number address) sc.id s.service.long_lived;
          });
        })
  unfolding initialize_request process_message process_call dispatch initialize connection_id_of
      initialize_connection send_response_message fill_arguments from_values
  registration_processed sc s address request reply e ne answered =
      rw
        (
          demarshall_message-marshall_message q
              (from_values connection_initialize [] (string_argument q (number address) ∷ []) [])
              request e ne (tt, ((ground arith, tt), tt), omega arith),
          q.as_string-string_value (number address),
          answered,
        )
        refl

  -- A client connects to a server that can be reached, and its registration gets to a service
  -- that answers, with no other block at the socket with the answer: the service has the id of
  -- the client's connection among its long-lived connections and has sent the answer;
  -- connectToServer reports success, the worker has the connection, whose id is the registered
  -- one, and a connection that it had before lives on. The conditions: the registration and its
  -- answer can be marshalled and are not empty.
  pub connected_is_registered :
      (net : Server → Bytes → Exchange) (server : Server) (c : Client V I) (sc : ServiceConnection)
      (s : State W) (address : ℕ) (request reply : Bytes) (more : List Arrival)
      → initialize_request q number address ≡ ok request
      → request ≢ []
      → marshall_message q
          (from_values message_response (text "connectionInitialize_" ++ number address) [] [])
        ≡ ok reply
      → reply ≢ []
      → IsLater more
      → net server request ≡ record { connected = true; arrivals = block reply ∷ more }
      → (s' : State W) × (c' : Client V I) × (process_message q o sc request s ≡ ok s')
        × (lookup (number address) s'.service.long_lived ≡ some sc.id)
        × (s'.service.sent ≡ s.service.sent ++ (sc.id, q.put_uint (length reply) ++ reply) ∷ [])
        × (connect_client q o number net address server c ≡ returned (c', true))
        × (connection_id q number c'.worker ≡ number address)
        × (c'.worker.replaced ≡ or_replaced c.worker.connection c.worker.replaced)
        × (c'.interface ≡ remember server c.interface)
  unfolding connect_client connect_to_server handshake after_handshake settle is_disconnected
      connection_id send_call_request new_connection pass_on send_response
  connected_is_registered net server c sc s address request reply more e ne answered ne' later
        carried =
      let sent : InterfaceConnection V I = send_call_request q request (new_connection q) in
      let s' : State W = record s {
        service =
            send_response q o sc.id reply (record s.service {
              long_lived = insert (number address) sc.id s.service.long_lived;
            });
      } in
      let c' : Client V I = record {
        worker = settle address server (emit q (call_finished ∷ []) sent) c.worker;
        interface = remember server c.interface;
      } in
      (
        s',
        c',
        registration_processed sc s address request reply e ne answered,
        lookup-insert (number address) (number address) sc.id s.service.long_lived
            ∙ rw (same_refl (number address)) refl,
        refl,
        rw
            (
              e,
              connect_to_server,
              connect_client,
              carried,
              handshake,
              wait-acknowledged q (text "connectionInitialize_" ++ number address) reply more sent
                  answered ne' later,
            )
            refl,
        refl,
        refl,
        refl,
      )

module _ {V I : Type 0} (q : Qt V I) (number : ℕ → Text) where
  forward_all-unconnected :
      (rs : List Bytes) (w : Worker V I) → w.connection ≡ none → forward_all q rs w ≡ w
  unfolding forward_all forward_request
  forward_all-unconnected [] w e = refl
  forward_all-unconnected (r ∷ rs) w e =
      ap (forward_all q rs) (rw (e, forward_request) (λ i. record w { connection = e i }))
      ∙ forward_all-unconnected rs w e

  -- A client with a connection disconnects from its server: this returns, the interface is as it was,
  -- and the connection's id is that of no connection. After that all requests are dropped, and to
  -- disconnect once more never returns, since the worker does not tell that it has finished.
  pub disconnected_twice :
      (c : Client V I) (server : Server) (rs : List Bytes)
      → c.worker.socket ≡ some server
      → (c' : Client V I) × (disconnect_client c ≡ returned c')
        × (c'.interface ≡ c.interface)
        × (connection_id q number c'.worker ≡ number 0)
        × (forward_all q rs c'.worker ≡ c'.worker)
        × (disconnect_client c' ≡ waiting)
  unfolding disconnect_client disconnect_from_server connection_id
  disconnected_twice c server rs e =
      let w : Worker V I = record c.worker { socket = none; connection = none } in
      (
        record { interface = c.interface; worker = w },
        rw e refl,
        refl,
        refl,
        forward_all-unconnected rs w refl,
        refl,
      )

module _ {V I W : Type 0} (q : Qt V I) (o : MetaObjects V I W) where
  pass_on-local_server :
      (es : List (Event V I)) (d : Interface V I) → (pass_on q o es d).local_server ≡ d.local_server
  unfolding pass_on set_last_error invoke_remote_signal
  pass_on-local_server [] d = refl
  pass_on-local_server (error_occured t ∷ es) d = pass_on-local_server es (set_last_error t d)
  pass_on-local_server (Event.invoke_remote_signal t args ∷ es) d =
      pass_on-local_server es (invoke_remote_signal q o t args d)
  pass_on-local_server (call_finished ∷ es) d = pass_on-local_server es d
  pass_on-local_server (socket_disconnected ∷ es) d = pass_on-local_server es d

module _ {V I W : Type 0} (q : Qt V I) (o : MetaObjects V I W) (number : ℕ → Text) where
  -- An interface that remembers a local server connects to a TCP server. If this returns, with or
  -- without success, the interface's synchronous requests go to the local server as before.
  pub tcp_leaves_requests_local :
      (net : Server → Bytes → Exchange) (address host port : ℕ) (c c' : Client V I) (b : Bool)
      → is_nil c.interface.local_server ≡ false
      → connect_client q o number net address (tcp_server host port) c ≡ returned (c', b)
      → server_of c'.interface ≡ some (local_server c.interface.local_server)
  unfolding connect_client remember server_of
  tcp_leaves_requests_local net address host port c c' b known e =
      let (r, e1, e2) =
        >>=-eq-returned (connect_to_server q number net address (tcp_server host port) c.worker) _
          e in
      let d = pass_on q o r.events c.interface in
      let same_interface : record d { tcp_address = some (host, port) } ≡ c'.interface =
        ground arith in
      let kept = pass_on-local_server q o r.events c.interface in
      sym (ap server_of same_interface) ∙ rw (kept, known) refl
