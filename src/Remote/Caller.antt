-- ===== src/Remote/Caller.antt =====
-- CuteIPCInterface::call (src/CuteIPCInterface.cpp) and the service that answers it
-- (src/CuteIPCServiceConnection.cpp), over a network that carries the request there and the response
-- back.
use cute_ipc.Prelude.{◌≡◌, ◌≢◌, refl, true, false, List, [], ◌∷◌, none, some}
use cute_ipc.Prelude.Result.{ok}
use cute_ipc.Prelude.Text.{Text, Bytes, text}
use cute_ipc.Qt.{Qt}
use cute_ipc.MetaObjects.{MetaObjects}
use cute_ipc.Message.{
  Datum, GenericArgument, Message, message_call_with_return, message_error, from_values,
}
use cute_ipc.Marshaller.Write.{marshall_message}
use cute_ipc.Marshaller.RoundTrip.{IsSmall}
use cute_ipc.Marshaller.Response.{value_response}
use cute_ipc.Service.{send_response}
use cute_ipc.ServiceConnection.{ServiceConnection, State, fill_arguments, process_message}
use cute_ipc.Interface.State.{Interface, set_last_error}
use cute_ipc.InterfaceConnection.{block}
use cute_ipc.Interface.Request.{
  returned, Server, Exchange, report, after_loop, server_of, send_to, send_synchronous_request,
  with_request, call,
}
use cute_ipc.Remote.Call.{target, IsCall, call_succeeds, call_refused}

module _ {V I W : Type 0} (q : Qt V I) (o : MetaObjects V I W)
    (net : Server → Bytes → Exchange) where
  -- The request of a call goes to a server that it can be connected to, whose service has the method,
  -- and the network carries the service's answer back. The service invokes the method with the call's
  -- arguments, filled up to ten, and sends its value; `call` reports success, the caller's variable
  -- holds the value, and the interface is as it was. The conditions: request and response can be
  -- marshalled and are not empty, the request can be read back, the type of the result is named in
  -- Latin-1, registered, and within the limits of the wire.
  pub remote_call_succeeds :
      (c : ServiceConnection) (s : State W) (d : Interface V I) (server : Server)
      (method ret : Text) (vals : List (GenericArgument V I)) (request reply : Bytes) (world : W)
      (value : Datum V I)
      → IsCall q o (from_values message_call_with_return method vals ret) request
      → o.invoke_returning s.world
          (target q o c s)
          (q.to_latin1 method)
          ret
          (fill_arguments (from_values message_call_with_return method vals ret).arguments)
        ≡ some (world, value)
      → IsSmall (some value)
      → marshall_message q (value_response q method (record { name = ret; value = some value }))
        ≡ ok reply
      → reply ≢ []
      → server_of d ≡ some server
      → net server request ≡ record { connected = true; arrivals = block reply ∷ [] }
      → (process_message q o c request s
          ≡ ok (record { service = send_response q o c.id reply s.service; world = world }))
        × (call q o net method ret vals d
            ≡ returned (record { interface = d; success = true; stored = some value }))
  unfolding call with_request send_synchronous_request send_to after_loop report from_values
  remote_call_succeeds c s d server method ret vals request reply world value is_call invoked small
        marshalled ne there carried =
      let m : Message V I = from_values message_call_with_return method vals ret in
      let (answered, waited) =
        call_succeeds q o c s m request reply world value is_call invoked small marshalled ne in
      (
        answered,
        rw (is_call.marshalled, call, there, send_synchronous_request, carried, send_to, waited)
            refl,
      )

  -- The same, with a service that refuses the call. The objects of the service are as they were, and
  -- it sends an error; `call` reports failure, nothing is stored, and the last error of the interface
  -- is the text of the error.
  pub remote_call_refused :
      (c : ServiceConnection) (s : State W) (d : Interface V I) (server : Server)
      (method ret : Text) (vals : List (GenericArgument V I)) (request reply : Bytes)
      → IsCall q o (from_values message_call_with_return method vals ret) request
      → o.invoke_returning s.world
          (target q o c s)
          (q.to_latin1 method)
          ret
          (fill_arguments (from_values message_call_with_return method vals ret).arguments)
        ≡ none
      → marshall_message q (from_values message_error (text "Unsuccessful invoke") [] []) ≡ ok reply
      → reply ≢ []
      → server_of d ≡ some server
      → net server request ≡ record { connected = true; arrivals = block reply ∷ [] }
      → (process_message q o c request s
          ≡ ok (record { service = send_response q o c.id reply s.service; world = s.world }))
        × (call q o net method ret vals d
            ≡ returned (record {
              interface = set_last_error (text "Unsuccessful invoke") d;
              success = false;
              stored = none;
            }))
  unfolding call with_request send_synchronous_request send_to after_loop report from_values
  remote_call_refused c s d server method ret vals request reply is_call refused marshalled ne there
        carried =
      let m : Message V I = from_values message_call_with_return method vals ret in
      let (answered, waited) = call_refused q o c s m request reply is_call refused marshalled ne in
      (
        answered,
        rw (is_call.marshalled, call, there, send_synchronous_request, carried, send_to, waited)
            refl,
      )
