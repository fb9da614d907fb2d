-- ===== src/Remote/Unsent.antt =====
-- A call with an argument that cannot be marshalled (src/CuteIPCMarshaller.cpp,
-- src/CuteIPCInterfaceConnection.cpp, src/CuteIPCServiceConnection.cpp).
use cute_ipc.Prelude.{true, ◌≡◌, refl, sym, ap, ◌∙◌, append-nil, List, [], some, arith}
use cute_ipc.Prelude.Result.{ok, fail}
use cute_ipc.Prelude.Text.{Text, Bytes}
use cute_ipc.Qt.{Qt}
use cute_ipc.MetaObjects.{MetaObjects}
use cute_ipc.Message.{GenericArgument, message_call_with_return, from_values}
use cute_ipc.Interface.State.{Interface}
use cute_ipc.Interface.Request.{
  waiting, Server, Exchange, after_loop, server_of, send_to, send_synchronous_request, with_request,
  call,
}
use cute_ipc.Marshaller.Write.{marshall_arguments, or_empty, marshall_message}
use cute_ipc.Receiver.{
  idle, fetch_size, read_message, read_message_service, ready_read, ready_read_loop, receive,
}
use cute_ipc.InterfaceConnection.{InterfaceConnection, send_call_request, wait}

module _ {V I W : Type 0} (q : Qt V I) (o : MetaObjects V I W)
    (net : Server → Bytes → Exchange) where
  -- A call with an argument that cannot be marshalled goes to a server that it can be connected to.
  -- Its request is empty, and is sent as four bytes; the service that gets them is idle with no
  -- message to process, and if nothing else arrives from the server, `call` waits for ever.
  pub unmarshalled_call_waits :
      (method ret : Text) (vals : List (GenericArgument V I)) (d : Interface V I) (server : Server)
      (client : InterfaceConnection V I)
      → marshall_arguments q (from_values message_call_with_return method vals ret).arguments ≡ fail
      → client.written ≡ []
      → server_of d ≡ some server
      → net server [] ≡ record { connected = true; arrivals = [] }
      → (receive (read_message_service q.stream) (idle []) (send_call_request q [] client).written
          ≡ some (idle [], []))
        × (call q o net method ret vals d ≡ waiting)
  unfolding marshall_message or_empty send_call_request receive ready_read ready_read_loop
      read_message_service read_message fetch_size wait call with_request send_synchronous_request
      send_to after_loop
  unmarshalled_call_waits method ret vals d server client h fresh there silent =
      let l = q.length-put_uint 0 in
      let e : q.get_uint (q.put_uint 0) ≡ (0, []) =
        ap q.get_uint (sym (append-nil (q.put_uint 0))) ∙ q.get_uint-put_uint 0 [] (omega arith) in
      let empty : marshall_message q (from_values message_call_with_return method vals ret)
          ≡ ok [] =
        rw h refl in
      (
        rw (fresh, append-nil (q.put_uint 0), l, e) refl,
        rw (empty, call, there, send_synchronous_request, silent, send_to) refl,
      )
