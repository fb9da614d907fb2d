-- ===== src/Client/Signals.antt =====
-- A signal of the service's subject on its way to the methods of local objects
-- (src/CuteIPCSignalHandler.cpp, src/CuteIPCInterfaceConnection.cpp, src/CuteIPCInterface.cpp).
use cute_ipc.Prelude.{
  ℕ, ◌<◌, ◌≤◌, ◌≡◌, ◌≢◌, refl, sym, ap, ◌∙◌, List, [], ◌∷◌, ◌++◌, append-nil, some, length, All,
  arith,
}
use cute_ipc.Prelude.Result.{ok}
use cute_ipc.Prelude.Text.{Text, Bytes}
use cute_ipc.Prelude.Hash.{lookup}
use cute_ipc.Qt.{Qt}
use cute_ipc.MetaObjects.{MetaObjects}
use cute_ipc.Message.{Datum, GenericArgument, Message, message_signal, from_arguments}
use cute_ipc.Marshaller.Write.{marshall_message}
use cute_ipc.Marshaller.RoundTrip.{IsSendable}
use cute_ipc.Receiver.{idle, read_message_interface, receive_all}
use cute_ipc.Receiver.Chunks.{concat, interface_receives-frames}
use cute_ipc.SignalHandler.{SignalHandler, relay_arguments, relay_slot, parameter_info}
use cute_ipc.Service.{Service, handler_captures}
use cute_ipc.Service.Delivery.{deliveries}
use cute_ipc.Service.Subscriptions.{emits_to_all}
use cute_ipc.InterfaceConnection.{InterfaceConnection, block, invoke_remote_signal, handle_arrival}
use cute_ipc.InterfaceConnection.Waiting.{handle_block-IsNotice}
use cute_ipc.Interface.State
use cute_ipc.Interface.State.{Interface}
use cute_ipc.Worker.{is_disconnected, worker_receives}
use cute_ipc.Client.{Client, pass_on, client_receives}

module _ {V I W : Type 0} (q : Qt V I) (o : MetaObjects V I W) where
  -- A signal message at the long-lived connection.
  pub signal_received :
      (m : Message V I) (bytes : Bytes) (c : Client V I) (address : ℕ)
      (conn : InterfaceConnection V I)
      → marshall_message q m ≡ ok bytes
      → bytes ≢ []
      → m.message_type ≡ message_signal
      → All IsSendable m.arguments
      → length m.arguments ≤ 10
      → c.worker.connection ≡ some (address, conn)
      → client_receives q o (block bytes) c
        ≡ ok (record {
          worker = record c.worker {
            connection =
                some (
                  address,
                  record conn { emitted = invoke_remote_signal m.method m.arguments ∷ [] },
                );
          };
          interface =
              cute_ipc.Interface.State.invoke_remote_signal q o m.method m.arguments c.interface;
        })
  unfolding client_receives worker_receives handle_arrival is_disconnected pass_on
  signal_received m bytes c address conn e ne is_signal sendable small connected =
      rw
        (
          connected,
          worker_receives,
          handle_block-IsNotice q m bytes (record conn { emitted = [] })
              (e, ne, rw is_signal (tt, sendable, small), rw is_signal tt),
          is_signal,
        )
        refl

  pub relayed :
      (parent : ℕ) (values : List (Datum V I)) (h : SignalHandler)
      (arguments : List (GenericArgument V I)) (bytes : Bytes)
      → relay_arguments q o (parameter_info q o parent h) values ≡ ok arguments
      → marshall_message q (from_arguments message_signal h.signature arguments []) ≡ ok bytes
      → relay_slot q o parent values h
        ≡ ok (record h { parameters = some (parameter_info q o parent h) }, bytes)
  unfolding relay_slot
  relayed parent values h arguments bytes e e' = rw (e, e') refl

  -- A handler of the service captures a signal of the subject: the service returns and has sent
  -- the signal's bytes, framed, to each connection of the handler; when a frame arrives at a
  -- client in pieces of any sizes, its receiver hands on exactly these bytes; and the client
  -- that gets them queues, with the values emitted, calls of the methods registered for the
  -- signal that take values of these types. The conditions: there is a value for each
  -- parameter, at most ten, the message can be marshalled, to 1 to 2 ^ 31 - 1 bytes, and read
  -- back, and the client has a connection.
  pub signal_travels :
      (signature : Text) (values : List (Datum V I)) (s : Service) (h : SignalHandler)
      (arguments : List (GenericArgument V I)) (bytes : Bytes) (c : Client V I) (address : ℕ)
      (conn : InterfaceConnection V I) (pieces : List Bytes)
      → lookup signature s.handlers ≡ some h
      → relay_arguments q o (parameter_info q o s.service_object h) values ≡ ok arguments
      → marshall_message q (from_arguments message_signal h.signature arguments []) ≡ ok bytes
      → 0 < length bytes
      → length bytes < 2147483648
      → All IsSendable arguments
      → length arguments ≤ 10
      → c.worker.connection ≡ some (address, conn)
      → concat pieces ≡ q.put_uint (length bytes) ++ bytes
      → (s' : Service) × (c' : Client V I) × (handler_captures q o signature values s ≡ ok s')
        × (s'.sent ≡ s.sent ++ deliveries q o bytes h.wired)
        × (receive_all (read_message_interface q.stream) (idle []) pieces
            ≡ some (idle [], bytes ∷ []))
        × (client_receives q o (block bytes) c ≡ ok c')
        × (c'.interface
            ≡ cute_ipc.Interface.State.invoke_remote_signal q o h.signature arguments c.interface)
  unfolding from_arguments
  signal_travels signature values s h arguments bytes c address conn pieces there args marshalled
        positive small sendable few connected cut =
      let (s', emitted, sent) =
        emits_to_all q o signature values s h
          (record h { parameters = some (parameter_info q o s.service_object h) }) bytes there
          (relayed s.service_object values h arguments bytes args marshalled) in
      let m : Message V I = from_arguments message_signal h.signature arguments [] in
      let not_empty : bytes ≢ [] = λ e. omega (arith, positive, ap length e) in
      (
        s',
        _,
        emitted,
        sent,
        interface_receives-frames q.stream pieces (bytes ∷ []) ((positive, small), tt)
            (cut ∙ ap (λ b. q.put_uint (length bytes) ++ b) (sym (append-nil bytes))),
        signal_received m bytes c address conn marshalled not_empty refl sendable few connected,
        refl,
      )
