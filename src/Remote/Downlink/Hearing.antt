-- ===== src/Remote/Downlink/Hearing.antt =====
-- What a client does with a message of a running service (src/CuteIPCInterfaceConnection.cpp,
-- src/CuteIPCInterfaceWorker.cpp, src/CuteIPCInterface.cpp).
use cute_ipc.Prelude.{
  ℕ, ◌≡◌, ◌≢◌, refl, sym, ap, ◌∙◌, subst, inl, inr, false, List, [], ◌∷◌, ◌++◌, append_assoc,
  append-nil, some, length, arith,
}
use cute_ipc.Prelude.Result.{ok, >>=-eq-ok, Result-cases}
use cute_ipc.Prelude.Text.{Bytes}
use cute_ipc.Qt.{Qt}
use cute_ipc.MetaObjects.{MetaObjects}
use cute_ipc.Message.{Message, MessageType, message_response, message_error, message_signal}
use cute_ipc.Marshaller.Read.{demarshall_message, demarshall_response}
use cute_ipc.Marshaller.Write.{marshall_message}
use cute_ipc.Marshaller.RoundTrip.{IsSendableMessage, demarshall_message-marshall_message}
use cute_ipc.Receiver.Pending.{IsBlock}
use cute_ipc.InterfaceConnection.{
  InterfaceConnection, Event, call_finished, error_occured, invoke_remote_signal, block,
  handle_type, handle_block, handle_arrival,
}
use cute_ipc.InterfaceConnection.Answer.{demarshall_message_type-marshall_message}
use cute_ipc.Interface.State.{Interface}
use cute_ipc.Worker.{is_disconnected, worker_receives}
use cute_ipc.Client.{Client, pass_on, client_receives}
use cute_ipc.Remote.Downlink.{IsForClient, learn, receive_blocks, Heard, hears}

module _ {V I W : Type 0} (q : Qt V I) (o : MetaObjects V I W) where
  -- The messages of blocks that the service wrote.
  abbrev pub Written : List (Message V I) → List Bytes → Type 0
  Written [] [] = Unit {0}
  Written (m ∷ ms) (b ∷ bs) =
      IsForClient m.message_type
      × (marshall_message q m ≡ ok b)
      × IsSendableMessage m
      × IsBlock b
      × Written ms bs
  Written _ _ = ⊥

  -- The connection is kept, and the interface learns of the message.
  abbrev Learns : Message V I → Client V I → Client V I → Type 0
  Learns m c c' =
      (address : ℕ) × (conn : InterfaceConnection V I) × (c'.worker.connection
        ≡ some (address, conn))
      × (c'.interface ≡ learn q o m.message_type m c.interface)

  -- The signals of the connection on a message.
  abbrev events_of : MessageType → Message V I → List (Event V I)
  events_of message_response m = call_finished ∷ []
  events_of message_error m = error_occured m.method ∷ call_finished ∷ []
  events_of message_signal m = invoke_remote_signal m.method m.arguments ∷ []
  events_of _ m = []

  handle_type-emitted :
      (t : MessageType) (m : Message V I) (b : Bytes) (conn conn' : InterfaceConnection V I)
      → IsForClient t
      → demarshall_message q b ≡ ok m
      → conn.emitted ≡ []
      → handle_type q t b conn ≡ ok conn'
      → conn'.emitted ≡ events_of t m
  unfolding handle_type
  handle_type-emitted message_response m b conn conn' k e quiet h =
      let (r, e1, e2) = >>=-eq-ok (demarshall_response q b conn.returned_object) _ h in
      ground (arith, quiet)
  handle_type-emitted message_error m b conn conn' k e quiet h = ground (arith, quiet, rw e at h)
  handle_type-emitted message_signal m b conn conn' k e quiet h = ground (arith, quiet, rw e at h)
  handle_type-emitted _ m b conn conn' k e quiet h = absurd k

  events_kept :
      (t : MessageType) (m : Message V I) → IsForClient t → is_disconnected (events_of t m) ≡ false
  unfolding is_disconnected
  events_kept message_response m k = refl
  events_kept message_error m k = refl
  events_kept message_signal m k = refl
  events_kept _ m k = absurd k

  pass_on-learn :
      (t : MessageType) (m : Message V I) (d : Interface V I)
      → IsForClient t
      → pass_on q o (events_of t m) d ≡ learn q o t m d
  unfolding pass_on learn
  pass_on-learn message_response m d k = refl
  pass_on-learn message_error m d k = refl
  pass_on-learn message_signal m d k = refl
  pass_on-learn _ m d k = absurd k

  client_receives-Learns :
      (m : Message V I) (b : Bytes) (c c' : Client V I) (address : ℕ)
      (conn : InterfaceConnection V I)
      → Written (m ∷ []) (b ∷ [])
      → c.worker.connection ≡ some (address, conn)
      → client_receives q o (block b) c ≡ ok c'
      → Learns m c c'
  unfolding client_receives worker_receives handle_arrival handle_block
  client_receives-Learns m b c c' address conn (k, e, sendable, (positive, small), last) connected
        h =
      let t = m.message_type in
      let not_empty : b ≢ [] = λ nil. omega (arith, positive, ap length nil) in
      let read = demarshall_message-marshall_message q m b e not_empty sendable in
      let kind = demarshall_message_type-marshall_message q m b e not_empty sendable.0 in
      let quiet = record conn { emitted = [] } in
      elim (Result-cases (handle_type q t b quiet)) [
        | inl (conn', e1) ↦
            let events = handle_type-emitted t m b quiet conn' k read refl e1 in
            let end = rw (connected, worker_receives, kind, e1, events, events_kept t m k) at h in
            let last_state = record conn' { emitted = events_of t m } in
            let whole : record {
              worker = record c.worker { connection = some (address, last_state) };
              interface = pass_on q o (events_of t m) c.interface;
            }
                ≡ c' =
              ground (arith, end) in
            (
              address,
              last_state,
              ap (λ x. x.worker.connection) (sym whole),
              ap (λ x. x.interface) (sym whole) ∙ pass_on-learn t m c.interface k,
            )
        | inr (inl e1) ↦ cc (rw (connected, worker_receives, kind, e1) at h)
        | inr (inr e1) ↦ cc (rw (connected, worker_receives, kind, e1) at h)
      ]

module _ {V I W : Type 0} (q : Qt V I) (o : MetaObjects V I W)
    (Meanwhile : Interface V I → Interface V I → Type 0) where
  -- The client handles blocks, and learns of their messages.
  pub receive_blocks-Heard :
      (d : Interface V I) (before : List (Message V I)) (ms : List (Message V I)) (bs : List Bytes)
      (c c' : Client V I) (address : ℕ) (conn : InterfaceConnection V I)
      → Written q o ms bs
      → Heard q o Meanwhile d before c.interface
      → c.worker.connection ≡ some (address, conn)
      → receive_blocks q o bs c ≡ ok c'
      → (address' : ℕ) × (conn' : InterfaceConnection V I) × (c'.worker.connection
          ≡ some (address', conn'))
        × Heard q o Meanwhile d (before ++ ms) c'.interface
  unfolding receive_blocks
  receive_blocks-Heard d before [] [] c c' address conn w heard connected h =
      let same : c ≡ c' = ground arith in
      (
        address,
        conn,
        ap (λ x. x.worker.connection) (sym same) ∙ connected,
        subst (λ ns. Heard q o Meanwhile d ns c'.interface) (sym (append-nil before))
            (subst (λ x. Heard q o Meanwhile d before x.interface) same heard),
      )
  receive_blocks-Heard d before [] (b ∷ bs) c c' address conn w heard connected h = absurd w
  receive_blocks-Heard d before (m ∷ ms) [] c c' address conn w heard connected h = absurd w
  receive_blocks-Heard d before (m ∷ ms) (b ∷ bs) c c' address conn (k, e, s, size, w) heard
        connected h =
      let (next, e1, e2) = >>=-eq-ok (client_receives q o (block b) c) _ h in
      let (address', conn', connected', learnt) =
        client_receives-Learns q o m b c next address conn (k, e, s, size, tt) connected e1 in
      let heard' =
        subst (Heard q o Meanwhile d (before ++ m ∷ [])) (sym learnt)
          (hears before m c.interface heard) in
      let (address'', conn'', connected'', all) =
        receive_blocks-Heard d (before ++ m ∷ []) ms bs next c' address' conn' w heard' connected'
          e2 in
      (
        address'',
        conn'',
        connected'',
        subst (λ ns. Heard q o Meanwhile d ns c'.interface) (append_assoc before (m ∷ []) ms) all,
      )
