-- ===== src/Remote/Session/Posted.antt =====
-- What an interface hands to its worker (src/CuteIPCInterface.cpp).
use cute_ipc.Prelude.{
  ℕ, ◌≡◌, refl, sym, ◌∙◌, subst, inl, inr, List, [], ◌∷◌, ◌++◌, append-nil, Bool-cases, arith,
}
use cute_ipc.Prelude.Result.{ok, >>=-eq-ok, Result-cases}
use cute_ipc.Prelude.Text.{Text, Bytes}
use cute_ipc.Qt.{Qt}
use cute_ipc.MetaObjects.{MetaObjects}
use cute_ipc.Message.{
  Datum, GenericArgument, Message, MessageType, message_call_without_return, message_signal,
  from_arguments, from_values,
}
use cute_ipc.Marshaller.Write.{marshall_message}
use cute_ipc.SignalHandler.{SignalHandler, relay_slot}
use cute_ipc.Service.Delivery.{relay_slot-IsSignalOf}
use cute_ipc.Interface.State.{
  MethodData, Interface, same_data, set_last_error, register_connection, invoke_remote_signal,
  remove_remote_connections_of_object, remove_signal_handlers_of_object, send_asynchronous_request,
  handle_local_signal_request, capture, local_object_emits,
}
use cute_ipc.Interface.Request.{Server, Exchange, returned, call_no_reply}
use cute_ipc.Remote.Session.{
  InterfaceAct, calls, local_signal, connects_local, registers, loses_object, remote_signal,
  remote_error,
}

-- The messages that need no answer.
abbrev pub IsOneWay : MessageType → Type 0
IsOneWay message_call_without_return = Unit {0}
IsOneWay message_signal = Unit {0}
IsOneWay _ = ⊥

module _ {V I W : Type 0} (q : Qt V I) (o : MetaObjects V I W) where
  -- Messages and the bytes that they were marshalled to.
  abbrev pub OneWays : List (Message V I) → List Bytes → Type 0
  OneWays [] [] = Unit {0}
  OneWays (m ∷ ms) (b ∷ bs) =
      IsOneWay m.message_type × (marshall_message q m ≡ ok b) × OneWays ms bs
  OneWays _ _ = ⊥

  abbrev pub Posts : Interface V I → Interface V I → List (Message V I) → List Bytes → Type 0
  Posts d d' ms bs = (d'.requests ≡ d.requests ++ bs) × OneWays ms bs

  OneWays-append :
      (ms : List (Message V I)) (bs : List Bytes) (m : Message V I) (b : Bytes)
      → OneWays ms bs
      → IsOneWay m.message_type
      → marshall_message q m ≡ ok b
      → OneWays (ms ++ m ∷ []) (bs ++ b ∷ [])
  OneWays-append [] [] m b h k e = (k, e, tt)
  OneWays-append [] (c ∷ bs) m b h k e = absurd h
  OneWays-append (n ∷ ms) [] m b h k e = absurd h
  OneWays-append (n ∷ ms) (c ∷ bs) m b (k', e', h) k e = (k', e', OneWays-append ms bs m b h k e)

  capture-OneWays :
      (parent : ℕ) (m : MethodData) (values : List (Datum V I))
      (hs : List (MethodData × SignalHandler)) (bs : List Bytes)
      → capture q o parent m values hs ≡ ok bs
      → (ms : List (Message V I)) × OneWays ms bs
  unfolding capture from_arguments
  capture-OneWays parent m values [] bs e =
      let none_captured : [] ≡ bs = ground arith in ([], subst (OneWays []) none_captured tt)
  capture-OneWays parent m values ((n, h) ∷ hs) bs e = elim (Bool-cases (same_data n m)) [
    | inr other ↦ capture-OneWays parent m values hs bs (rw (other, capture) at e)
    | inl mine ↦
        let ((h', bytes), e1, e2) =
          >>=-eq-ok (relay_slot q o parent values h) _ (rw (mine, capture) at e) in
        let (more, e3, e4) = >>=-eq-ok (capture q o parent m values hs) _ e2 in
        let (ms, one_ways) = capture-OneWays parent m values hs more e3 in
        let (types, args, relayed, marshalled) = relay_slot-IsSignalOf q o parent values h e1 in
        let signal : Message V I = from_arguments message_signal h.signature args [] in
        let whole : more ++ bytes ∷ [] ≡ bs = ground arith in
        (
          ms ++ signal ∷ [],
          subst (OneWays (ms ++ signal ∷ [])) whole
              (OneWays-append ms more signal bytes one_ways tt marshalled),
        )
  ]

  call_no_reply-Posts :
      (net : Server → Bytes → Exchange) (method : Text) (values : List (GenericArgument V I))
      (d d' : Interface V I)
      → call_no_reply q o net method values d ≡ returned d'
      → (ms : List (Message V I)) × (bs : List Bytes) × Posts d d' ms bs
  unfolding call_no_reply send_asynchronous_request from_values
  call_no_reply-Posts net method values d d' h =
      let m : Message V I = from_values message_call_without_return method values [] in
      elim (Result-cases (marshall_message q m)) [
        | inl (b, e) ↦ (m ∷ [], b ∷ [], (ground (arith, rw (e, call_no_reply) at h), (tt, e, tt)))
        | inr (inl e) ↦ absurd (cc (rw (e, call_no_reply) at h))
        | inr (inr e) ↦ absurd (cc (rw (e, call_no_reply) at h))
      ]

  nothing_posted :
      (d d' : Interface V I)
      → d'.requests ≡ d.requests
      → (ms : List (Message V I)) × (bs : List Bytes) × Posts d d' ms bs
  nothing_posted d d' e = ([], [], (e ∙ sym (append-nil d.requests), tt))

  -- The application calls a method without waiting for an answer, a local object emits a signal, a
  -- local signal or a receiver is registered, an object is lost, or a signal or an error comes: what
  -- the interface hands to its worker is put behind what waits there, and is a sequence of byte strings
  -- that calls without an answer and signals were marshalled to.
  pub InterfaceAct-Posts :
      (d d' : Interface V I)
      → InterfaceAct q o d d'
      → (ms : List (Message V I)) × (bs : List Bytes) × Posts d d' ms bs
  unfolding handle_local_signal_request local_object_emits register_connection invoke_remote_signal
      remove_remote_connections_of_object remove_signal_handlers_of_object set_last_error
  InterfaceAct-Posts d d' (calls net method values e e' h) =
      call_no_reply-Posts net method values d d' h
  InterfaceAct-Posts d d' (local_signal parent m values e e' h) =
      let (bs, e1, e2) = >>=-eq-ok (capture q o parent m values d.local_signal_handlers) _ h in
      let (ms, one_ways) = capture-OneWays parent m values d.local_signal_handlers bs e1 in
      (ms, bs, (ground arith, one_ways))
  InterfaceAct-Posts d d' (connects_local object signal slot e) = nothing_posted d d' (ground arith)
  InterfaceAct-Posts d d' (registers signal receiver method e) = nothing_posted d d' refl
  InterfaceAct-Posts d d' (loses_object object e) = nothing_posted d d' refl
  InterfaceAct-Posts d d' (remote_signal signal arguments e) = nothing_posted d d' refl
  InterfaceAct-Posts d d' (remote_error error e) = nothing_posted d d' refl
