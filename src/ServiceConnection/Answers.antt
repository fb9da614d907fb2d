-- ===== src/ServiceConnection/Answers.antt =====
-- What processMessage (src/CuteIPCServiceConnection.cpp) writes.
use cute_ipc.Prelude.{
  ℕ, ◌≡◌, refl, ◌⊎◌, inl, inr, true, List, [], ◌∷◌, ◌++◌, Option, length, is_nil, ltb, arith,
  Bool-cases, Option-cases,
}
use cute_ipc.Prelude.Result.{Result, ok, fail, fault, ◌>>=◌, >>=-eq-ok}
use cute_ipc.Prelude.Text.{Text, Bytes, text, same}
use cute_ipc.Prelude.Hash.{lookup}
use cute_ipc.Qt.{Qt}
use cute_ipc.MetaObjects.{MetaObjects}
use cute_ipc.Message.{
  GenericArgument, Message, MessageType, message_call_with_return, message_response, message_error,
  signal_connection_request, slot_connection_request, connection_initialize, from_values,
}
use cute_ipc.Marshaller.Write.{marshall_message}
use cute_ipc.Service.{
  Service, subject_of, send_response, send_error_message, send_response_message,
  handle_signal_request, add_listener_for, remove_listener_for, handle_signal_disconnect,
  initialize_connection,
}
use cute_ipc.ServiceConnection.{
  ServiceConnection, State, connection_id_of, call_returning, call_plain, signal_connection,
  slot_connection, initialize, dispatch, process_call, first_argument,
}

module _ {V I W : Type 0} (q : Qt V I) (o : MetaObjects V I W) where
  -- One frame more was written, to `c`: a response or an error.
  abbrev pub Answered : ℕ → Service → Service → Type 0
  Answered c s s' =
      (m : Message V I) × (body : Bytes) × ((m.message_type ≡ message_response)
        ⊎ (m.message_type ≡ message_error))
      × (marshall_message q m ≡ ok body)
      × (s'.sent ≡ s.sent ++ (c, q.put_uint (length body) ++ body) ∷ [])

  pub send_error_message-Answered :
      (c : ℕ) (error : Text) (s s' : Service)
      → send_error_message q o c error s ≡ ok s'
      → Answered c s s'
  unfolding send_error_message send_response from_values
  send_error_message-Answered c error s s' h =
      let m : Message V I = from_values message_error error [] [] in
      let (body, e, e') = >>=-eq-ok (marshall_message q m) _ h in
      (m, body, inr refl, e, ground arith)

  send_response_message-Answered :
      (c : ℕ) (method : Text) (args : List (GenericArgument V I)) (s s' : Service)
      → send_response_message q o c method args s ≡ ok s'
      → Answered c s s'
  unfolding send_response_message send_response from_values
  send_response_message-Answered c method args s s' h =
      let m : Message V I = from_values message_response method args [] in
      let (body, e, e') = >>=-eq-ok (marshall_message q m) _ h in
      (m, body, inl refl, e, ground arith)

  remove_listener_for-sent :
      (signature : Text) (l : Option ℕ) (s : Service)
      → (remove_listener_for q o signature l s).sent ≡ s.sent
  unfolding remove_listener_for
  remove_listener_for-sent signature l s = ground arith

  handle_signal_request-Answered :
      (signature id : Text) (c : ℕ) (s s' : Service)
      → handle_signal_request q o signature id c s ≡ ok s'
      → Answered c s s'
  unfolding handle_signal_request add_listener_for
  handle_signal_request-Answered signature id c s s' h =
      elim (Bool-cases (o.has_signal (subject_of s) (q.to_latin1 signature))) [
        | inr e ↦ send_error_message-Answered c _ s s' (rw e at h)
        | inl e ↦ elim (Option-cases (lookup id s.long_lived)) [
          | inl e' ↦ send_error_message-Answered c _ s s' (rw (e, e') at h)
          | inr (l, e') ↦
              send_response_message-Answered c signature [] (add_listener_for q o signature l s) s'
                (rw (e, e') at h)
        ]
      ]

  handle_signal_disconnect-Answered :
      (signature id : Text) (c : ℕ) (s s' : Service)
      → handle_signal_disconnect q o signature id c s ≡ ok s'
      → Answered c s s'
  unfolding handle_signal_disconnect
  handle_signal_disconnect-Answered signature id c s s' h =
      let l = lookup id s.long_lived in
      let (m, body, kind, e, sent) =
        send_response_message-Answered c signature [] (remove_listener_for q o signature l s) s'
          h in
      (m, body, kind, e, rw (remove_listener_for-sent signature l s) at sent)

  initialize_connection-Answered :
      (id : Text) (c : ℕ) (s s' : Service)
      → initialize_connection q o id c s ≡ ok s'
      → Answered c s s'
  unfolding initialize_connection
  initialize_connection-Answered id c s s' h = send_response_message-Answered c _ [] _ s' h

  -- From the service to the whole state.
  in_service-Answered :
      (c : ℕ) (before : Service) (s s' : State W) (r : Result Service)
      → ((v : Service) → r ≡ ok v → Answered c before v)
      → (r >>= λ v. ok (record s { service = v })) ≡ ok s'
      → Answered c before s'.service
  in_service-Answered c before s s' (ok v) answered h =
      let (m, body, kind, e, sent) = answered v refl in (m, body, kind, e, ground arith)
  in_service-Answered c before s s' fail answered h = cc
  in_service-Answered c before s s' fault answered h = cc

  call_returning-Answered :
      (c : ServiceConnection) (subject : ℕ) (call : Message V I) (args : List (GenericArgument V I))
      (s s' : State W)
      → call_returning q o c subject call args s ≡ ok s'
      → Answered c.id s.service s'.service
  unfolding call_returning
  call_returning-Answered c subject call args s s' h =
      let ret_type = q.to_latin1 call.return_type in
      elim (Bool-cases (ltb 0 (q.type_id ret_type))) [
        | inr e ↦
            in_service-Answered c.id s.service s s' _
              (λ v. send_error_message-Answered c.id _ s.service v) (rw e at h)
        | inl e ↦
            elim (Option-cases
              (o.invoke_returning s.world subject (q.to_latin1 call.method) ret_type args)) [
                | inl e' ↦
                    in_service-Answered c.id s.service s s' _
                      (λ v. send_error_message-Answered c.id _ s.service v) (rw (e, e') at h)
                | inr ((world, d), e') ↦
                    in_service-Answered c.id s.service (record s { world = world }) s' _
                      (λ v. send_response_message-Answered c.id call.method _ s.service v)
                      (rw (e, e') at h)
              ]
      ]

  call_plain-Answered :
      (c : ServiceConnection) (subject : ℕ) (call : Message V I) (args : List (GenericArgument V I))
      (s s' : State W)
      → call_plain q o true c subject call args s ≡ ok s'
      → Answered c.id s.service s'.service
  unfolding call_plain
  call_plain-Answered c subject call args s s' h =
      elim (Option-cases (o.invoke s.world subject (q.to_latin1 call.method) args)) [
        | inl e ↦
            in_service-Answered c.id s.service s s' _
              (λ v. send_error_message-Answered c.id _ s.service v) (rw (e, call_plain) at h)
        | inr (world, e) ↦
            in_service-Answered c.id s.service (record s { world = world }) s' _
              (λ v. send_response_message-Answered c.id call.method _ s.service v)
              (rw (e, call_plain) at h)
      ]

  signal_connection-Answered :
      (c : ServiceConnection) (call : Message V I) (args : List (GenericArgument V I))
      (s s' : State W)
      → signal_connection q o c call args s ≡ ok s'
      → Answered c.id s.service s'.service
  unfolding signal_connection
  signal_connection-Answered c call args s s' h =
      let (id, e, h') = >>=-eq-ok (connection_id_of q o (first_argument args)) _ h in
      elim (Bool-cases (same call.return_type (text "disconnect"))) [
        | inl d ↦
            in_service-Answered c.id s.service s s' _
              (λ v. handle_signal_disconnect-Answered call.method id c.id s.service v) (rw d at h')
        | inr d ↦
            in_service-Answered c.id s.service s s' _
              (λ v. handle_signal_request-Answered call.method id c.id s.service v) (rw d at h')
      ]

  slot_connection-Answered :
      (c : ServiceConnection) (subject : ℕ) (call : Message V I) (s s' : State W)
      → slot_connection q o c subject call s ≡ ok s'
      → Answered c.id s.service s'.service
  unfolding slot_connection
  slot_connection-Answered c subject call s s' h =
      elim (Bool-cases (o.has_slot subject (q.to_latin1 call.method))) [
        | inl e ↦
            in_service-Answered c.id s.service s s' _
              (λ v. send_response_message-Answered c.id call.method [] s.service v) (rw e at h)
        | inr e ↦
            in_service-Answered c.id s.service s s' _
              (λ v. send_error_message-Answered c.id _ s.service v) (rw e at h)
      ]

  initialize-Answered :
      (c : ServiceConnection) (args : List (GenericArgument V I)) (s s' : State W)
      → initialize q o c args s ≡ ok s'
      → Answered c.id s.service s'.service
  unfolding initialize
  initialize-Answered c args s s' h =
      let (id, e, h') = >>=-eq-ok (connection_id_of q o (first_argument args)) _ h in
      in_service-Answered c.id s.service s s' _
        (λ v. initialize_connection-Answered id c.id s.service v) h'

  -- The messages whose sender waits for an answer.
  abbrev pub IsRequest : MessageType → Type 0
  IsRequest message_call_with_return = Unit {0}
  IsRequest signal_connection_request = Unit {0}
  IsRequest slot_connection_request = Unit {0}
  IsRequest connection_initialize = Unit {0}
  IsRequest _ = ⊥

  pub dispatch-Answered :
      (t : MessageType) (c : ServiceConnection) (subject : ℕ) (call : Message V I)
      (args : List (GenericArgument V I)) (s s' : State W)
      → IsRequest t
      → dispatch q o t c subject call args s ≡ ok s'
      → Answered c.id s.service s'.service
  unfolding dispatch
  dispatch-Answered message_call_with_return c subject call args s s' w h =
      elim (Bool-cases (is_nil call.return_type)) [
        | inl e ↦ call_plain-Answered c subject call args s s' (rw e at h)
        | inr e ↦ call_returning-Answered c subject call args s s' (rw e at h)
      ]
  dispatch-Answered signal_connection_request c subject call args s s' w h =
      signal_connection-Answered c call args s s' h
  dispatch-Answered slot_connection_request c subject call args s s' w h =
      slot_connection-Answered c subject call s s' h
  dispatch-Answered connection_initialize c subject call args s s' w h =
      initialize-Answered c args s s' h
  dispatch-Answered _ c subject call args s s' w h = absurd w

  pub process_call-Answered :
      (c : ServiceConnection) (call : Message V I) (s s' : State W)
      → IsRequest call.message_type
      → process_call q o c call s ≡ ok s'
      → Answered c.id s.service s'.service
  unfolding process_call
  process_call-Answered c call s s' w h = dispatch-Answered call.message_type c _ call _ s s' w h
