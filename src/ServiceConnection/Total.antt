-- ===== src/ServiceConnection/Total.antt =====
-- The results of processMessage (src/CuteIPCServiceConnection.cpp).
use cute_ipc.Prelude.{ℕ, ◌≡◌, refl, inl, inr, true, List, [], is_nil, Bool-cases, Option-cases}
use cute_ipc.Prelude.Result.{Result, ok, ◌>>=◌}
use cute_ipc.Prelude.Text.{Text, text, same}
use cute_ipc.Prelude.Hash.{lookup, insert}
use cute_ipc.Qt.{Qt}
use cute_ipc.MetaObjects.{MetaObjects}
use cute_ipc.Message.{
  GenericArgument, Message, MessageType, from_values, message_call_with_return,
  slot_connection_request, signal_connection_request, connection_initialize,
}
use cute_ipc.Marshaller.Write.{marshall_message, marshall_arguments, or_empty}
use cute_ipc.Service.{
  Service, or_else, subject_of, send_error_message, send_response_message, handle_signal_request,
  add_listener_for, remove_listener_for, handle_signal_disconnect, initialize_connection,
}
use cute_ipc.ServiceConnection.{
  ServiceConnection, State, connection_id_of, call_plain, signal_connection, slot_connection,
  initialize, dispatch, process_call, fill_arguments, first_argument,
}
use cute_ipc.ServiceConnection.Answers.{Answered, IsRequest, process_call-Answered}

-- The result is a value.
abbrev pub Returns : {A : Type 0} → Result A → Type 0
Returns {A} r = (a : A) × (r ≡ ok a)

module _ {V I W : Type 0} (q : Qt V I) (o : MetaObjects V I W) where
  pub error-Returns :
      (c : ℕ) (error : Text) (s : Service) → Returns (send_error_message q o c error s)
  unfolding send_error_message marshall_message marshall_arguments or_empty from_values
  error-Returns c error s = (_, refl)

  response-Returns :
      (c : ℕ) (method : Text) (s : Service) → Returns (send_response_message q o c method [] s)
  unfolding send_response_message marshall_message marshall_arguments or_empty from_values
  response-Returns c method s = (_, refl)

  pub in_state :
      (s : State W) {r : Result Service}
      → Returns r
      → Returns (r >>= λ service. ok (record s { service = service }))
  in_state s {r} (service, e) = (record s { service = service }, rw e refl)

  signal_request-Returns :
      (signature id : Text) (c : ℕ) (s : Service)
      → Returns (handle_signal_request q o signature id c s)
  unfolding handle_signal_request
  signal_request-Returns signature id c s =
      elim (Bool-cases (o.has_signal (subject_of s) (q.to_latin1 signature))) [
        | inr e ↦ rw (e, handle_signal_request) (error-Returns c _ s)
        | inl e ↦ elim (Option-cases (lookup id s.long_lived)) [
          | inl e' ↦ rw (e, handle_signal_request, e') (error-Returns c _ s)
          | inr (l, e') ↦
              rw (e, handle_signal_request, e')
                (response-Returns c signature (add_listener_for q o signature l s))
        ]
      ]

  -- The requests whose processing rests on no cast of the application's types.
  abbrev pub IsPlain : MessageType → Message V I → Type 0
  IsPlain message_call_with_return call = is_nil call.return_type ≡ true
  IsPlain slot_connection_request call = Unit {0}
  IsPlain signal_connection_request call =
      Returns (connection_id_of q o (first_argument (fill_arguments call.arguments)))
  IsPlain connection_initialize call =
      Returns (connection_id_of q o (first_argument (fill_arguments call.arguments)))
  IsPlain _ call = ⊥

  IsPlain-IsRequest : (t : MessageType) (call : Message V I) → IsPlain t call → IsRequest q o t
  IsPlain-IsRequest message_call_with_return call p = tt
  IsPlain-IsRequest slot_connection_request call p = tt
  IsPlain-IsRequest signal_connection_request call p = tt
  IsPlain-IsRequest connection_initialize call p = tt
  IsPlain-IsRequest _ call p = absurd p

  pub plain-Returns :
      (c : ServiceConnection) (subject : ℕ) (call : Message V I) (args : List (GenericArgument V I))
      (s : State W)
      → Returns (call_plain q o true c subject call args s)
  unfolding call_plain
  plain-Returns c subject call args s =
      elim (Option-cases (o.invoke s.world subject (q.to_latin1 call.method) args)) [
        | inl e ↦ rw (e, call_plain) (in_state s (error-Returns c.id _ s.service))
        | inr (world, e) ↦
            rw (e, call_plain)
              (in_state (record s { world = world }) (response-Returns c.id call.method s.service))
      ]

  dispatch-Returns :
      (t : MessageType) (c : ServiceConnection) (subject : ℕ) (call : Message V I) (s : State W)
      → IsPlain t call
      → Returns (dispatch q o t c subject call (fill_arguments call.arguments) s)
  unfolding dispatch signal_connection slot_connection initialize initialize_connection
      handle_signal_disconnect
  dispatch-Returns message_call_with_return c subject call s p =
      rw p (plain-Returns c subject call (fill_arguments call.arguments) s)
  dispatch-Returns slot_connection_request c subject call s p =
      elim (Bool-cases (o.has_slot subject (q.to_latin1 call.method))) [
        | inl e ↦ rw e (in_state s (response-Returns c.id call.method s.service))
        | inr e ↦ rw e (in_state s (error-Returns c.id _ s.service))
      ]
  dispatch-Returns signal_connection_request c subject call s (id, p) =
      elim (Bool-cases (same call.return_type (text "disconnect"))) [
        | inr e ↦
            rw (p, signal_connection, e)
              (in_state s (signal_request-Returns call.method id c.id s.service))
        | inl e ↦
            rw (p, signal_connection, e)
              (in_state s (
                response-Returns c.id call.method
                  (remove_listener_for q o call.method (lookup id s.service.long_lived) s.service)))
      ]
  dispatch-Returns connection_initialize c subject call s (id, p) =
      rw (p, initialize)
        (in_state s (
          response-Returns c.id _
            (record s.service { long_lived = insert id c.id s.service.long_lived })))
  dispatch-Returns _ c subject call s p = absurd p

  -- A call that expects no value, a question whether a slot exists, a request to connect or
  -- disconnect a signal and the registration of a connection, the last two with a text or nothing as
  -- their first argument: the processing returns, on every branch, and exactly one frame was written,
  -- a response or an error, to the connection that sent the request.
  pub requests-Answered :
      (c : ServiceConnection) (call : Message V I) (s : State W)
      → IsPlain call.message_type call
      → (s' : State W) × (process_call q o c call s ≡ ok s')
        × Answered q o c.id s.service s'.service
  unfolding process_call
  requests-Answered c call s p =
      let (s', e) =
        dispatch-Returns call.message_type c (or_else c.subject s.service.service_object) call s
          p in
      (s', e, process_call-Answered q o c call s s' (IsPlain-IsRequest call.message_type call p) e)
