-- ===== src/ServiceConnection.antt =====
-- src/CuteIPCServiceConnection.cpp: what the service does with a message that arrived on a connection.

pub mod Answers
pub mod Total
pub mod Values
use cute_ipc.Prelude.{
  ℕ, zero, suc, ◌-◌, ◌<◌, Bool, true, false, not, List, [], ◌∷◌, ◌++◌, Option, none, some, length,
  take, is_nil, ltb, ◌==◌, if◌then◌else◌,
}
use cute_ipc.Prelude.Result.{Result, ok, fail, fault, ◌>>=◌}
use cute_ipc.Prelude.Text.{Text, Bytes, text, same, before_paren}
use cute_ipc.Qt.{Qt}
use cute_ipc.MetaObjects.{MetaObjects}
use cute_ipc.Message.{
  Datum, GenericArgument, Message, MessageType, image, images, plain, message_call_with_return,
  message_call_without_return, message_response, message_error, signal_connection_request,
  slot_connection_request, message_signal, about_to_close_socket, connection_initialize, other,
}
use cute_ipc.Marshaller.Read.{demarshall_message}
use cute_ipc.Service.{
  Service, or_else, send_error_message, send_response_message, handle_signal_request,
  handle_signal_disconnect, initialize_connection,
}

-- A connection object: its identity and m_subject.
pub record ServiceConnection : Type 0 where
  pub id : ℕ
  pub subject : Option ℕ

-- The service and the application's objects.
pub record State (W : Type 0) : Type 0 where
  pub service : Service
  pub world : W

module _ {V I : Type 0} where
  abbrev pub empty_argument : GenericArgument V I
  empty_argument = record { name = []; value = none }

  unfoldable pub append_empty : ℕ → List (GenericArgument V I) → List (GenericArgument V I)
  append_empty zero args = args
  append_empty (suc n) args = append_empty n (args ++ empty_argument ∷ [])

  -- while (args.size() < 10) args.append(QGenericArgument()), and the first ten that are passed on
  unfoldable pub fill_arguments : List (GenericArgument V I) → List (GenericArgument V I)
  unfolding append_empty
  fill_arguments args = take 10 (append_empty (10 - length args) args)

  abbrev pub first_argument : List (GenericArgument V I) → Option (Datum V I)
  first_argument [] = none
  first_argument (a ∷ args) = a.value

module _ {V I W : Type 0} (q : Qt V I) (o : MetaObjects V I W) where
  abbrev in_service : State W → Result Service → Result (State W)
  in_service s r = r >>= λ service. ok (record s { service = service })

  -- The QString that args.at(0) points to, a new one if it points to nothing. The cast is undefined
  -- on an argument of another type.
  unfoldable pub connection_id_of : Option (Datum V I) → Result Text
  connection_id_of none = ok []
  connection_id_of (some (plain v)) = elim (q.as_string v) [ none ↦ fault | some t ↦ ok t ]
  connection_id_of (some _) = fault

  -- The branch for calls with a return type.
  unfoldable pub call_returning :
      ServiceConnection → ℕ → Message V I → List (GenericArgument V I) → State W → Result (State W)
  call_returning c subject call args s =
      let ret_type = q.to_latin1 call.return_type in
      if ltb 0 (q.type_id ret_type)
      then elim (o.invoke_returning s.world subject (q.to_latin1 call.method) ret_type args) [
        | none ↦ in_service s (send_error_message q o c.id (text "Unsuccessful invoke") s.service)
        | some (world, d) ↦
            in_service (record s { world = world })
              (send_response_message q o c.id call.method
                (record { name = ret_type; value = some d } ∷ []) s.service)
      ]
      else in_service s (
          send_error_message q o c.id
            (text "Unsupported type of expected return value: " ++ call.return_type) s.service)

  -- The branch for calls without one; `answer` tells whether the caller waits.
  unfoldable pub call_plain :
      Bool
      → ServiceConnection
      → ℕ
      → Message V I
      → List (GenericArgument V I)
      → State W
      → Result (State W)
  call_plain answer c subject call args s =
      elim (o.invoke s.world subject (q.to_latin1 call.method) args) [
        | none ↦ in_service s (send_error_message q o c.id (text "Unsuccessful invoke") s.service)
        | some world ↦
            if answer
            then in_service (record s { world = world })
                (send_response_message q o c.id call.method [] s.service)
            else ok (record s { world = world })
      ]

  unfoldable pub signal_arrived :
      ServiceConnection → ℕ → Message V I → List (GenericArgument V I) → State W → Result (State W)
  signal_arrived c subject call args s =
      elim (o.invoke s.world subject (q.to_latin1 (before_paren call.method)) args) [
        | none ↦ in_service s (send_error_message q o c.id (text "Unsuccessful invoke") s.service)
        | some world ↦ ok (record s { world = world })
      ]

  unfoldable pub signal_connection :
      ServiceConnection → Message V I → List (GenericArgument V I) → State W → Result (State W)
  signal_connection c call args s = connection_id_of (first_argument args) >>= λ connection_id.
      in_service s (
        if not (same call.return_type (text "disconnect"))
        then handle_signal_request q o call.method connection_id c.id s.service
        else handle_signal_disconnect q o call.method connection_id c.id s.service)

  unfoldable pub slot_connection : ServiceConnection → ℕ → Message V I → State W → Result (State W)
  slot_connection c subject call s = in_service s (
      if o.has_slot subject (q.to_latin1 call.method)
      then send_response_message q o c.id call.method [] s.service
      else send_error_message q o c.id (text "Remote slot doesn't exist:" ++ call.method) s.service)

  unfoldable pub initialize :
      ServiceConnection → List (GenericArgument V I) → State W → Result (State W)
  initialize c args s = connection_id_of (first_argument args) >>= λ connection_id.
      in_service s (initialize_connection q o connection_id c.id s.service)

  -- The tests of processMessage on the type of the message.
  unfoldable pub dispatch :
      MessageType
      → ServiceConnection
      → ℕ
      → Message V I
      → List (GenericArgument V I)
      → State W
      → Result (State W)
  dispatch message_call_with_return c subject call args s =
      if is_nil call.return_type
      then call_plain true c subject call args s
      else call_returning c subject call args s
  dispatch message_call_without_return c subject call args s =
      call_plain false c subject call args s
  dispatch message_signal c subject call args s = signal_arrived c subject call args s
  dispatch signal_connection_request c subject call args s = signal_connection c call args s
  dispatch slot_connection_request c subject call args s = slot_connection c subject call s
  dispatch connection_initialize c subject call args s = initialize c args s
  dispatch message_response c subject call args s = ok s
  dispatch message_error c subject call args s = ok s
  dispatch about_to_close_socket c subject call args s = ok s
  dispatch (other n) c subject call args s = ok s

  unfoldable pub process_call : ServiceConnection → Message V I → State W → Result (State W)
  process_call c call s =
      dispatch call.message_type c (or_else c.subject s.service.service_object) call
        (fill_arguments call.arguments) s

  -- processMessage
  unfoldable pub process_message : ServiceConnection → Bytes → State W → Result (State W)
  process_message c block s = demarshall_message q block >>= λ call. process_call c call s
