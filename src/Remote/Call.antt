-- ===== src/Remote/Call.antt =====
-- A synchronous call, from the request over its invocation in processMessage and the response to the
-- caller's variable.
use cute_ipc.Prelude.{
  ℕ, ◌<◌, ◌≡◌, ◌≢◌, refl, true, false, [], ◌∷◌, ◌++◌, none, some, length, is_nil, lt→ltb,
}
use cute_ipc.Prelude.Result.{ok}
use cute_ipc.Prelude.Text.{Text, Bytes, IsLatin1, text}
use cute_ipc.Qt.{Qt}
use cute_ipc.MetaObjects.{MetaObjects}
use cute_ipc.Message.{Datum, Message, message_call_with_return, message_error, from_values}
use cute_ipc.Marshaller.Write.{marshall_message}
use cute_ipc.Marshaller.RoundTrip.{IsSmall, IsSendableMessage, demarshall_message-marshall_message}
use cute_ipc.Marshaller.Response.{value_response}
use cute_ipc.Service.{or_else, send_response, send_response_message, send_error_message}
use cute_ipc.ServiceConnection.{
  ServiceConnection, State, fill_arguments, call_returning, dispatch, process_call, process_message,
}
use cute_ipc.InterfaceConnection.{
  block, call_finished, error_occured, new_connection, set_returned_object, send_call_request, wait,
}
use cute_ipc.InterfaceConnection.Answer.{wait_error}
use cute_ipc.InterfaceConnection.Waiting.{wait-response}

module _ {V I W : Type 0} (q : Qt V I) (o : MetaObjects V I W) where
  -- The object whose method is invoked.
  abbrev pub target : ServiceConnection → State W → ℕ
  target c s = or_else c.subject s.service.service_object

  -- A call with a return type, as it is sent.
  pub record IsCall (m : Message V I) (request : Bytes) : Type 0 where
    pub waits : m.message_type ≡ message_call_with_return
    pub returns : is_nil m.return_type ≡ false
    pub latin : IsLatin1 m.return_type
    pub registered : 0 < q.type_id m.return_type
    pub marshalled : marshall_message q m ≡ ok request
    pub not_empty : request ≢ []
    pub sendable : IsSendableMessage m

  process_IsCall :
      (c : ServiceConnection) (s : State W) (m : Message V I) (request : Bytes)
      → IsCall m request
      → process_message q o c request s
        ≡ call_returning q o c (target c s) m (fill_arguments m.arguments) s
  unfolding process_message process_call dispatch
  process_IsCall c s m request call = rw (
    demarshall_message-marshall_message q m request call.marshalled call.not_empty call.sendable,
    call.waits,
    call.returns,
  )

  response_sent :
      (c : ℕ) (method name : Text) (d : Datum V I) (reply : Bytes) (s : State W)
      → marshall_message q (value_response q method (record { name = name; value = some d }))
        ≡ ok reply
      → send_response_message q o c method (record { name = name; value = some d } ∷ []) s.service
        ≡ ok (send_response q o c reply s.service)
  unfolding send_response_message from_values
  response_sent c method name d reply s marshalled = rw marshalled

  -- A call with a return type, on a method that the subject has. The service invokes the method with
  -- the arguments of the call, filled up to ten, and answers the caller with its value; the client
  -- that waits for the answer finds the value in its variable and reports success.
  pub call_succeeds :
      (c : ServiceConnection) (s : State W) (m : Message V I) (request reply : Bytes) (world : W)
      (d : Datum V I)
      → IsCall m request
      → o.invoke_returning s.world
          (target c s)
          (q.to_latin1 m.method)
          m.return_type
          (fill_arguments m.arguments)
        ≡ some (world, d)
      → IsSmall (some d)
      → marshall_message q
          (value_response q m.method (record { name = m.return_type; value = some d }))
        ≡ ok reply
      → reply ≢ []
      → (process_message q o c request s
          ≡ ok (record { service = send_response q o c.id reply s.service; world = world }))
        × (wait q (block reply ∷ []) (
              send_call_request q request
                (set_returned_object q (some m.return_type) (new_connection q)))
            ≡ ok (
                some (record {
                  last_call_successful = true;
                  returned_object = some m.return_type;
                  stored = some d;
                  written = q.put_uint (length request) ++ request;
                  emitted = call_finished ∷ [];
                })))
  unfolding call_returning send_call_request set_returned_object new_connection
  call_succeeds c s m request reply world d call invoked small marshalled ne = (
    rw (
      process_IsCall c s m request call,
      q.to_latin1_latin m.return_type call.latin,
      lt→ltb 0 (q.type_id m.return_type) call.registered,
      invoked,
      q.to_latin1_latin m.return_type call.latin,
      response_sent c.id m.method m.return_type d reply s marshalled,
    ),
    wait-response q m.method m.return_type (record { name = m.return_type; value = some d }) reply
        []
        (send_call_request q request
          (set_returned_object q (some m.return_type) (new_connection q)))
        marshalled ne (call.latin, small) refl refl tt,
  )

  -- A call that the subject refuses: the objects are as they were, the service answers with an error,
  -- and the client reports failure with the error's text and leaves the variable alone.
  pub call_refused :
      (c : ServiceConnection) (s : State W) (m : Message V I) (request reply : Bytes)
      → IsCall m request
      → o.invoke_returning s.world
          (target c s)
          (q.to_latin1 m.method)
          m.return_type
          (fill_arguments m.arguments)
        ≡ none
      → marshall_message q (from_values message_error (text "Unsuccessful invoke") [] []) ≡ ok reply
      → reply ≢ []
      → (process_message q o c request s
          ≡ ok (record { service = send_response q o c.id reply s.service; world = s.world }))
        × (wait q (block reply ∷ []) (
              send_call_request q request
                (set_returned_object q (some m.return_type) (new_connection q)))
            ≡ ok (
                some (record {
                  last_call_successful = false;
                  returned_object = some m.return_type;
                  stored = none;
                  written = q.put_uint (length request) ++ request;
                  emitted = error_occured (text "Unsuccessful invoke") ∷ call_finished ∷ [];
                })))
  unfolding call_returning send_error_message
  call_refused c s m request reply call refused marshalled ne = (
    rw (
      process_IsCall c s m request call,
      q.to_latin1_latin m.return_type call.latin,
      lt→ltb 0 (q.type_id m.return_type) call.registered,
      refused,
      marshalled,
    ),
    wait_error q (text "Unsuccessful invoke") m.return_type reply request [] marshalled ne tt,
  )
