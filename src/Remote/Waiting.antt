-- ===== src/Remote/Waiting.antt =====
-- A synchronous call whose answer is late, or does not come (src/CuteIPCInterface.cpp,
-- src/CuteIPCInterfaceConnection.cpp).
use cute_ipc.Prelude.{
  ◌≡◌, ◌≢◌, refl, ap, ◌∙◌, true, List, [], ◌∷◌, ◌++◌, append_assoc, none, some, All,
}
use cute_ipc.Prelude.Result.{ok}
use cute_ipc.Prelude.Text.{Text, Bytes}
use cute_ipc.Qt.{Qt}
use cute_ipc.MetaObjects.{MetaObjects}
use cute_ipc.Message.{
  Datum, GenericArgument, Message, MessageType, message_call_with_return, message_signal,
  from_values,
}
use cute_ipc.Marshaller.Write.{marshall_message}
use cute_ipc.Marshaller.RoundTrip.{IsSendable}
use cute_ipc.Marshaller.Response.{value_response}
use cute_ipc.InterfaceConnection.{
  InterfaceConnection, Event, Arrival, block, socket_error, error_occured, disconnected,
  socket_disconnected, call_finished, new_connection, set_returned_object, send_call_request, quits,
}
use cute_ipc.InterfaceConnection.Answer.{IsLater}
use cute_ipc.InterfaceConnection.Waiting.{
  announced, announced_all, arrivals_of, IsNotice, wait-IsNotice, wait-response, wait-socket_error,
  wait-disconnected,
}
use cute_ipc.Interface.State.{Interface, set_last_error}
use cute_ipc.Interface.Request.{
  returned, Server, Exchange, report, after_loop, server_of, send_to, send_synchronous_request,
  with_request, call,
}

module _ {V I W : Type 0} (q : Qt V I) (o : MetaObjects V I W)
    (net : Server → Bytes → Exchange) where
  report-announced :
      (t : MessageType) (m : Message V I) (es : List (Event V I)) (d : Interface V I)
      → report (announced t m ++ es) d ≡ report es d
  unfolding report
  report-announced message_signal m es d = refl
  report-announced _ m es d = refl

  report-announced_all :
      (sent : List (Message V I × Bytes)) (last : List (Event V I)) (d : Interface V I)
      → report (announced_all sent ++ last) d ≡ report last d
  report-announced_all [] last d = refl
  report-announced_all ((m, b) ∷ sent) last d =
      ap (λ es. report es d) (append_assoc (announced m.message_type m) (announced_all sent) last)
      ∙ report-announced m.message_type m (announced_all sent ++ last) d
      ∙ report-announced_all sent last d

  -- The answer to a call comes after any number of messages that are neither responses nor
  -- errors nor the notice that the socket is about to close, and no other block is at the
  -- socket with it: `call` returns, whatever comes after the answer, it reports success, the
  -- caller's variable holds the value, and the interface is as it was. The conditions: request,
  -- messages and response can be marshalled and, apart from the request, are not empty, the
  -- messages can be read back, and the response's value has the registered type of the
  -- variable.
  pub answer_ends_the_wait :
      (d : Interface V I) (server : Server) (method ret : Text) (vals : List (GenericArgument V I))
      (request reply : Bytes) (value : Datum V I) (sent : List (Message V I × Bytes))
      (more : List Arrival)
      → marshall_message q (from_values message_call_with_return method vals ret) ≡ ok request
      → marshall_message q (value_response q method (record { name = ret; value = some value }))
        ≡ ok reply
      → reply ≢ []
      → IsSendable (record { name = ret; value = some value })
      → All (IsNotice q) sent
      → IsLater more
      → server_of d ≡ some server
      → net server request
        ≡ record { connected = true; arrivals = arrivals_of sent (block reply ∷ more) }
      → call q o net method ret vals d
        ≡ returned (record { interface = d; success = true; stored = some value })
  unfolding call with_request send_synchronous_request send_to after_loop send_call_request
      set_returned_object new_connection quits report
  answer_ends_the_wait d server method ret vals request reply value sent more marshalled answered ne
        sendable notices later there carried =
      let client : InterfaceConnection V I =
        send_call_request q request (set_returned_object q (some ret) (new_connection q)) in
      let skipped = (wait-IsNotice q sent (block reply ∷ more) client notices refl).0 in
      let last =
        wait-response q method ret (record { name = ret; value = some value }) reply more
          (record client { emitted = announced_all sent }) answered ne sendable refl refl later in
      rw (marshalled, call, there, send_synchronous_request, carried, send_to, skipped, last)
        (λ i. returned (record {
          interface = report-announced_all sent (call_finished ∷ []) d i;
          success = true;
          stored = some value;
        }))

  -- The connection to the server is lost while a call waits, after any number of messages that do
  -- not answer it: the socket tells an error, and that it is disconnected. Then `call` returns and
  -- reports success, although no answer came; the caller's variable is as it was, and the last
  -- error of the interface is that of the socket. No block comes together with the loss. The
  -- request can be marshalled, and the messages can be read back.
  pub lost_call_reports_success :
      (d : Interface V I) (server : Server) (method ret : Text) (vals : List (GenericArgument V I))
      (request : Bytes) (error : Text) (sent : List (Message V I × Bytes)) (more : List Arrival)
      → marshall_message q (from_values message_call_with_return method vals ret) ≡ ok request
      → All (IsNotice q) sent
      → IsLater more
      → server_of d ≡ some server
      → net server request ≡ record {
        connected = true;
        arrivals = arrivals_of sent (socket_error error ∷ disconnected ∷ more);
      }
      → call q o net method ret vals d
        ≡ returned (record { interface = set_last_error error d; success = true; stored = none })
  unfolding call with_request send_synchronous_request send_to after_loop send_call_request
      set_returned_object new_connection quits report
  lost_call_reports_success d server method ret vals request error sent more marshalled notices
        later there carried =
      let client : InterfaceConnection V I =
        send_call_request q request (set_returned_object q (some ret) (new_connection q)) in
      let (skipped, going) =
        wait-IsNotice q sent (socket_error error ∷ disconnected ∷ more) client notices refl in
      let failed =
        wait-socket_error q error (disconnected ∷ more)
          (record client { emitted = announced_all sent }) going in
      let last =
        wait-disconnected q more
          (record client { emitted = announced_all sent ++ error_occured error ∷ [] }) later in
      let reported : report
            ((announced_all sent ++ error_occured error ∷ []) ++ socket_disconnected ∷ []) d
          ≡ set_last_error error d =
        ap (λ es. report es d)
          (append_assoc (announced_all sent) (error_occured error ∷ []) (socket_disconnected ∷ []))
        ∙ report-announced_all sent (error_occured error ∷ socket_disconnected ∷ []) d in
      rw
        (marshalled, call, there, send_synchronous_request, carried, send_to, skipped, failed, last)
        (λ i. returned (record { interface = reported i; success = true; stored = none }))
