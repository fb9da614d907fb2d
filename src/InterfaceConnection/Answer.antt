-- ===== src/InterfaceConnection/Answer.antt =====
-- The answers of the service at the client that waits for them (src/CuteIPCInterfaceConnection.cpp).
use cute_ipc.Prelude.{
  ◌≡◌, ◌≢◌, refl, false, List, [], ◌∷◌, ◌++◌, append_assoc, none, some, length, arith,
}
use cute_ipc.Prelude.Result.{ok}
use cute_ipc.Prelude.Text.{Text, Bytes}
use cute_ipc.Qt.{Qt}
use cute_ipc.Message.{Message, message_error, code, from_values}
use cute_ipc.Marshaller.Write.{header, marshall_arguments, marshall_message}
use cute_ipc.Marshaller.Read.{demarshall_message_type}
use cute_ipc.Marshaller.RoundTrip.{
  IsListed, or_empty-eq-ok, code-IsInt32, message_type_of-code, demarshall_message-marshall_message,
}
use cute_ipc.InterfaceConnection.{
  InterfaceConnection, Arrival, block, block_with_last, socket_error, disconnected, finish_reading,
  call_finished, error_occured, handle_arrival, send_call_request, set_returned_object,
  new_connection, handle_type, handle_block, quits, wait,
}

-- What comes after a block does not come with it.
abbrev pub IsLater : List Arrival → Type 0
IsLater (block_with_last b ∷ arrivals) = ⊥
IsLater _ = Unit {0}

module _ {V I : Type 0} (q : Qt V I) where
  -- The type alone is read as it was written.
  pub demarshall_message_type-marshall_message :
      (m : Message V I) (bs : Bytes)
      → marshall_message q m ≡ ok bs
      → bs ≢ []
      → IsListed m.message_type
      → demarshall_message_type q bs ≡ m.message_type
  unfolding demarshall_message_type marshall_message header
  demarshall_message_type-marshall_message m bs h ne listed =
      let (body, e, split) =
        or_empty-eq-ok q (header q m) (marshall_arguments q m.arguments) bs h ne in
      rw split (
        simp (
          append_assoc,
          q.get_int-put_int (code m.message_type) _ (code-IsInt32 m.message_type listed),
          message_type_of-code m.message_type listed,
        ))

  pub finish_reading-IsLater :
      (arrivals : List Arrival) (c : InterfaceConnection V I)
      → IsLater arrivals
      → finish_reading q arrivals c ≡ ok c
  unfolding finish_reading
  finish_reading-IsLater [] c h = refl
  finish_reading-IsLater (block_with_last b ∷ arrivals) c h = absurd h
  finish_reading-IsLater (block b ∷ arrivals) c h = refl
  finish_reading-IsLater (socket_error t ∷ arrivals) c h = refl
  finish_reading-IsLater (disconnected ∷ arrivals) c h = refl

  -- An error of the service ends the loop; the call counts as failed, the variable is untouched,
  -- and the text of the error is reported.
  pub wait_error :
      (error slot : Text) (bs request : Bytes) (arrivals : List Arrival)
      → marshall_message q (from_values message_error error [] []) ≡ ok bs
      → bs ≢ []
      → IsLater arrivals
      → wait q
          (block bs ∷ arrivals)
          (send_call_request q request (set_returned_object q (some slot) (new_connection q)))
        ≡ ok (
            some (record {
              last_call_successful = false;
              returned_object = some slot;
              stored = none;
              written = q.put_uint (length request) ++ request;
              emitted = error_occured error ∷ call_finished ∷ [];
            }))
  unfolding wait handle_arrival handle_block handle_type quits send_call_request set_returned_object
      new_connection from_values
  wait_error error slot bs request blocks h ne later =
      let m : Message V I = from_values message_error error [] [] in
      rw (
        demarshall_message_type-marshall_message m bs h ne tt,
        demarshall_message-marshall_message q m bs h ne (tt, tt, omega arith),
        finish_reading-IsLater blocks _ later,
      )
