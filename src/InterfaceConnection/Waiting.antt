-- ===== src/InterfaceConnection/Waiting.antt =====
-- The wait for an answer while other messages arrive (src/CuteIPCInterfaceConnection.cpp).
use cute_ipc.Prelude.{
  ◌≡◌, ◌≢◌, refl, sym, ap, ◌∙◌, true, false, List, [], ◌∷◌, ◌++◌, append_assoc, append-nil, none,
  some, All, arith,
}
use cute_ipc.Prelude.Result.{ok}
use cute_ipc.Prelude.Text.{Text, Bytes}
use cute_ipc.Qt.{Qt}
use cute_ipc.Message.{
  from_values, from_arguments, GenericArgument, Message, MessageType, message_response,
  message_error, message_signal, about_to_close_socket, other,
}
use cute_ipc.Marshaller.Write.{marshall_message, marshall_arguments, header, or_empty}
use cute_ipc.Marshaller.Read.{demarshall_response, load_if_any, demarshall_message}
use cute_ipc.Marshaller.RoundTrip.{
  IsListed, IsSendable, IsSendableMessage, or_empty-eq-ok, demarshall_message-marshall_message,
}
use cute_ipc.Marshaller.Response.{
  demarshall_response-header, value_response, demarshall_response-marshall_message,
}
use cute_ipc.InterfaceConnection.{
  InterfaceConnection, Event, Arrival, block, socket_error, disconnected, call_finished,
  socket_disconnected, error_occured, invoke_remote_signal, emit, keep_stored, handle_type,
  handle_block, handle_arrival, quits, wait,
}
use cute_ipc.InterfaceConnection.Answer.{
  demarshall_message_type-marshall_message, IsLater, finish_reading-IsLater,
}

-- The types of messages that do not answer a request.
abbrev pub IsQuiet : MessageType → Type 0
IsQuiet message_response = ⊥
IsQuiet message_error = ⊥
IsQuiet about_to_close_socket = ⊥
IsQuiet (other n) = ⊥
IsQuiet _ = Unit {0}

IsQuiet-IsListed : (t : MessageType) → IsQuiet t → IsListed t
IsQuiet-IsListed message_response h = tt
IsQuiet-IsListed message_error h = tt
IsQuiet-IsListed about_to_close_socket h = tt
IsQuiet-IsListed (other n) h = h
IsQuiet-IsListed _ h = tt

module _ {V I : Type 0} where
  -- What the connection emits for such a message.
  abbrev pub announced : MessageType → Message V I → List (Event V I)
  announced message_signal m = invoke_remote_signal m.method m.arguments ∷ []
  announced _ m = []

  abbrev pub announced_all : List (Message V I × Bytes) → List (Event V I)
  announced_all [] = []
  announced_all ((m, b) ∷ sent) = announced m.message_type m ++ announced_all sent

  abbrev pub arrivals_of : List (Message V I × Bytes) → List Arrival → List Arrival
  arrivals_of [] more = more
  arrivals_of ((m, b) ∷ sent) more = block b ∷ arrivals_of sent more

module _ {V I : Type 0} (q : Qt V I) where
  pub quits-announced :
      (t : MessageType) (m : Message V I) (es : List (Event V I))
      → quits q es ≡ false
      → quits q (es ++ announced t m) ≡ false
  unfolding quits
  quits-announced message_signal m [] h = refl
  quits-announced _ m [] h = refl
  quits-announced t m (call_finished ∷ es) h = cc
  quits-announced t m (socket_disconnected ∷ es) h = cc
  quits-announced t m (error_occured e ∷ es) h = quits-announced t m es h
  quits-announced t m (invoke_remote_signal e args ∷ es) h = quits-announced t m es h

  -- The signal that ends the loop, behind any signals.
  quits-last :
      (es : List (Event V I)) (last : Event V I)
      → quits q (last ∷ []) ≡ true
      → quits q (es ++ last ∷ []) ≡ true
  unfolding quits
  quits-last [] last h = h
  quits-last (call_finished ∷ es) last h = refl
  quits-last (socket_disconnected ∷ es) last h = refl
  quits-last (error_occured e ∷ es) last h = quits-last es last h
  quits-last (invoke_remote_signal e args ∷ es) last h = quits-last es last h

  -- A message that does not answer, with its bytes.
  abbrev pub IsNotice : Message V I × Bytes → Type 0
  IsNotice (m, b) =
      (marshall_message q m ≡ ok b) × (b ≢ []) × IsSendableMessage m × IsQuiet m.message_type

  handle_type-IsQuiet :
      (t : MessageType) (m : Message V I) (b : Bytes) (c : InterfaceConnection V I)
      → IsQuiet t
      → demarshall_message q b ≡ ok m
      → handle_type q t b c ≡ ok (emit q (announced t m) c)
  unfolding handle_type
  handle_type-IsQuiet message_signal m b c h e = rw e refl
  handle_type-IsQuiet message_response m b c h e = absurd h
  handle_type-IsQuiet message_error m b c h e = absurd h
  handle_type-IsQuiet about_to_close_socket m b c h e = absurd h
  handle_type-IsQuiet (other n) m b c h e = absurd h
  handle_type-IsQuiet _ m b c h e = λ i. ok (record c { emitted = sym (append-nil c.emitted) i })

  pub handle_block-IsNotice :
      (m : Message V I) (b : Bytes) (c : InterfaceConnection V I)
      → IsNotice (m, b)
      → handle_block q b c ≡ ok (emit q (announced m.message_type m) c)
  unfolding handle_block
  handle_block-IsNotice m b c (e, ne, sendable, quiet) =
      rw
        (demarshall_message_type-marshall_message q m b e ne
          (IsQuiet-IsListed m.message_type quiet))
        (handle_type-IsQuiet m.message_type m b c quiet
          (demarshall_message-marshall_message q m b e ne sendable))

  -- The loop goes on over such messages.
  pub wait-IsNotice :
      (sent : List (Message V I × Bytes)) (more : List Arrival) (c : InterfaceConnection V I)
      → All IsNotice sent
      → quits q c.emitted ≡ false
      → (wait q (arrivals_of sent more) c ≡ wait q more (emit q (announced_all sent) c))
        × (quits q (c.emitted ++ announced_all sent) ≡ false)
  unfolding wait handle_arrival
  wait-IsNotice [] more c n h = (
    λ i. wait q more (record c { emitted = sym (append-nil c.emitted) i }),
    rw (append-nil c.emitted) h,
  )
  wait-IsNotice ((m, b) ∷ sent) more c (n, ns) h =
      let h' = quits-announced m.message_type m c.emitted h in
      let (e, k) = wait-IsNotice sent more (emit q (announced m.message_type m) c) ns h' in
      let assoc = append_assoc c.emitted (announced m.message_type m) (announced_all sent) in
      (
        rw (handle_block-IsNotice m b c n, h')
            (e ∙ (λ i. wait q more (record c { emitted = assoc i }))),
        rw assoc at k,
      )

  -- The response ends the loop.
  pub wait-response :
      (method slot : Text) (a : GenericArgument V I) (bs : Bytes) (more : List Arrival)
      (c : InterfaceConnection V I)
      → marshall_message q (value_response q method a) ≡ ok bs
      → bs ≢ []
      → IsSendable a
      → q.type_id slot ≡ q.type_id a.name
      → c.returned_object ≡ some slot
      → IsLater more
      → wait q (block bs ∷ more) c
        ≡ ok (
            some
              (emit q (call_finished ∷ []) (record c { stored = keep_stored q a.value c.stored })))
  unfolding wait handle_arrival handle_block handle_type quits
  wait-response method slot a bs more c h ne sendable same_type wanted later =
      rw
        (
          demarshall_message_type-marshall_message q (value_response q method a) bs h ne tt,
          wanted,
          demarshall_response-marshall_message q method a bs slot h ne sendable same_type,
          quits-last c.emitted call_finished refl,
          finish_reading-IsLater q more _ later,
        )
        refl

  quits-error :
      (es : List (Event V I)) (t : Text)
      → quits q es ≡ false
      → quits q (es ++ error_occured t ∷ []) ≡ false
  unfolding quits
  quits-error [] t h = refl
  quits-error (call_finished ∷ es) t h = cc
  quits-error (socket_disconnected ∷ es) t h = cc
  quits-error (error_occured e ∷ es) t h = quits-error es t h
  quits-error (invoke_remote_signal e args ∷ es) t h = quits-error es t h

  -- An error of the socket does not end it.
  pub wait-socket_error :
      (t : Text) (more : List Arrival) (c : InterfaceConnection V I)
      → quits q c.emitted ≡ false
      → wait q (socket_error t ∷ more) c ≡ wait q more (emit q (error_occured t ∷ []) c)
  unfolding wait handle_arrival
  wait-socket_error t more c h = rw (quits-error c.emitted t h) refl

  -- The loss of the connection ends it.
  pub wait-disconnected :
      (more : List Arrival) (c : InterfaceConnection V I)
      → IsLater more
      → wait q (disconnected ∷ more) c ≡ ok (some (emit q (socket_disconnected ∷ []) c))
  unfolding wait handle_arrival quits
  wait-disconnected more c later =
      rw (quits-last c.emitted socket_disconnected refl, finish_reading-IsLater q more _ later) refl

  -- A response without a value ends it too.
  pub wait-acknowledged :
      (method : Text) (bs : Bytes) (more : List Arrival) (c : InterfaceConnection V I)
      → marshall_message q (from_values message_response method [] []) ≡ ok bs
      → bs ≢ []
      → IsLater more
      → wait q (block bs ∷ more) c ≡ ok (some (emit q (call_finished ∷ []) c))
  unfolding wait handle_arrival handle_block handle_type quits from_values from_arguments
      load_if_any marshall_message or_empty
  wait-acknowledged method bs more c h ne later =
      let m : Message V I = from_values message_response method [] [] in
      let (body, e, split) = or_empty-eq-ok q (header q m) (marshall_arguments q []) bs h ne in
      let loaded : demarshall_response q bs c.returned_object ≡ ok (m, none) =
        ap (λ x. demarshall_response q x c.returned_object) split
        ∙ demarshall_response-header q m body c.returned_object tt (omega arith) in
      rw
        (
          demarshall_message_type-marshall_message q m bs h ne tt,
          loaded,
          quits-last c.emitted call_finished refl,
          finish_reading-IsLater q more _ later,
        )
        refl
