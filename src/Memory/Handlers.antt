-- ===== src/Memory/Handlers.antt =====
-- The memory of processMessage (src/CuteIPCServiceConnection.cpp), of the switch over a block
-- (src/CuteIPCInterfaceConnection.cpp) and of _q_invokeRemoteSignal (src/CuteIPCInterface.cpp).
use cute_ipc.Prelude.{ℕ, zero, List, [], ◌∷◌, Option, none, some, ltb, is_nil, ◌==◌, if◌then◌else◌}
use cute_ipc.Prelude.Int.{ℤ, pos}
use cute_ipc.Prelude.Result.{Result, ok, ◌>>=◌}
use cute_ipc.Prelude.Text.{Text, Bytes, text}
use cute_ipc.Qt.{Qt}
use cute_ipc.Message.{
  Message, MessageType, message_call_with_return, message_response, message_error,
  signal_connection_request, message_signal, about_to_close_socket, connection_initialize,
}
use cute_ipc.Marshaller.Read.{demarshall_message}
use cute_ipc.MetaObjects.{MetaObjects}
use cute_ipc.ServiceConnection.{fill_arguments, first_argument, connection_id_of}
use cute_ipc.Interface.State.{MethodData}
use cute_ipc.Memory.{
  value_cell, Heap, allocate, release, Owned, datum_memory, message_memory, free_arguments,
}

-- QMetaType::create and, later in the same branch, QMetaType::destroy.
unfoldable pub temporary : ℕ → Heap → Result Heap
temporary type h = let (c, h') = allocate (value_cell type) h in release c h'

module _ {V I W : Type 0} (q : Qt V I) (o : MetaObjects V I W) where
  -- retData
  unfoldable pub returned_memory : Text → Heap → Result Heap
  unfolding temporary
  returned_memory return_type h =
      let type = q.type_id (q.to_latin1 return_type) in
      if ltb 0 type then temporary type h else ok h

  -- connectionId, a copy of what args.at(0) points to, which has to be a QString.
  unfoldable pub copied_string_memory : Message V I → Heap → Result Heap
  unfolding temporary
  copied_string_memory call h =
      connection_id_of q o (first_argument (fill_arguments call.arguments)) >>= λ id.
      temporary (q.type_id (text "QString")) h

  -- The branches of processMessage: retData and connectionId.
  unfoldable pub branch_memory : MessageType → Message V I → Heap → Result Heap
  unfolding returned_memory copied_string_memory
  branch_memory message_call_with_return call h =
      if is_nil call.return_type then ok h else returned_memory call.return_type h
  branch_memory signal_connection_request call h = copied_string_memory call h
  branch_memory connection_initialize call h = copied_string_memory call h
  branch_memory _ call h = ok h

  unfoldable pub process_message_memory : Bytes → Heap → Result Heap
  process_message_memory block h = message_memory q block h >>= λ (h1, owned).
      demarshall_message q block >>= λ call.
      branch_memory call.message_type call h1 >>= free_arguments q owned

module _ {V I : Type 0} (q : Qt V I) where
  -- demarshallResponse, which reads a value into the variable of the caller.
  unfoldable pub returned_value_memory : ℤ → Option Text → Bytes → Heap → Result Heap
  returned_value_memory (pos zero) slot s h = ok h
  returned_value_memory _ none s h = ok h
  returned_value_memory _ (some slot) s h =
      let (type_name, s1) = q.get_string s in
      datum_memory q (q.type_id (q.to_latin1 type_name)) s1 h

  unfoldable pub response_memory : Option Text → Bytes → Heap → Result Heap
  unfolding returned_value_memory
  response_memory slot call h =
      let s1 = (q.get_int call).1 in
      let s2 = (q.get_string s1).1 in
      let s3 = (q.get_string s2).1 in
      let (argc, s4) = q.get_int s3 in returned_value_memory argc slot s4 h

  -- _q_invokeRemoteSignal over the receivers: a null one ends it, and the arguments are freed either
  -- way. The queued calls have copies of them.
  unfoldable pub invoke_memory : List MethodData → List Owned → Heap → Result Heap
  invoke_memory [] owned h = free_arguments q owned h
  invoke_memory (m ∷ ms) owned h =
      let rest = invoke_memory ms owned h in
      if m.object == 0 then free_arguments q owned h else rest

  -- The arguments of a signal. Only the signals of the worker's connection go on to the interface, which
  -- has these receivers for the signal; `none` is the connection of a synchronous request, of which
  -- invokeRemoteSignal is connected to nothing.
  unfoldable pub signal_memory : Option (List MethodData) → List Owned → Heap → Result Heap
  unfolding invoke_memory
  signal_memory none owned h = ok h
  signal_memory (some ms) owned h = invoke_memory ms owned h

  -- The switch over the type of a block.
  unfoldable pub receive_memory :
      MessageType → Option Text → Option (List MethodData) → Bytes → Heap → Result Heap
  unfolding response_memory signal_memory
  receive_memory message_response slot ms b h = response_memory slot b h
  receive_memory message_error slot ms b h =
      message_memory q b h >>= λ (h1, owned). free_arguments q owned h1
  receive_memory about_to_close_socket slot ms b h =
      message_memory q b h >>= λ (h1, owned). free_arguments q owned h1
  receive_memory message_signal slot ms b h =
      message_memory q b h >>= λ (h1, owned). signal_memory ms owned h1
  receive_memory _ slot ms b h = ok h
