-- ===== src/Memory/Freed.antt =====
-- Reading a message and handling it frees what it allocated (src/CuteIPCMarshaller.cpp,
-- src/CuteIPCServiceConnection.cpp, src/CuteIPCInterfaceConnection.cpp, src/CuteIPCInterface.cpp).
use cute_ipc.Prelude.{
  ℕ, zero, suc, ◌-◌, ◌≤◌, ◌≡◌, refl, sym, ap, ◌∙◌, subst, inl, inr, List, [], ◌∷◌, ◌++◌, append-nil,
  Option, none, some, length, map, take, All, ltb, is_nil, ◌==◌, Bool-cases, arith,
}
use cute_ipc.Prelude.Int.{ℤ, pos, negsuc}
use cute_ipc.Prelude.Result.{Result, ok, fail, fault, ◌>>=◌, >>=-eq-ok}
use cute_ipc.Prelude.Text.{Text, Bytes, text}
use cute_ipc.Qt.{Qt}
use cute_ipc.Message.{
  Datum, Message, MessageType, message_call_with_return, message_response, message_error,
  signal_connection_request, message_signal, about_to_close_socket, connection_initialize,
}
use cute_ipc.Marshaller.Read.{
  read_bits, load_image, load_datum, write_returned, load_returned, load_if_any, demarshall_message,
  demarshall_response,
}
use cute_ipc.Marshaller.Typed.{IsDefined}
use cute_ipc.InterfaceConnection.{InterfaceConnection, handle_type}
use cute_ipc.MetaObjects.{MetaObjects}
use cute_ipc.ServiceConnection.{
  ServiceConnection, State, fill_arguments, first_argument, connection_id_of, signal_connection,
  initialize, dispatch, process_call, process_message,
}
use cute_ipc.Interface.State.{MethodData}
use cute_ipc.Memory.{
  value_cell, bits_cell, bits_memory, Cell, Heap, allocate, Owned, image_memory, datum_memory,
  announced_arguments, message_memory, free_arguments,
}
use cute_ipc.Memory.Cells.{Balance, Balance-refl, Balance-trans, allocate-Balance, release-Balance}
use cute_ipc.Memory.Loading.{IsBits, IsLost, datum_memory-Loads}
use cute_ipc.Memory.Arguments.{all_cells, message_memory-Reads, free_arguments-Balance}
use cute_ipc.Memory.Handlers.{
  temporary, returned_memory, copied_string_memory, signal_memory, branch_memory,
  process_message_memory, returned_value_memory, response_memory, invoke_memory, receive_memory,
}

-- A call that leaves the live cells as they were.
abbrev Leaves : Result Heap → Heap → Type 0
Leaves m h = (h' : Heap) × (m ≡ ok h') × Balance h h' []

-- What is live after a block was handled: what was live before, and the bits of at most one image.
abbrev pub Freed : Result Heap → Heap → ℕ → Type 0
Freed m h room =
    (h' : Heap) × (lost : List Cell) × (m ≡ ok h')
    × All IsBits lost
    × (length lost ≤ 1)
    × (length lost ≤ room)
    × Balance h h' lost

-- A signal is one of the worker's connection.
abbrev pub IsHeard : MessageType → Option (List MethodData) → Type 0
IsHeard message_signal none = ⊥
IsHeard _ _ = Unit {0}

temporary-Leaves : (type : ℕ) (h : Heap) → Leaves (temporary type h) h
unfolding temporary
temporary-Leaves type h =
    release-Balance (allocate (value_cell type) h).0 h (allocate (value_cell type) h).1 [] []
      (allocate-Balance (value_cell type) h)

IsLost-few :
    {A : Type 0} (r : Result A) (lost : List Cell)
    → IsLost r lost
    → All IsBits lost × (length lost ≤ 1)
IsLost-few (ok a) lost e = (subst (All IsBits) (sym e) tt, omega (arith, ap length e))
IsLost-few fail lost l = l
IsLost-few fault lost l = l

Result-map-fail :
    {A B : Type 0} (r : Result A) (f : A → B) → (r >>= λ a. ok (f a)) ≡ fail → r ≡ fail
Result-map-fail (ok a) f e = cc
Result-map-fail fail f e = refl
Result-map-fail fault f e = cc

IsBits-lost :
    (z : ℤ) (s : Bytes) (h : Heap)
    → read_bits z s ≡ fail
    → (c : Cell) × (h' : Heap) × (bits_memory z s h ≡ ok h')
      × (h'.live ≡ c ∷ h.live)
      × IsBits c
      × (c.address ≡ h.next)
unfolding read_bits bits_memory
IsBits-lost (negsuc n) s h e = cc
IsBits-lost (pos n) s h e = elim (Bool-cases (length (take n s) == n)) [
  | inl f ↦ cc (rw f at e)
  | inr f ↦ rw f ((allocate bits_cell h).0, (allocate bits_cell h).1, refl, refl, refl, refl)
]

module _ {V I W : Type 0} (q : Qt V I) (o : MetaObjects V I W) where
  -- The copy of a QString is destroyed.
  copied_string_memory-Leaves :
      {A : Type 0} (m : Message V I) (h : Heap) (f : Text → Result A) {a : A}
      → (connection_id_of q o (first_argument (fill_arguments m.arguments)) >>= f) ≡ ok a
      → Leaves (copied_string_memory q o m h) h
  unfolding copied_string_memory
  copied_string_memory-Leaves m h f e =
      let (id, e1, e2) =
        >>=-eq-ok (connection_id_of q o (first_argument (fill_arguments m.arguments))) f e in
      rw (e1, copied_string_memory) (temporary-Leaves (q.type_id (text "QString")) h)

  branch_memory-Leaves :
      (t : MessageType) (c : ServiceConnection) (subject : ℕ) (m : Message V I) (s s' : State W)
      (h : Heap)
      → dispatch q o t c subject m (fill_arguments m.arguments) s ≡ ok s'
      → Leaves (branch_memory q o t m h) h
  unfolding branch_memory returned_memory dispatch signal_connection initialize
  branch_memory-Leaves message_call_with_return c subject m s s' h d =
      elim (Bool-cases (is_nil m.return_type)) [
        | inl e ↦ rw e (h, refl, Balance-refl h)
        | inr e ↦ elim (Bool-cases (ltb 0 (q.type_id (q.to_latin1 m.return_type)))) [
          | inl f ↦ rw (e, f) (temporary-Leaves (q.type_id (q.to_latin1 m.return_type)) h)
          | inr f ↦ rw (e, f) (h, refl, Balance-refl h)
        ]
      ]
  branch_memory-Leaves signal_connection_request c subject m s s' h d =
      copied_string_memory-Leaves m h _ d
  branch_memory-Leaves connection_initialize c subject m s s' h d =
      copied_string_memory-Leaves m h _ d
  branch_memory-Leaves _ c subject m s s' h d = (h, refl, Balance-refl h)

  -- A service reads a block into a message and processes it, whatever the message asks for, and the
  -- processing is defined: nothing is freed that is not live, or as something that it was not allocated
  -- as, and after it everything that was allocated is freed, but for the bits of at most one image, and
  -- of none if the message has all arguments that it announces.
  pub process_message-Freed :
      (c : ServiceConnection) (s s' : State W) (block : Bytes) (h : Heap) (m : Message V I)
      → demarshall_message q block ≡ ok m
      → process_message q o c block s ≡ ok s'
      → Freed
          (process_message_memory q o block h)
          h
          ((announced_arguments q block).0 - length m.arguments)
  unfolding process_message_memory process_message process_call
  process_message-Freed c s s' block h m e processed =
      let (h1, owned, lost, em, names, bits_only, few, room, b1) =
        message_memory-Reads q block h m e in
      let (h2, em2, b2) = branch_memory-Leaves m.message_type c _ m s s' h1 (rw e at processed) in
      let b : Balance h h2 (all_cells q owned ++ lost) =
        subst (Balance h h2) (append-nil (all_cells q owned ++ lost))
          (Balance-trans h h1 h2 (all_cells q owned ++ lost) [] b1 b2) in
      let (h3, em3, b3) = free_arguments-Balance q owned h h2 lost b in
      (h3, lost, rw (em, e, em2, em3) refl, bits_only, few, omega (arith, room), b3)

module _ {V I : Type 0} (q : Qt V I) where
  -- The value of a response.
  load_returned-IsDefined :
      (slot : Text) (type : ℕ) (r : Result (Datum V I × Bytes)) (d : Option (Datum V I))
      → write_returned q slot type r ≡ ok d
      → IsDefined r
  unfolding write_returned
  load_returned-IsDefined slot type (ok r) d e = tt
  load_returned-IsDefined slot type fail d e = tt
  load_returned-IsDefined slot type fault d e = cc

  returned_value-Freed :
      (slot : Text) (s : Bytes) (h : Heap) (d : Option (Datum V I))
      → load_returned q (some slot) s ≡ ok d
      → Freed (datum_memory q (q.type_id (q.to_latin1 (q.get_string s).0)) (q.get_string s).1 h) h 1
  unfolding load_returned
  returned_value-Freed slot s h d e =
      let type = q.type_id (q.to_latin1 (q.get_string s).0) in
      let s1 = (q.get_string s).1 in
      let defined = load_returned-IsDefined slot type (load_datum q type s1) d e in
      let (h', lost, em, l, b) = datum_memory-Loads q type s1 h defined in
      let (bits_only, few) = IsLost-few (load_datum q type s1) lost l in
      (h', lost, em, bits_only, few, few, b)

  response-Freed :
      (z : ℤ) (slot : Option Text) (s : Bytes) (h : Heap) (d : Option (Datum V I))
      → load_if_any q z slot s ≡ ok d
      → Freed (returned_value_memory q z slot s h) h 1
  unfolding load_if_any returned_value_memory
  response-Freed (pos zero) slot s h d e =
      (h, [], refl, tt, omega arith, omega arith, Balance-refl h)
  response-Freed (pos (suc n)) none s h d e =
      (h, [], refl, tt, omega arith, omega arith, Balance-refl h)
  response-Freed (negsuc n) none s h d e =
      (h, [], refl, tt, omega arith, omega arith, Balance-refl h)
  response-Freed (pos (suc n)) (some slot) s h d e = returned_value-Freed slot s h d e
  response-Freed (negsuc n) (some slot) s h d e = returned_value-Freed slot s h d e

  invoke_memory-frees :
      (ms : List MethodData) (owned : List Owned) (h : Heap)
      → invoke_memory q ms owned h ≡ free_arguments q owned h
  unfolding invoke_memory
  invoke_memory-frees [] owned h = refl
  invoke_memory-frees (m ∷ ms) owned h = elim (Bool-cases (m.object == 0)) [
    | inl e ↦ rw e refl
    | inr e ↦ rw e (invoke_memory-frees ms owned h)
  ]

  read_and_Freed :
      (b : Bytes) (h : Heap) (m : Message V I)
      → demarshall_message q b ≡ ok m
      → Freed (message_memory q b h >>= λ (h1, owned). free_arguments q owned h1) h 1
  read_and_Freed b h m e =
      let (h1, owned, lost, em, names, bits_only, few, room, b1) = message_memory-Reads q b h m e in
      let (h2, em2, b2) = free_arguments-Balance q owned h h1 lost b1 in
      (h2, lost, rw (em, em2) refl, bits_only, few, few, b2)

  -- A client handles a block of any type, a signal at the connection of its worker, which the
  -- interface invokes on any receivers: nothing is freed that is not live, or as something that it was
  -- not allocated as, and after it everything that was allocated is freed, but for the bits of at most
  -- one image. The condition: handling the block is defined.
  pub receive_memory-Freed :
      (t : MessageType) (c c' : InterfaceConnection V I) (receivers : Option (List MethodData))
      (b : Bytes) (h : Heap)
      → handle_type q t b c ≡ ok c'
      → IsHeard t receivers
      → Freed (receive_memory q t c.returned_object receivers b h) h 1
  unfolding receive_memory handle_type response_memory demarshall_response signal_memory
  receive_memory-Freed message_response c c' receivers b h e k =
      let (r, e1, e2) = >>=-eq-ok (demarshall_response q b c.returned_object) _ e in
      let (d, e3, e4) = >>=-eq-ok (load_if_any q _ c.returned_object _) _ e1 in
      response-Freed _ c.returned_object _ h d e3
  receive_memory-Freed message_error c c' receivers b h e k =
      let (m, e1, e2) = >>=-eq-ok (demarshall_message q b) _ e in read_and_Freed b h m e1
  receive_memory-Freed about_to_close_socket c c' receivers b h e k =
      let (m, e1, e2) = >>=-eq-ok (demarshall_message q b) _ e in read_and_Freed b h m e1
  receive_memory-Freed message_signal c c' none b h e k = absurd k
  receive_memory-Freed message_signal c c' (some ms) b h e k =
      let (m, e1, e2) = >>=-eq-ok (demarshall_message q b) _ e in
      let (h2, lost, em, bits_only, few, room, balance) = read_and_Freed b h m e1 in
      let same = ap (◌>>=◌ (message_memory q b h)) (λ i x. invoke_memory-frees ms x.1 x.0 i) in
      (h2, lost, same ∙ em, bits_only, few, room, balance)
  receive_memory-Freed _ c c' receivers b h e k =
      (h, [], refl, tt, omega arith, omega arith, Balance-refl h)

  -- A signal message comes on the connection of a synchronous request, and can be read: all its
  -- arguments stay live, the name and the value of each, though nothing holds them.
  pub unheard_signal_lost :
      (m : Message V I) (slot : Option Text) (b : Bytes) (h : Heap)
      → demarshall_message q b ≡ ok m
      → (h' : Heap) × (owned : List Owned) × (lost : List Cell) × (receive_memory q message_signal
            slot none b h
          ≡ ok h')
        × (map (λ a. a.name) owned ≡ map (λ a. a.name) m.arguments)
        × Balance h h' (all_cells q owned ++ lost)
  unfolding receive_memory signal_memory
  unheard_signal_lost m slot b h e =
      let (h1, owned, lost, em, names, bits_only, few, room, balance) =
        message_memory-Reads q b h m e in
      (h1, owned, lost, rw em refl, names, balance)

  -- An image that is not loaded, since not as many bytes can be read as it announces, leaves its bits
  -- live: one cell more than before, allocated by `new uchar[]`, at an address that is not kept.
  pub cut_image_lost :
      (s : Bytes) (h : Heap)
      → load_image q s ≡ fail
      → (c : Cell) × (h' : Heap) × (image_memory q s h ≡ ok h')
        × (h'.live ≡ c ∷ h.live)
        × IsBits c
        × (c.address ≡ h.next)
  unfolding load_image image_memory
  cut_image_lost s h e = IsBits-lost _ _ h (Result-map-fail (read_bits _ _) _ e)
