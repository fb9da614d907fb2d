-- ===== src/Remote/Stream.antt =====
-- Requests sent one after the other, cut into pieces on the way, and processed by the service.
use cute_ipc.Prelude.{
  ◌≡◌, refl, sym, ap, ◌∙◌, List, [], ◌∷◌, ◌++◌, append_assoc, append-nil, some, length, All, arith,
}
use cute_ipc.Prelude.Result.{Result, ok, fail, fault, ◌>>=◌}
use cute_ipc.Prelude.Text.{Bytes}
use cute_ipc.Qt.{Qt}
use cute_ipc.MetaObjects.{MetaObjects}
use cute_ipc.Message.{Message}
use cute_ipc.Marshaller.Write.{marshall_message}
use cute_ipc.Marshaller.RoundTrip.{IsSendableMessage, demarshall_message-marshall_message}
use cute_ipc.Receiver.{idle, read_message_service, receive_all}
use cute_ipc.Receiver.Pending.{IsBlock, frames}
use cute_ipc.Receiver.Chunks.{concat, service_receives-frames}
use cute_ipc.ServiceConnection.{ServiceConnection, State, process_call, process_message}
use cute_ipc.InterfaceConnection.{InterfaceConnection, send_call_request}

module _ {V I : Type 0} (q : Qt V I) where
  -- The client sends requests one after the other.
  unfoldable pub send_all : List Bytes → InterfaceConnection V I → InterfaceConnection V I
  send_all [] c = c
  send_all (r ∷ rs) c = send_all rs (send_call_request q r c)

  send_all-written :
      (rs : List Bytes) (c : InterfaceConnection V I)
      → (send_all rs c).written ≡ c.written ++ frames q.stream rs
  unfolding send_all send_call_request
  send_all-written [] c = sym (append-nil c.written)
  send_all-written (r ∷ rs) c = send_all-written rs (send_call_request q r c) ∙ simp append_assoc

module _ {V I W : Type 0} (q : Qt V I) (o : MetaObjects V I W) where
  -- The service processes blocks one after the other.
  unfoldable pub process_all : ServiceConnection → List Bytes → State W → Result (State W)
  process_all c [] s = ok s
  process_all c (b ∷ bs) s = process_message q o c b s >>= process_all c bs

  -- The same for messages that need no reading.
  unfoldable pub process_calls : ServiceConnection → List (Message V I) → State W → Result (State W)
  process_calls c [] s = ok s
  process_calls c (m ∷ ms) s = process_call q o c m s >>= process_calls c ms

  -- Messages and their bytes.
  abbrev pub Marshalled : List (Message V I) → List Bytes → Type 0
  Marshalled [] [] = Unit {0}
  Marshalled (m ∷ ms) (b ∷ bs) =
      (marshall_message q m ≡ ok b) × IsSendableMessage m × IsBlock b × Marshalled ms bs
  Marshalled _ _ = ⊥

  empty_block : (b : Bytes) → b ≡ [] → IsBlock b → ⊥
  empty_block b e (positive, small) = omega (arith, ap length e)

  pub Marshalled-IsBlock :
      (ms : List (Message V I)) (bs : List Bytes) → Marshalled ms bs → All IsBlock bs
  Marshalled-IsBlock [] [] h = tt
  Marshalled-IsBlock [] (b ∷ bs) h = absurd h
  Marshalled-IsBlock (m ∷ ms) [] h = tt
  Marshalled-IsBlock (m ∷ ms) (b ∷ bs) (e, s, k, rest) = (k, Marshalled-IsBlock ms bs rest)

  bind_same :
      (r : Result (State W)) (f g : State W → Result (State W))
      → ((s : State W) → f s ≡ g s)
      → (r >>= f) ≡ (r >>= g)
  bind_same (ok s) f g h = h s
  bind_same fail f g h = refl
  bind_same fault f g h = refl

  pub process_all-process_calls :
      (c : ServiceConnection) (ms : List (Message V I)) (bs : List Bytes) (s : State W)
      → Marshalled ms bs
      → process_all c bs s ≡ process_calls c ms s
  unfolding process_all process_calls process_message
  process_all-process_calls c [] [] s h = refl
  process_all-process_calls c [] (b ∷ bs) s h = absurd h
  process_all-process_calls c (m ∷ ms) [] s h = absurd h
  process_all-process_calls c (m ∷ ms) (b ∷ bs) s (e, sendable, block, rest) =
      rw (demarshall_message-marshall_message q m b e (λ n. empty_block b n block) sendable) (
        bind_same (process_call q o c m s) (process_all c bs) (process_calls c ms)
          (λ s'. process_all-process_calls c ms bs s' rest))

  -- A client sends messages over one connection, and their bytes arrive at the service in pieces of
  -- any sizes. Then the service's receiver hands on exactly the blocks that were sent, is idle after
  -- them, and processing the blocks is processing the messages that the client marshalled, in order.
  -- The conditions: each message can be marshalled and fits the limits, and its bytes are 1 to
  -- 2 ^ 31 - 1 in number.
  pub requests_arrive :
      (c : ServiceConnection) (client : InterfaceConnection V I) (ms : List (Message V I))
      (bs pieces : List Bytes) (s : State W)
      → Marshalled ms bs
      → client.written ≡ []
      → concat pieces ≡ (send_all q bs client).written
      → (receive_all (read_message_service q.stream) (idle []) pieces ≡ some (idle [], bs))
        × (process_all c bs s ≡ process_calls c ms s)
  requests_arrive c client ms bs pieces s h fresh e = (
    service_receives-frames q.stream pieces bs (Marshalled-IsBlock ms bs h)
        (e ∙ send_all-written q bs client ∙ ap (λ w. w ++ frames q.stream bs) fresh),
    process_all-process_calls c ms bs s h,
  )
