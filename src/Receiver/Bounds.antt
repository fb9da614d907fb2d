-- ===== src/Receiver/Bounds.antt =====
-- How many bytes a receiver of src/CuteIPCServiceConnection.cpp or src/CuteIPCInterfaceConnection.cpp
-- holds and hands on.
use cute_ipc.Prelude.{
  ℕ, zero, suc, ◌+◌, ◌≤◌, ◌<◌, ◌≡◌, refl, ap, inl, inr, false, ◌&&◌, List, [], ◌∷◌, ◌++◌, Option,
  none, some, length, length-append, is_nil, ltb, ◌==◌, Bool-cases, arith,
}
use cute_ipc.Prelude.Text.{Bytes}
use cute_ipc.Qt.{DataStream}
use cute_ipc.Receiver.{
  Receiver, append_block, is_complete, finish_service, fetch_size, read_message,
  read_message_service, add_message, ready_read_loop, ready_read, receive, receive_all,
}
use cute_ipc.Receiver.Chunks.{concat}
use cute_ipc.Receiver.Total.{
  IsReceiver, block_length, fetch_size-IsReceiver, read_message-Progress, ready_read_total,
}

-- The bytes that a receiver has taken and those that wait at its socket.
abbrev pub held : Receiver → ℕ
held r = length r.block + length r.incoming

abbrev pub message_size : Option Bytes → ℕ
message_size none = 0
message_size (some b) = length b

abbrev pub total_size : List Bytes → ℕ
total_size [] = 0
total_size (b ∷ bs) = length b + total_size bs

total_size-append : (xs ys : List Bytes) → total_size (xs ++ ys) ≡ total_size xs + total_size ys
total_size-append [] ys = omega arith
total_size-append (x ∷ xs) ys = omega (arith, total_size-append xs ys)

finish_held :
    (r : Receiver)
    → held (finish_service r).receiver + message_size (finish_service r).message ≡ held r
unfolding finish_service
finish_held r = elim (Bool-cases (is_complete r)) [
  | inl e ↦ rw e (omega arith)
  | inr e ↦ rw e (omega arith)
]

module _ (d : DataStream) where
  held-fetch_size :
      (r : Receiver)
      → (r.next_block_size == 0) && ltb (length r.incoming) 4 ≡ false
      → held (fetch_size d r) ≤ held r
  unfolding fetch_size
  held-fetch_size r h = ground (arith, d.length-get_uint r.incoming)

  held-read_message :
      (r : Receiver)
      → IsReceiver r
      → held (read_message d finish_service r).receiver
          + message_size (read_message d finish_service r).message
        ≤ held r
  unfolding read_message
  held-read_message r v =
      elim (Bool-cases ((r.next_block_size == 0) && ltb (length r.incoming) 4)) [
        | inl wait ↦ rw wait (omega arith)
        | inr go ↦
            let v' = (fetch_size-IsReceiver d r v go).0 in
            let le = held-fetch_size r go in
            rw go (elim (Bool-cases (is_nil (fetch_size d r).incoming)) [
              | inl e ↦ rw e (omega (arith, le))
              | inr e ↦
                  let total = (block_length (fetch_size d r) v').0 in
                  rw e (omega (arith, le, total, finish_held (append_block (fetch_size d r))))
            ])
      ]

  add_message-held :
      (m : Option Bytes) (r0 r' : Receiver) (ms' ms : List Bytes) (bound : ℕ)
      → add_message m (some (r0, ms')) ≡ some (r', ms)
      → held r0 + total_size ms' + message_size m ≤ bound
      → held r' + total_size ms ≤ bound
  add_message-held none r0 r' ms' ms bound e le =
      let same_receiver : r0 ≡ r' = ground arith in
      let same_messages : ms' ≡ ms = ground arith in
      omega (arith, le, ap held same_receiver, ap total_size same_messages)
  add_message-held (some b) r0 r' ms' ms bound e le =
      let same_receiver : r0 ≡ r' = ground arith in
      let same_messages : b ∷ ms' ≡ ms = ground arith in
      omega (arith, le, ap held same_receiver, ap total_size same_messages)

  add_message-some :
      (m : Option Bytes) (x : Option (Receiver × List Bytes)) {r' : Receiver} {ms : List Bytes}
      → add_message m x ≡ some (r', ms)
      → (r0 : Receiver) × (ms' : List Bytes) × (x ≡ some (r0, ms'))
  add_message-some m none e = cc
  add_message-some m (some (r0, ms')) e = (r0, ms', refl)

  loop_held :
      (fuel : ℕ) (r r' : Receiver) (ms : List Bytes)
      → IsReceiver r
      → ready_read_loop (read_message d finish_service) fuel r ≡ some (r', ms)
      → held r' + total_size ms ≤ held r
  unfolding ready_read_loop
  loop_held zero r r' ms v e = cc
  loop_held (suc fuel) r r' ms v e =
      let f = read_message d finish_service r in
      let le = held-read_message r v in
      elim (Bool-cases f.finished) [
        | inl done ↦
            add_message-held f.message f.receiver r' [] ms (held r) (rw done at e)
              (omega (arith, le))
        | inr more ↦
            let rest = ready_read_loop (read_message d finish_service) fuel f.receiver in
            let e' = rw more at e in
            let (r0, ms', e0) = add_message-some f.message rest e' in
            let le' = loop_held fuel f.receiver r0 ms' (read_message-Progress d r v).0.valid e0 in
            add_message-held f.message r0 r' ms' ms (held r) (rw e0 at e') (omega (arith, le, le'))
      ]

  ready_read-held :
      (r r' : Receiver) (ms : List Bytes)
      → IsReceiver r
      → ready_read (read_message_service d) r ≡ some (r', ms)
      → held r' + total_size ms ≤ held r
  unfolding ready_read read_message_service
  ready_read-held r r' ms v e = loop_held (suc (length r.incoming)) r r' ms v e

  receive_all_step :
      (c : Bytes) (cs : List Bytes) (r r1 r2 : Receiver) (ms1 ms2 : List Bytes)
      → ready_read (read_message_service d) (record r { incoming = r.incoming ++ c })
        ≡ some (r1, ms1)
      → receive_all (read_message_service d) r1 cs ≡ some (r2, ms2)
      → receive_all (read_message_service d) r (c ∷ cs) ≡ some (r2, ms1 ++ ms2)
  unfolding receive_all receive
  receive_all_step c cs r r1 r2 ms1 ms2 e e' = rw (e, receive_all, receive, e') refl

  -- Bytes in pieces of any sizes come from a sender that may write anything, fewer than 2 ^ 31
  -- with those that the receiver of the service has: the loop of readyRead ends for each piece,
  -- the receiver is valid after it, and the bytes of the blocks handed on and of those still
  -- held are no more than came.
  pub receive_all_bounded :
      (cs : List Bytes) (r : Receiver)
      → IsReceiver r
      → held r + length (concat cs) < 2147483648
      → (r' : Receiver) × (ms : List Bytes) × (receive_all (read_message_service d) r cs
          ≡ some (r', ms))
        × IsReceiver r'
        × (held r' + total_size ms ≤ held r + length (concat cs))
  unfolding receive_all
  receive_all_bounded [] r v room = (r, [], refl, v, omega arith)
  receive_all_bounded (c ∷ cs) r v room =
      let more : Receiver = record r { incoming = r.incoming ++ c } in
      let grown = length-append r.incoming c in
      let parts = length-append c (concat cs) in
      let v1 : IsReceiver more = record {
        shape = v.shape;
        room = omega (arith, grown, parts);
        size = v.size;
      } in
      let (r1, ms1, e1, v2) = ready_read_total d more v1 in
      let le1 = ready_read-held more r1 ms1 v1 e1 in
      let (r2, ms2, e2, v3, le2) =
        receive_all_bounded cs r1 v2 (omega (arith, le1, grown, parts)) in
      (
        r2,
        ms1 ++ ms2,
        receive_all_step c cs r r1 r2 ms1 ms2 e1 e2,
        v3,
        omega (arith, le1, le2, grown, parts, total_size-append ms1 ms2),
      )
