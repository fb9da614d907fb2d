-- ===== src/Receiver/Total.antt =====
-- The loop of readyRead (src/CuteIPCServiceConnection.cpp, src/CuteIPCInterfaceConnection.cpp) on any
-- bytes at all, also those that no sender of this library writes.
use cute_ipc.Prelude.{
  ℕ, zero, suc, ◌+◌, ◌-◌, ◌≤◌, ◌<◌, ◌≡◌, refl, ap, ◌⊎◌, inl, inr, true, false, ◌&&◌, List, [], ◌∷◌,
  Option, none, some, length, length-append, length-take, length-drop, take, is_nil, ltb, ◌==◌,
  Bool-cases, arith,
}
use native.Mathlib.Decide.{dec_le}
use cute_ipc.Prelude.Text.{Bytes}
use cute_ipc.Qt.{DataStream}
use cute_ipc.Receiver.{
  Receiver, Fetched, bytes_to_fetch, append_block, is_complete, finish_service, finish_interface,
  fetch_size, read_message, read_message_service, read_message_interface, add_message,
  ready_read_loop, ready_read,
}

-- Between blocks the block is empty, and within one it is shorter than its size. The bytes at hand
-- are fewer than 2 ^ 31.
pub record IsReceiver (r : Receiver) : Type 0 where
  pub shape :
      ((r.next_block_size ≡ 0) × (length r.block ≡ 0)) ⊎ (length r.block < r.next_block_size)
  pub room : length r.block + length r.incoming < 2147483648
  pub size : r.next_block_size < 4294967296

-- What a call leaves.
pub record Progress (r : Receiver) (f : Fetched) : Type 0 where
  pub valid : IsReceiver f.receiver
  pub smaller : f.finished ≡ false → length f.receiver.incoming < length r.incoming

pub block_length :
    (r : Receiver)
    → IsReceiver r
    → (length (append_block r).block + length (append_block r).incoming
        ≡ length r.block + length r.incoming)
      × (length (append_block r).block ≤ r.next_block_size)
      × (length (append_block r).block < r.next_block_size → length (append_block r).incoming ≡ 0)
      × (0 < r.next_block_size
          → 0 < length r.incoming
          → length (append_block r).incoming < length r.incoming)
block_length r v =
    let fetched : bytes_to_fetch r ≡ r.next_block_size - length r.block = omega arith in
    let lengths = length-append r.block (take (bytes_to_fetch r) r.incoming) in
    let taken = length-take (bytes_to_fetch r) r.incoming in
    let dropped = length-drop (bytes_to_fetch r) r.incoming in
    (
      omega (arith, fetched, lengths, taken, dropped),
      omega (arith, fetched, lengths, taken, dropped),
      omega (arith, fetched, lengths, taken, dropped),
      omega (arith, fetched, lengths, taken, dropped),
    )

is_nil_of_length : (xs : Bytes) → length xs ≡ 0 → is_nil xs ≡ true
is_nil_of_length [] h = refl
is_nil_of_length (x ∷ xs) h = absurd (omega arith)

length_of_not_nil : (xs : Bytes) → is_nil xs ≡ false → 0 < length xs
length_of_not_nil [] h = cc
length_of_not_nil (x ∷ xs) h = omega arith

-- The end of the function, once the bytes at hand have been added to the block.
finish_progress :
    (r : Receiver)
    → length r.block + length r.incoming < 2147483648
    → length r.block ≤ r.next_block_size
    → (length r.block < r.next_block_size → length r.incoming ≡ 0)
    → r.next_block_size < 4294967296
    → IsReceiver (finish_service r).receiver
      × (finish_interface r ≡ finish_service r)
      × ((finish_service r).receiver.incoming ≡ r.incoming)
unfolding finish_service finish_interface
finish_progress r room le empty size = elim (Bool-cases (is_complete r)) [
  | inl whole ↦
      rw whole
        (record { shape = inl (refl, refl); room = omega arith; size = omega arith }, refl, refl)
  | inr part ↦
      let short : length r.block < r.next_block_size = ground arith in
      rw part (
        record { shape = inr short; room = room; size = size },
        rw (is_nil_of_length r.incoming (empty short)),
        refl,
      )
]

append_progress :
    (r : Receiver)
    → IsReceiver r
    → IsReceiver (finish_service (append_block r)).receiver
      × (finish_interface (append_block r) ≡ finish_service (append_block r))
      × (length (finish_service (append_block r)).receiver.incoming ≤ length r.incoming)
      × (0 < r.next_block_size
          → 0 < length r.incoming
          → length (finish_service (append_block r)).receiver.incoming < length r.incoming)
append_progress r v =
    let (total, le, empty, less) = block_length r v in
    let (valid, same, kept) =
      finish_progress (append_block r) (omega (arith, total, v.room)) le empty v.size in
    (
      valid,
      same,
      omega (arith, ap length kept, total, length-drop (bytes_to_fetch r) r.incoming),
      λ p h. omega (arith, ap length kept, less p h),
    )

shrinks :
    {r1 : Receiver} {n k : ℕ}
    → IsReceiver r1
    → (r1.next_block_size ≡ 0 → length r1.incoming < n)
    → k ≤ length r1.incoming
    → (0 < r1.next_block_size → 0 < length r1.incoming → k < length r1.incoming)
    → 0 < length r1.incoming
    → length r1.incoming ≤ n
    → k < n
shrinks {r1} v less le' less' p le = elim (dec_le 1 r1.next_block_size) [
  | yes h ↦ omega (arith, less' h p)
  | no h ↦ omega (arith, less (omega arith))
]

module _ (d : DataStream) where
  pub fetch_size-IsReceiver :
      (r : Receiver)
      → IsReceiver r
      → (r.next_block_size == 0) && ltb (length r.incoming) 4 ≡ false
      → IsReceiver (fetch_size d r)
        × (length (fetch_size d r).incoming ≤ length r.incoming)
        × (((fetch_size d r).next_block_size ≡ 0)
            → length (fetch_size d r).incoming < length r.incoming)
  unfolding fetch_size
  fetch_size-IsReceiver r v h =
      ground (arith, d.length-get_uint r.incoming, d.get_uint-lt r.incoming)

  pub read_message-Progress :
      (r : Receiver)
      → IsReceiver r
      → Progress r (read_message d finish_service r)
        × (read_message d finish_interface r ≡ read_message d finish_service r)
  unfolding read_message
  read_message-Progress r v =
      elim (Bool-cases ((r.next_block_size == 0) && ltb (length r.incoming) 4)) [
        | inl wait ↦ rw wait (record { valid = v; smaller = λ h. cc }, refl)
        | inr go ↦
            let (v', le, less) = fetch_size-IsReceiver r v go in
            rw go (elim (Bool-cases (is_nil (fetch_size d r).incoming)) [
              | inl none_left ↦ rw none_left (record { valid = v'; smaller = λ h. cc }, refl)
              | inr some_left ↦
                  let (valid, same, le', less') = append_progress (fetch_size d r) v' in
                  rw some_left (
                    record {
                      valid = valid;
                      smaller = λ _.
                          shrinks v' less le' less'
                            (length_of_not_nil (fetch_size d r).incoming some_left) le;
                    },
                    same,
                  )
            ])
      ]

  add_message_total :
      (m : Option Bytes) (result : Option (Receiver × List Bytes))
      → (r' : Receiver) × (ms : List Bytes) × (result ≡ some (r', ms)) × IsReceiver r'
      → (r' : Receiver) × (ms : List Bytes) × (add_message m result ≡ some (r', ms)) × IsReceiver r'
  add_message_total none result (r', ms, e, v) = (r', ms, rw e, v)
  add_message_total (some b) result (r', ms, e, v) = (r', b ∷ ms, rw e, v)

  ready_read_loop_total :
      (fuel : ℕ) (r : Receiver)
      → IsReceiver r
      → length r.incoming < fuel
      → (r' : Receiver) × (ms : List Bytes) × (ready_read_loop
            (read_message d finish_service)
            fuel
            r
          ≡ some (r', ms))
        × IsReceiver r'
  unfolding ready_read_loop
  ready_read_loop_total zero r v lt = absurd (omega arith)
  ready_read_loop_total (suc fuel) r v lt =
      let f = read_message d finish_service r in
      let p = (read_message-Progress r v).0 in
      elim (Bool-cases f.finished) [
        | inl done ↦ rw done (add_message_total f.message _ (f.receiver, [], refl, p.valid))
        | inr more ↦ rw more (
            add_message_total f.message _
              (ready_read_loop_total fuel f.receiver p.valid (omega (arith, p.smaller more))))
      ]

  ready_read_loop_same :
      (fuel : ℕ) (r : Receiver)
      → IsReceiver r
      → ready_read_loop (read_message d finish_interface) fuel r
        ≡ ready_read_loop (read_message d finish_service) fuel r
  unfolding ready_read_loop
  ready_read_loop_same zero r v = refl
  ready_read_loop_same (suc fuel) r v =
      let (p, same) = read_message-Progress r v in
      rw (same, ready_read_loop_same fuel (read_message d finish_service r).receiver p.valid)

  -- Whatever bytes the socket holds, fewer than 2 ^ 31 with the block begun: the loop of readyRead
  -- ends, within as many rounds as there are bytes and one more, and leaves the receiver valid.
  pub ready_read_total :
      (r : Receiver)
      → IsReceiver r
      → (r' : Receiver) × (ms : List Bytes) × (ready_read (read_message_service d) r
          ≡ some (r', ms))
        × IsReceiver r'
  unfolding ready_read read_message_service
  ready_read_total r v = ready_read_loop_total (suc (length r.incoming)) r v (omega arith)

  -- The interface's loop and the service's, which test for bytes left at different places, do the
  -- same in every valid state.
  pub ready_read_same :
      (r : Receiver)
      → IsReceiver r
      → ready_read (read_message_interface d) r ≡ ready_read (read_message_service d) r
  unfolding ready_read read_message_service read_message_interface
  ready_read_same r v = ready_read_loop_same (suc (length r.incoming)) r v
