-- ===== src/Receiver.antt =====
-- The reassembly of messages from a socket, which CuteIPCServiceConnection and
-- CuteIPCInterfaceConnection both do: readMessageFromSocket and readyRead of
-- src/CuteIPCServiceConnection.cpp and src/CuteIPCInterfaceConnection.cpp, with m_nextBlockSize,
-- m_block and the bytes that the socket holds. What is done with a whole block is not part of it.
pub mod Split
pub mod Pending
pub mod Step
pub mod Chunks
pub mod Total
pub mod Bounds
use cute_ipc.Prelude.{
  ℕ, zero, suc, ◌+◌, ◌-◌, ◌%◌, ◌^◌, Bool, true, false, ◌&&◌, List, [], ◌∷◌, ◌++◌, Option, none,
  some, length, take, drop, is_nil, ltb, ◌==◌, if◌then◌else◌,
}
use cute_ipc.Prelude.Text.{Bytes}
use cute_ipc.Qt.{DataStream}

pub record Receiver : Type 0 where
  pub next_block_size : ℕ
  pub block : Bytes
  pub incoming : Bytes

-- One call of readMessageFromSocket: the new state, the block that it completed, and its result.
pub record Fetched : Type 0 where
  pub receiver : Receiver
  pub message : Option Bytes
  pub finished : Bool

abbrev pub idle : Bytes → Receiver
idle incoming = record { next_block_size = 0; block = []; incoming = incoming }

-- m_nextBlockSize - m_block.size(), a subtraction of quint32.
abbrev pub bytes_to_fetch : Receiver → ℕ
bytes_to_fetch r = (r.next_block_size + 4294967296 - length r.block % 4294967296) % 4294967296

-- m_block.append(m_socket->read(bytesToFetch))
abbrev pub append_block : Receiver → Receiver
append_block r = record r {
  block = r.block ++ take (bytes_to_fetch r) r.incoming;
  incoming = drop (bytes_to_fetch r) r.incoming;
}

-- m_block.size() == (int)m_nextBlockSize; a size from 2 ^ 31 on is negative as an int.
abbrev pub is_complete : Receiver → Bool
is_complete r = (length r.block == r.next_block_size) && ltb r.next_block_size 2147483648

-- The end of the service's function: a whole block is handed on, and then the test is whether bytes
-- are left.
unfoldable pub finish_service : Receiver → Fetched
finish_service r =
    if is_complete r
    then record { receiver = idle r.incoming; message = some r.block; finished = is_nil r.incoming }
    else record { receiver = r; message = none; finished = is_nil r.incoming }

-- The end of the interface's function: bytes that are left count only after a whole block.
unfoldable pub finish_interface : Receiver → Fetched
finish_interface r =
    if is_complete r
    then record { receiver = idle r.incoming; message = some r.block; finished = is_nil r.incoming }
    else record { receiver = r; message = none; finished = true }

abbrev pub stop : Receiver → Fetched
stop r = record { receiver = r; message = none; finished = true }

module _ (d : DataStream) where
  unfoldable pub fetch_size : Receiver → Receiver
  fetch_size r =
      let (size, rest) = d.get_uint r.incoming in
      if r.next_block_size == 0 then record r { next_block_size = size; incoming = rest } else r

  -- readMessageFromSocket, over its last part.
  unfoldable pub read_message : (Receiver → Fetched) → Receiver → Fetched
  read_message finish r =
      if (r.next_block_size == 0) && ltb (length r.incoming) 4
      then stop r
      else if is_nil (fetch_size r).incoming
      then stop (fetch_size r)
      else finish (append_block (fetch_size r))

  unfoldable pub read_message_service : Receiver → Fetched
  unfolding read_message fetch_size finish_service
  read_message_service = read_message finish_service

  unfoldable pub read_message_interface : Receiver → Fetched
  unfolding read_message fetch_size finish_interface
  read_message_interface = read_message finish_interface

-- The blocks that a call adds to those of the calls after it.
abbrev pub add_message :
    Option Bytes → Option (Receiver × List Bytes) → Option (Receiver × List Bytes)
add_message m none = none
add_message none (some (r, ms)) = some (r, ms)
add_message (some b) (some (r, ms)) = some (r, b ∷ ms)

-- readyRead: the loop, on fuel (`none` is the end of the fuel), with the blocks in the order in which
-- they are processed.
unfoldable pub ready_read_loop :
    (Receiver → Fetched) → ℕ → Receiver → Option (Receiver × List Bytes)
ready_read_loop read zero r = none
ready_read_loop read (suc fuel) r =
    let f = read r in
    let more = ready_read_loop read fuel f.receiver in
    if f.finished then add_message f.message (some (f.receiver, [])) else add_message f.message more

-- Each round that does not end the loop takes a byte off the socket.
unfoldable pub ready_read : (Receiver → Fetched) → Receiver → Option (Receiver × List Bytes)
ready_read read r = ready_read_loop read (suc (length r.incoming)) r

-- The socket received more bytes, and said so by readyRead.
unfoldable pub receive : (Receiver → Fetched) → Receiver → Bytes → Option (Receiver × List Bytes)
receive read r chunk = ready_read read (record r { incoming = r.incoming ++ chunk })

-- A sequence of such events.
unfoldable pub receive_all :
    (Receiver → Fetched) → Receiver → List Bytes → Option (Receiver × List Bytes)
receive_all read r [] = some (r, [])
receive_all read r (c ∷ cs) = elim (receive read r c) [
  | none ↦ none
  | some (r', ms) ↦ elim (receive_all read r' cs) [
    | none ↦ none
    | some (r'', ms') ↦ some (r'', ms ++ ms')
  ]
]
