-- ===== src/Receiver/Pending.antt =====
-- The states of a receiver between the bytes of sent blocks, in readMessageFromSocket of
-- src/CuteIPCServiceConnection.cpp and src/CuteIPCInterfaceConnection.cpp.
use cute_ipc.Prelude.{
  ℕ, ◌≤◌, ◌<◌, ◌≡◌, ◌≢◌, refl, sym, ap, ◌∙◌, true, false, List, [], ◌∷◌, ◌++◌, append_assoc, Option,
  none, some, length, length-append, is_nil, arith,
}
use cute_ipc.Prelude.Text.{Bytes}
use cute_ipc.Qt.{DataStream}
use cute_ipc.Receiver.{
  Receiver, Fetched, idle, bytes_to_fetch, append_block, is_complete, stop, fetch_size,
}
use cute_ipc.Receiver.Split.{split_at, take_all, drop_all, take_front, drop_front}

-- What a sender may send: a block of 1 to 2 ^ 31 - 1 bytes.
abbrev pub IsBlock : Bytes → Type 0
IsBlock m = (0 < length m) × (length m < 2147483648)

-- The messages after a call that may have handed one on.
abbrev pub with_message : Option Bytes → List Bytes → List Bytes
with_message none left = left
with_message (some b) left = b ∷ left

pub record_path :
    {n n' : ℕ} {b b' i i' : Bytes}
    → n ≡ n'
    → b ≡ b'
    → i ≡ i'
    → ◌≡◌ {A = Receiver}
        (record { next_block_size = n; block = b; incoming = i })
        (record { next_block_size = n'; block = b'; incoming = i' })
record_path p q r = λ i. record { next_block_size = p i; block = q i; incoming = r i }

module _ (d : DataStream) where
  -- Each message behind its size.
  abbrev pub frames : List Bytes → Bytes
  frames [] = []
  frames (m ∷ ms) = d.put_uint (length m) ++ (m ++ frames ms)

  -- The receiver is in the middle of `m`, and `rest` is still to come.
  pub record Within (r : Receiver) (m : Bytes) (tail : Bytes) (rest : Bytes) : Type 0 where
    pub size : r.next_block_size ≡ length m
    pub short : length r.block < length m
    pub joined : r.block ++ (r.incoming ++ rest) ≡ m ++ tail

  -- `ms` are the messages not yet handed on when `rest` is still to come.
  pub data Pending (r : Receiver) (ms : List Bytes) (rest : Bytes) : Type 0 where
    between :
        r.next_block_size ≡ 0 → r.block ≡ [] → r.incoming ++ rest ≡ frames ms → Pending r ms rest
    within :
        (m : Bytes) (ms' : List Bytes)
        → ms ≡ m ∷ ms'
        → Within r m (frames ms') rest
        → Pending r ms rest

  -- What a call leaves: the messages that it did not hand on, and fewer bytes if the loop goes on.
  pub record After (r : Receiver) (f : Fetched) (ms : List Bytes) (rest : Bytes) : Type 0 where
    pub left : List Bytes
    pub split : ms ≡ with_message f.message left
    pub pending : Pending f.receiver left rest
    pub drained : f.finished ≡ true → rest ≡ [] → left ≡ []
    pub smaller : f.finished ≡ false → length f.receiver.incoming < length r.incoming

  -- Fewer bytes are missing than are at hand: the message is completed, and `ws` is left.
  pub append_block_whole :
      (r : Receiver) (m : Bytes) (tail rest : Bytes)
      → IsBlock m
      → Within r m tail rest
      → length m ≤ length (r.block ++ r.incoming)
      → (ws : Bytes) × (append_block r
          ≡ record { next_block_size = length m; block = m; incoming = ws })
        × (ws ++ rest ≡ tail)
        × (length ws < length r.incoming)
  append_block_whole r m tail rest b w le =
      let (ws, p, e) =
        split_at (r.block ++ r.incoming) rest m tail
          (append_assoc r.block r.incoming rest ∙ w.joined) le in
      let (us, p', e') = split_at m ws r.block r.incoming (sym p) (omega arith) in
      let count : bytes_to_fetch r ≡ length us =
        omega (arith, w.size, ap length p', length-append r.block us) in
      (
        ws,
        record_path w.size
            (ap (◌++◌ r.block) (take_front (bytes_to_fetch r) us ws r.incoming count e') ∙ sym p')
            (drop_front (bytes_to_fetch r) us ws r.incoming count e'),
        e,
        omega (
          arith,
          ap length e',
          ap length p',
          length-append us ws,
          length-append r.block us,
          w.short,
        ),
      )

  pub append_block_part :
      (r : Receiver) (m : Bytes) (tail rest : Bytes)
      → IsBlock m
      → Within r m tail rest
      → length (r.block ++ r.incoming) < length m
      → append_block r
        ≡ record { next_block_size = length m; block = r.block ++ r.incoming; incoming = [] }
  append_block_part r m tail rest b w lt =
      let enough : length r.incoming ≤ bytes_to_fetch r =
        omega (arith, w.size, length-append r.block r.incoming) in
      record_path w.size (ap (◌++◌ r.block) (take_all (bytes_to_fetch r) r.incoming enough))
        (drop_all (bytes_to_fetch r) r.incoming enough)

  pub frames-eq-nil : (ms : List Bytes) → length (frames ms) < 4 → ms ≡ []
  frames-eq-nil [] h = refl
  frames-eq-nil (m ∷ ms) h = absurd (
      omega (
        arith,
        d.length-put_uint (length m),
        length-append (d.put_uint (length m)) (m ++ frames ms),
      ))

  pub fetch_size_new :
      (r : Receiver) (n : ℕ) (ws : Bytes)
      → r.next_block_size ≡ 0
      → r.incoming ≡ d.put_uint n ++ ws
      → n < 4294967296
      → fetch_size d r ≡ record r { next_block_size = n; incoming = ws }
  unfolding fetch_size
  fetch_size_new r n ws e0 e lt = ground (arith, ap d.get_uint e, d.get_uint-put_uint n ws lt)

  pub fetch_size_skip : (r : Receiver) → r.next_block_size ≢ 0 → fetch_size d r ≡ r
  unfolding fetch_size
  fetch_size_skip r ne = ground arith

  -- What both ways to end the function have in common.
  pub record IsFinish (finish : Receiver → Fetched) : Type 0 where
    pub at_complete :
        (r : Receiver)
        → is_complete r ≡ true
        → finish r ≡ record {
          receiver = idle r.incoming;
          message = some r.block;
          finished = is_nil r.incoming;
        }
    pub at_part :
        (r : Receiver) → is_complete r ≡ false → is_nil r.incoming ≡ true → finish r ≡ stop r
