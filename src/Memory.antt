-- ===== src/Memory.antt =====
-- The memory that src/CuteIPCMarshaller.cpp allocates and frees: the arguments of a message that is
-- read, and the bits of an image. The values themselves are in Marshaller/Read.
pub mod Cells
pub mod Loading
pub mod Arguments
pub mod Handlers
pub mod Freed
use cute_ipc.Prelude.{
  ℕ, zero, suc, ◌+◌, Bool, true, false, ◌&&◌, List, [], ◌∷◌, Option, none, some, length, take, ltb,
  is_nil, ◌==◌, if◌then◌else◌,
}
use cute_ipc.Prelude.Int.{ℤ, pos, negsuc, pos_part}
use cute_ipc.Prelude.Result.{Result, ok, fail, fault, ◌>>=◌}
use cute_ipc.Prelude.Text.{Text, Bytes, text}
use cute_ipc.Qt.{Qt}
use cute_ipc.Marshaller.Read.{load_image, read_blocks, load_datum}

-- What a cell was allocated as: by qstrdup, by QMetaType::create of a type, or by `new uchar[]`.
pub data Kind : Type 0 where
  name_cell : Kind
  value_cell : ℕ → Kind
  bits_cell : Kind

unfoldable pub same_kind : Kind → Kind → Bool
same_kind name_cell name_cell = true
same_kind (value_cell a) (value_cell b) = a == b
same_kind bits_cell bits_cell = true
same_kind _ _ = false

pub record Cell : Type 0 where
  pub address : ℕ
  pub kind : Kind

unfoldable pub same_cell : Cell → Cell → Bool
same_cell a b = (a.address == b.address) && same_kind a.kind b.kind

-- `next` is the address of the next cell, and `live` are the cells that are not freed.
pub record Heap : Type 0 where
  pub next : ℕ
  pub live : List Cell

abbrev pub allocate : Kind → Heap → Cell × Heap
allocate kind h =
    let c : Cell = record { address = h.next; kind = kind } in
    (c, record { next = suc h.next; live = c ∷ h.live })

unfoldable pub holds : Cell → List Cell → Bool
holds c [] = false
holds c (x ∷ xs) = let rest = holds c xs in if same_cell x c then true else rest

unfoldable pub strike : Cell → List Cell → List Cell
strike c [] = []
strike c (x ∷ xs) = let rest = strike c xs in if same_cell x c then xs else x ∷ rest

-- To free what is not there, or was allocated otherwise, is undefined.
unfoldable pub release : Cell → Heap → Result Heap
release c h = if holds c h.live then ok (record h { live = strike c h.live }) else fault

-- An argument that was read: the addresses of its name and of its value, which may be null.
pub record Owned : Type 0 where
  pub name : Text
  pub name_address : ℕ
  pub data_address : Option ℕ

-- The bits of loadQImage, which only a successful reading frees.
unfoldable pub bits_memory : ℤ → Bytes → Heap → Result Heap
bits_memory (negsuc n) s h = fault
bits_memory (pos n) s h =
    let (c, h') = allocate bits_cell h in if length (take n s) == n then release c h' else ok h'

module _ {V I : Type 0} (q : Qt V I) where
  -- loadQImage
  unfoldable pub image_memory : Bytes → Heap → Result Heap
  image_memory s0 h =
      let s1 = (q.get_int s0).1 in
      let s2 = (q.get_int s1).1 in
      let s3 = (q.get_int s2).1 in
      let s4 = (q.get_int s3).1 in
      let s5 = (q.get_int s4).1 in
      let s6 = (q.get_int s5).1 in
      let s7 = (q.get_colors s6).1 in
      let (byte_count, s8) = q.get_int s7 in bits_memory byte_count s8 h

  -- The second loop of loadContainerOfQImages, which an image that fails ends.
  unfoldable pub blocks_memory : List Bytes → Heap → Result Heap
  blocks_memory [] h = ok h
  blocks_memory (dt ∷ dts) h =
      let (type_name, s) = q.get_string dt in
      elim (q.type_id (q.to_latin1 type_name) == q.image_id) [
        | false ↦ ok h
        | true ↦ image_memory s h >>= λ h'. elim (load_image q s) [
          | ok r ↦ blocks_memory dts h'
          | fail ↦ ok h'
          | fault ↦ fault
        ]
      ]

  unfoldable pub container_memory : Bytes → Heap → Result Heap
  container_memory s h =
      let (size, s1) = q.get_int s in blocks_memory (read_blocks q (pos_part size) s1).0 h

  -- The ladder of loaders. QMetaType::load has no memory of its own here.
  unfoldable pub datum_memory : ℕ → Bytes → Heap → Result Heap
  datum_memory type s h =
      if type == q.image_id
      then image_memory s h
      else if type == q.type_id (text "QLinkedList<QImage>")
      then container_memory s h
      else if type == q.type_id (text "QList<QImage>")
      then container_memory s h
      else if type == q.type_id (text "QStack<QImage>")
      then container_memory s h
      else if type == q.type_id (text "QVector<QImage>")
      then container_memory s h
      else ok h

  -- The end of demarshallArgumentFromStream: the value is kept with its name, or destroyed.
  unfoldable pub keep_or_destroy :
      {A : Type 0}
      → Text
      → Cell
      → Result (A × Bytes)
      → Heap
      → Result (Heap × Option (Owned × Bytes))
  keep_or_destroy type_name data' (ok (d, rest)) h =
      let (c, h') = allocate name_cell h in
      ok (
        h',
        some (
          record { name = type_name; name_address = c.address; data_address = some data'.address },
          rest,
        ),
      )
  keep_or_destroy type_name data' fail h = release data' h >>= λ h'. ok (h', none)
  keep_or_destroy type_name data' fault h = fault

  -- demarshallArgumentFromStream
  unfoldable pub argument_memory : Bytes → Heap → Result (Heap × Option (Owned × Bytes))
  argument_memory s h =
      let (type_name, s1) = q.get_string s in
      let type = q.type_id (q.to_latin1 type_name) in
      let (data', h1) = allocate (value_cell type) h in
      let loaded = datum_memory type s1 h1 >>= λ h2.
      keep_or_destroy (q.to_latin1 type_name) data' (load_datum q type s1) h2 in
      if type == 0 then ok (h, none) else loaded

  -- The loop of demarshallMessage.
  unfoldable pub arguments_memory : ℕ → Bytes → Heap → Result (Heap × List Owned)
  arguments_memory zero s h = ok (h, [])
  arguments_memory (suc n) s h = argument_memory s h >>= λ (h1, r). elim r [
    | none ↦ ok (h1, [])
    | some (a, rest) ↦ arguments_memory n rest h1 >>= λ (h2, owned). ok (h2, a ∷ owned)
  ]

  -- The number of arguments that a message announces, and the bytes behind it.
  unfoldable pub announced_arguments : Bytes → ℕ × Bytes
  announced_arguments call =
      let s1 = (q.get_int call).1 in
      let s2 = (q.get_string s1).1 in
      let s3 = (q.get_string s2).1 in let (argc, s4) = q.get_int s3 in (pos_part argc, s4)

  -- demarshallMessage
  unfoldable pub message_memory : Bytes → Heap → Result (Heap × List Owned)
  message_memory call h =
      let (count, s) = announced_arguments call in
      let read = arguments_memory count s h in if ltb 10 count then fault else read

  -- freeArgument
  unfoldable pub free_argument : Owned → Heap → Result Heap
  free_argument a h =
      (elim a.data_address [
        | none ↦ ok h
        | some address ↦
            release (record { address = address; kind = value_cell (q.type_id a.name) }) h
      ])
      >>= release (record { address = a.name_address; kind = name_cell })

  unfoldable pub free_arguments : List Owned → Heap → Result Heap
  free_arguments [] h = ok h
  free_arguments (a ∷ owned) h = free_argument a h >>= free_arguments owned
