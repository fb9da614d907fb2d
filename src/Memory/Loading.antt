-- ===== src/Memory/Loading.antt =====
-- The memory of the loaders of src/CuteIPCMarshaller.cpp: it is freed, but for the bits of an image
-- that is cut short.
use cute_ipc.Prelude.{
  ℕ, ◌≤◌, ◌≡◌, refl, ap, subst, inl, inr, List, [], ◌∷◌, ◌++◌, length, take, All, ◌==◌, Bool-cases,
  Option-cases, arith,
}
use cute_ipc.Prelude.Int.{ℤ, pos, negsuc}
use cute_ipc.Prelude.Result.{Result, ok, fail, fault, ◌>>=◌, Result-cases}
use cute_ipc.Prelude.Text.{Bytes, text}
use cute_ipc.Qt.{Qt}
use cute_ipc.Message.{Container, linked_list, list, stack, vector}
use cute_ipc.Marshaller.Read.{
  read_bits, load_image, load_block, load_blocks, load_container_of_images, load_plain,
  load_images_datum, load_image_datum, load_datum,
}
use cute_ipc.Marshaller.Typed.{IsDefined}
use cute_ipc.Memory.{
  bits_cell, Cell, Heap, allocate, bits_memory, image_memory, blocks_memory, container_memory,
  datum_memory,
}
use cute_ipc.Memory.Cells.{Balance, Balance-refl, Balance-trans, allocate-Balance, release-Balance}

abbrev pub IsBits : Cell → Type 0
IsBits c = c.kind ≡ bits_cell

-- What a call may leave behind: nothing if it succeeds, and the bits of one image otherwise.
abbrev pub IsLost : {A : Type 0} → Result A → List Cell → Type 0
IsLost (ok a) lost = lost ≡ []
IsLost _ lost = All IsBits lost × (length lost ≤ 1)

-- The memory of a call that is defined: it never frees what is not there.
abbrev pub Loads : {A : Type 0} → Result A → Result Heap → Heap → Type 0
Loads r m h = (h' : Heap) × (lost : List Cell) × (m ≡ ok h') × IsLost r lost × Balance h h' lost

Loads-map :
    {A B : Type 0} (r : Result A) (f : A → B) (m : Result Heap) (h : Heap)
    → (IsDefined r → Loads r m h)
    → IsDefined (r >>= λ a. ok (f a))
    → Loads (r >>= λ a. ok (f a)) m h
Loads-map (ok a) f m h loads d = loads tt
Loads-map fail f m h loads d = loads tt
Loads-map fault f m h loads d = absurd d

-- Nothing was left behind before.
Loads-after :
    {A : Type 0} (r : Result A) (m : Result Heap) (h h1 : Heap) (lost : List Cell)
    → Balance h h1 lost
    → lost ≡ []
    → Loads r m h1
    → Loads r m h
Loads-after r m h h1 lost b e (h2, lost', em, l, b') = (
  h2,
  lost',
  em,
  l,
  subst (Balance h h2) (ap (λ cs. cs ++ lost') e) (Balance-trans h h1 h2 lost lost' b b'),
)

bits_memory-Loads :
    (z : ℤ) (s : Bytes) (h : Heap)
    → IsDefined (read_bits z s)
    → Loads (read_bits z s) (bits_memory z s h) h
unfolding read_bits bits_memory
bits_memory-Loads (negsuc n) s h d = absurd d
bits_memory-Loads (pos n) s h d =
    let c = (allocate bits_cell h).0 in
    let h1 = (allocate bits_cell h).1 in
    elim (Bool-cases (length (take n s) == n)) [
      | inl e ↦
          let (h2, freed, b) = release-Balance c h h1 [] [] (allocate-Balance bits_cell h) in
          rw (e, IsLost) (h2, [], freed, refl, b)
      | inr e ↦
          rw (e, IsLost) (h1, c ∷ [], refl, ((refl, tt), omega arith), allocate-Balance bits_cell h)
    ]

module _ {V I : Type 0} (q : Qt V I) where
  pub image_memory-Loads :
      (s : Bytes) (h : Heap)
      → IsDefined (load_image q s)
      → Loads (load_image q s) (image_memory q s h) h
  unfolding load_image image_memory
  image_memory-Loads s0 h d =
      Loads-map (read_bits _ _) _ (bits_memory _ _ h) h (λ d'. bits_memory-Loads _ _ h d') d

  blocks_memory-Loads :
      (dts : List Bytes) (h : Heap)
      → IsDefined (load_blocks q dts)
      → Loads (load_blocks q dts) (blocks_memory q dts h) h
  unfolding load_blocks blocks_memory load_block
  blocks_memory-Loads [] h d = (h, [], refl, refl, Balance-refl h)
  blocks_memory-Loads (dt ∷ dts) h d =
      let s = (q.get_string dt).1 in
      elim (Bool-cases (q.type_id (q.to_latin1 (q.get_string dt).0) == q.image_id)) [
        | inr e ↦ rw (e, blocks_memory, IsLost) (h, [], refl, (tt, omega arith), Balance-refl h)
        | inl e ↦ elim (Result-cases (load_image q s)) [
          | inl ((i, rest), e') ↦
              let (h1, lost, em, l, b) = image_memory-Loads s h (rw (e', IsDefined) tt) in
              let later =
                Loads-map (load_blocks q dts) (λ is. i ∷ is) (blocks_memory q dts h1) h1
                  (λ d'. blocks_memory-Loads dts h1 d') (rw (e, e') at d) in
              let here = Loads-after _ _ h h1 lost b (rw e' at l) later in
              rw (e, e', blocks_memory, em) here
          | inr (inl e') ↦
              let (h1, lost, em, l, b) = image_memory-Loads s h (rw (e', IsDefined) tt) in
              rw (e, e', blocks_memory, em, IsLost) (h1, lost, refl, (rw e' at l), b)
          | inr (inr e') ↦ absurd (rw (e, e') at d)
        ]
      ]

  container_memory-Loads :
      (s : Bytes) (h : Heap)
      → IsDefined (load_container_of_images q s)
      → Loads (load_container_of_images q s) (container_memory q s h) h
  unfolding load_container_of_images container_memory
  container_memory-Loads s h d =
      Loads-map (load_blocks q _) _ (blocks_memory q _ h) h (λ d'. blocks_memory-Loads _ h d') d

  images_memory-Loads :
      (c : Container) (s : Bytes) (h : Heap)
      → IsDefined (load_images_datum q c s)
      → Loads (load_images_datum q c s) (container_memory q s h) h
  unfolding load_images_datum
  images_memory-Loads c s h d =
      Loads-map (load_container_of_images q s) _ (container_memory q s h) h
        (λ d'. container_memory-Loads s h d') d

  -- QMetaType::load
  plain_Loads : (type : ℕ) (s : Bytes) (h : Heap) → Loads (load_plain q type s) (ok h) h
  unfolding load_plain
  plain_Loads type s h = elim (Option-cases (q.load type s)) [
    | inl e ↦ rw (e, load_plain, IsLost) (h, [], refl, (tt, omega arith), Balance-refl h)
    | inr (r, e) ↦ rw (e, load_plain, IsLost) (h, [], refl, refl, Balance-refl h)
  ]

  -- The ladder of loaders.
  pub datum_memory-Loads :
      (type : ℕ) (s : Bytes) (h : Heap)
      → IsDefined (load_datum q type s)
      → Loads (load_datum q type s) (datum_memory q type s h) h
  unfolding load_datum datum_memory load_image_datum load_plain
  datum_memory-Loads type s h d = elim (Bool-cases (type == q.image_id)) [
    | inl e ↦ rw e (
        Loads-map (load_image q s) _ (image_memory q s h) h (λ d'. image_memory-Loads s h d')
          (rw e at d))
    | inr e ↦ elim (Bool-cases (type == q.type_id (text "QLinkedList<QImage>"))) [
      | inl f ↦ rw (e, f) (images_memory-Loads linked_list s h (rw (e, f) at d))
      | inr f ↦ elim (Bool-cases (type == q.type_id (text "QList<QImage>"))) [
        | inl g ↦ rw (e, f, g) (images_memory-Loads list s h (rw (e, f, g) at d))
        | inr g ↦ elim (Bool-cases (type == q.type_id (text "QStack<QImage>"))) [
          | inl t ↦ rw (e, f, g, t) (images_memory-Loads stack s h (rw (e, f, g, t) at d))
          | inr t ↦ elim (Bool-cases (type == q.type_id (text "QVector<QImage>"))) [
            | inl u ↦ rw (e, f, g, t, u) (images_memory-Loads vector s h (rw (e, f, g, t, u) at d))
            | inr u ↦ rw (e, f, g, t, u) (plain_Loads type s h)
          ]
        ]
      ]
    ]
  ]
