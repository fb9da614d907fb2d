-- ===== src/Marshaller/Images.antt =====
-- Images and containers of images, written and then read (src/CuteIPCMarshaller.cpp).
use cute_ipc.Prelude.{
  ℕ, suc, ◌<◌, ◌≡◌, refl, ap, false, List, [], ◌∷◌, ◌++◌, append_assoc, append-nil, length, is_nil,
  take-length_append, drop-length_append, arith, ==_iff,
}
use cute_ipc.Prelude.Int.{pos}
use cute_ipc.Prelude.Result.{ok}
use cute_ipc.Prelude.Text.{Bytes, IsLatin1, text}
use cute_ipc.Qt.{Qt}
use cute_ipc.Marshaller.Write.{image_fields, marshall_image, image_blocks, put_all}
use cute_ipc.Marshaller.Read.{
  read_bits, load_image, read_blocks, load_block, load_blocks, load_container_of_images,
}

read_bits-append : (b rest : Bytes) → read_bits (pos (length b)) (b ++ rest) ≡ ok (b, rest)
unfolding read_bits
read_bits-append b rest =
    rw (take-length_append b rest, drop-length_append b rest, (==_iff (length b) (length b)).1 refl)

not_nil_append : (xs ys : Bytes) → 0 < length xs → is_nil (xs ++ ys) ≡ false
not_nil_append [] ys h = absurd (omega arith)
not_nil_append (x ∷ xs) ys h = refl

module _ {V I : Type 0} (q : Qt V I) where
  pub load_image-image_fields :
      (i : I) (rest : Bytes) → load_image q (image_fields q i ++ rest) ≡ ok (i, rest)
  unfolding load_image image_fields
  load_image-image_fields i rest = simp (
    append_assoc,
    q.get_int-put_int (q.width i) _ (q.width-IsInt32 i),
    q.get_int-put_int (q.height i) _ (q.height-IsInt32 i),
    q.get_int-put_int (q.bytes_per_line i) _ (q.bytes_per_line-IsInt32 i),
    q.get_int-put_int (q.format i) _ (q.format-IsInt32 i),
    q.get_int-put_int (q.dots_per_meter_x i) _ (q.dots_per_meter_x-IsInt32 i),
    q.get_int-put_int (q.dots_per_meter_y i) _ (q.dots_per_meter_y-IsInt32 i),
    q.get_colors-put_colors (q.color_table i),
    q.get_int-put_int (pos (length (q.const_bits i))) _ (q.length-const_bits i),
    read_bits-append (q.const_bits i) rest,
    q.rebuilt i,
  )

  IsLatin1-QImage : IsLatin1 (text "QImage")
  IsLatin1-QImage = omega arith

  load_image_whole : (i : I) → load_image q (image_fields q i) ≡ ok (i, [])
  load_image_whole i = rw append-nil at (load_image-image_fields i [])

  load_block-marshall_image : (i : I) → load_block q (marshall_image q (text "QImage") i) ≡ ok i
  unfolding load_block marshall_image
  load_block-marshall_image i = simp (
    q.get_string-put_string (text "QImage") (image_fields q i),
    q.to_latin1_latin (text "QImage") IsLatin1-QImage,
    q.type_id-image,
    (==_iff q.image_id q.image_id).1 refl,
    load_image_whole i,
  )

  load_blocks-image_blocks : (is : List I) → load_blocks q (image_blocks q is) ≡ ok is
  unfolding load_blocks image_blocks
  load_blocks-image_blocks [] = refl
  load_blocks-image_blocks (i ∷ is) = rw (load_block-marshall_image i, load_blocks-image_blocks is)

  length-image_blocks : (is : List I) → length (image_blocks q is) ≡ length is
  unfolding image_blocks
  length-image_blocks [] = refl
  length-image_blocks (i ∷ is) = ap suc (length-image_blocks is)

  read_blocks_step :
      (n : ℕ) (dt rest : Bytes)
      → is_nil rest ≡ false
      → read_blocks q (suc n) (q.put_bytes dt ++ rest)
        ≡ (dt ∷ (read_blocks q n rest).0, (read_blocks q n rest).1)
  unfolding read_blocks
  read_blocks_step n dt rest h = simp (q.get_bytes-put_bytes dt rest, h)

  read_blocks_last : (dt rest : Bytes) → read_blocks q 1 (q.put_bytes dt ++ rest) ≡ (dt ∷ [], rest)
  unfolding read_blocks
  read_blocks_last dt rest = rw (q.get_bytes-put_bytes dt rest) (ground arith)

  more_blocks :
      (dt : Bytes) (dts : List Bytes) (rest : Bytes) → is_nil (put_all q (dt ∷ dts) ++ rest) ≡ false
  unfolding put_all
  more_blocks dt dts rest =
      rw append_assoc (not_nil_append (q.put_bytes dt) _ (q.length-put_bytes_pos dt))

  read_blocks-put_all :
      (dts : List Bytes) (rest : Bytes)
      → read_blocks q (length dts) (put_all q dts ++ rest) ≡ (dts, rest)
  unfolding put_all
  read_blocks-put_all [] rest = unfold read_blocks in refl
  read_blocks-put_all (dt ∷ []) rest = rw append-nil (read_blocks_last dt rest)
  read_blocks-put_all (dt ∷ (dt' ∷ dts)) rest = rw (
    append_assoc,
    read_blocks_step _ dt (put_all q (dt' ∷ dts) ++ rest) (more_blocks dt' dts rest),
    read_blocks-put_all (dt' ∷ dts) rest,
  )

  -- What the marshaller writes for a container after its type name.
  abbrev pub container_fields : List I → Bytes
  container_fields is =
      q.put_int (pos (length (image_blocks q is))) ++ put_all q (image_blocks q is)

  pub load_container-container_fields :
      (is : List I) (rest : Bytes)
      → length is < 2147483648
      → load_container_of_images q (container_fields is ++ rest) ≡ ok (is, rest)
  unfolding load_container_of_images
  load_container-container_fields is rest h = simp (
    append_assoc,
    q.get_int-put_int (pos (length (image_blocks q is))) _ (omega (arith, length-image_blocks is)),
    read_blocks-put_all (image_blocks q is) rest,
    load_blocks-image_blocks is,
  )
